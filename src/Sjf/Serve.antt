-- ===== src/Sjf/Serve.antt =====
-- What SJF does with the queue that it chose (src/SJF.c).
use agios.Common.{ℕ, ◌+◌, ◌≡◌, ◌∙◌, List, [], ◌∷◌, Option, none, some, refl, arith, total, length}
use mathlib.Core.Path.{subst}
use agios.Common.Int.{pos, ◌-ℤ◌}
use agios.Request.{FileId, Request, RequestType, Queued, File}
use agios.Lines.{lookup_file, queue_of}
use agios.State.{State, ok, fault, row, change_queue}
use agios.Process.{Callback}
use agios.Process.Delivery.{delivered, user_ids_of}
use agios.AddRequest.{Dispatch}
use agios.Aggregation.Contents.{requests}
use agios.Aggregation.Insertion.{Fits}
use agios.Hashtable.Weight.{table_weight}
use agios.Hashtable.Take.{take_head_lem}
use agios.Hashtable.Add.{queue_in-some, queue_in-none, with_list}
use agios.Hashtable.Enter.{IsOrdered}
use agios.Scheduling.GiveBack.{HasMemory, given_back, give_back-eq, given_back-Gives}
use agios.Scheduling.Table.{given_back-Same}
use agios.Sjf.Rounds.{sjf_serve}

-- The request `req` has left the table and was given to the user.
pub record Serves (w : Request → ℕ) (max : ℕ) (req : Queued) (s : State) (cs : List Callback)
    (s' : State) : Type 0 where
  pub given : delivered cs ≡ user_ids_of (requests req)
  pub held : table_weight w s.hashlist ≡ total w (requests req) + table_weight w s'.hashlist
  pub ordered : IsOrdered max s'.hashlist
  pub shape : length s'.hashlist ≡ length s.hashlist
  pub timeline : s'.timeline ≡ s.timeline
  pub current_reqnb : s'.current_reqnb ≡ s.current_reqnb -ℤ pos req.reqnb

module _ (w : Request → ℕ) (max : ℕ) (env : Dispatch) (memory : HasMemory env) where
  -- With memory and a table that is in order, the first request of a queue is given to the user, its
  -- parts once and in their order, and leaves the table; every other request stays, as often as it
  -- was there, the table stays in order, and the counter falls by the number of parts.
  pub sjf_serve_lem :
      (hash : ℕ) (id : FileId) (type : RequestType) (f : File) (req : Queued) (rest : List Queued)
      (s : State)
      → lookup_file id (row s.hashlist hash) ≡ some f
      → (queue_of type f).list ≡ req ∷ rest
      → IsOrdered max s.hashlist
      → (cs : List Callback) × (s' : State) × (sjf_serve env hash id type s ≡ ok (cs, s'))
        × Serves w max req s cs s'
  unfolding sjf_serve
  sjf_serve_lem hash id type f req rest s found e o =
      let s1 : State = change_queue hash id type (with_list rest) s in
      let (fits, left, _) = take_head_lem w max hash id type f req rest s found e o in
      let g = give_back-eq env req hash s1 memory fits.0 in
      let k = given_back-Gives env req hash s1 in
      let t = given_back-Same w max env req hash s1 left.ordered in
      (
        g.0,
        given_back env req hash s1,
        rw (sjf_serve, queue_in-some s hash id type f found, e) (g.1),
        record {
          given = g.2;
          held = omega (arith, left.held, t.held);
          ordered = t.ordered;
          shape = t.shape ∙ left.shape;
          timeline = k.timeline;
          current_reqnb = k.current_reqnb;
        },
      )

  -- A call that returns has served the first request of a queue.
  pub served_lem :
      (hash : ℕ) (id : FileId) (type : RequestType) (s s' : State) (cs : List Callback)
      → sjf_serve env hash id type s ≡ ok (cs, s')
      → IsOrdered max s.hashlist
      → (req : Queued) × Fits max req × Serves w max req s cs s'
  unfolding sjf_serve
  served_lem hash id type s s' cs e o = find (lookup_file id (row s.hashlist hash)) refl
    where
      take :
          (f : File) (queue : List Queued)
          → lookup_file id (row s.hashlist hash) ≡ some f
          → (queue_of type f).list ≡ queue
          → (req : Queued) × Fits max req × Serves w max req s cs s'
      take f [] found k =
          let empty : sjf_serve env hash id type s ≡ fault =
            rw (sjf_serve, queue_in-some s hash id type f found, k) refl in
          absurd (cc (e, empty))
      take f (req ∷ rest) found k =
          let a = sjf_serve_lem hash id type f req rest s found k o in
          let calls : a.0 ≡ cs = cc (a.2, e) in
          let same : a.1 ≡ s' = cc (a.2, e) in
          let fits = take_head_lem w max hash id type f req rest s found k o in
          (
            req,
            fits.0,
            subst (Serves w max req s cs) same (subst (λ c. Serves w max req s c a.1) calls a.3),
          )

      find :
          (o' : Option File)
          → lookup_file id (row s.hashlist hash) ≡ o'
          → (req : Queued) × Fits max req × Serves w max req s cs s'
      find none k =
          let missing : sjf_serve env hash id type s ≡ fault =
            rw (sjf_serve, queue_in-none s hash id type k) refl in
          absurd (cc (e, missing))
      find (some f) k = take f (queue_of type f).list k refl
