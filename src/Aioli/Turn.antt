-- ===== src/Aioli/Turn.antt =====
-- One turn of a queue that aIOLi selected (src/aIOLi.c).
use agios.Common.{ℕ, ◌<◌, ◌^◌, ◌≤◌, ◌≡◌, refl, ◌∙◌, ◌⊎◌, List, [], ◌∷◌, ◌++◌, map, some, arith}
use agios.Request.{FileId, Request, RequestType, rt_read, rt_write, Queued, File}
use agios.Lines.{lookup_file, queue_of, update_queue}
use agios.State.{State, ok, row}
use agios.AddRequest.{Dispatch}
use agios.Aggregation.Contents.{weight}
use agios.Hashtable.Add.{queue_in-some, update_queue-same}
use agios.Hashtable.Enter.{IsOrdered}
use agios.Hashtable.Insert.{change_at-found}
use agios.Hashtable.Take.{Leaves, Leaves-next}
use agios.Scheduling.GiveBack.{HasMemory}
use agios.Scheduling.Table.{queue-Same}
use agios.Waiting.Serve.{info_of}
use agios.Aioli.Rounds.{next_quantum, set_nextquantum, aioli_serve}
use agios.Aioli.Serve.{
  taken_by, left_by, bytes, StopsAt, taken_by-left_by, left_by-StopsAt, taken_by-le, take_first_lem,
  take_more_lem,
}

-- The file and the queue after the turn.
pub record HasTurned (hash : ℕ) (id : FileId) (type : RequestType) (left : List Queued)
    (quantum : ℕ) (s' : State) : Type 0 where
  pub file : File
  pub found : lookup_file id (row s'.hashlist hash) ≡ some file
  pub rest : (queue_of type file).list ≡ left
  pub quantum_set : (queue_of type file).nextquantum ≡ quantum

with_quantum :
    (type : RequestType) (n : ℕ) (g : File)
    → ((queue_of type (update_queue type (λ q. record q { nextquantum = n }) g)).list
        ≡ (queue_of type g).list)
      × ((queue_of type (update_queue type (λ q. record q { nextquantum = n }) g)).nextquantum ≡ n)
with_quantum rt_read n g = (refl, refl)
with_quantum rt_write n g = (refl, refl)

module _ (w : Request → ℕ) (max config : ℕ) (dispatch : ℕ → Dispatch)
    (memory : (i : ℕ) → HasMemory (dispatch i)) (hash : ℕ) (id : FileId) (type : RequestType) where
  set_quantum :
      (quantum : ℕ) (left : List Queued) (s : State) (g : File)
      → lookup_file id (row s.hashlist hash) ≡ some g
      → (queue_of type g).list ≡ left
      → HasTurned hash id type left quantum (set_nextquantum hash id type quantum s)
  unfolding set_nextquantum
  set_quantum quantum left s g e l = record {
    file = update_queue type (λ q. record q { nextquantum = quantum }) g;
    found =
        change_at-found id (update_queue type (λ q. record q { nextquantum = quantum }))
          (update_queue-same type _) s.hashlist hash g e;
    rest = (with_quantum type quantum g).0 ∙ l;
    quantum_set = (with_quantum type quantum g).1;
  }

  -- With memory and a table in order, a turn of a queue that holds `req` and then `others`, of less than
  -- 2 ^ 31 bytes together, takes `req`, also if it is larger than the quantum, and `more`, the first of the others, and leaves the rest. Where `more` is not empty
  -- all that was taken fits the quantum; and a further request was not taken only if the quantum is
  -- used up or the request does not fit what is left. The structures of step 1 are in the order of the
  -- queue; the requests that were taken leave the table and all others stay, in order; the queue keeps
  -- the rest and gets its next quantum.
  pub aioli_serve_lem :
      (f : File) (req : Queued) (others : List Queued) (s : State)
      → lookup_file id (row s.hashlist hash) ≡ some f
      → (queue_of type f).list ≡ req ∷ others
      → bytes (req ∷ others) < 2 ^ 31
      → IsOrdered max s.hashlist
      → (more : List Queued) × (left : List Queued) × (s' : State) × (aioli_serve config dispatch
            hash id type s
          ≡ ok (map info_of (req ∷ more), s'))
        × (more ++ left ≡ others)
        × ((more ≡ []) ⊎ (bytes (req ∷ more) ≤ (queue_of type f).nextquantum))
        × StopsAt (queue_of type f).nextquantum (bytes (req ∷ more)) left
        × Leaves w max (weight w (req ∷ more)) s.hashlist s'.hashlist
        × HasTurned hash id type left
            (next_quantum config (bytes (req ∷ more)) (queue_of type f).nextquantum)
            s'
  unfolding aioli_serve
  aioli_serve_lem f req others s found e small o =
      let quantum = (queue_of type f).nextquantum in
      let (s1, eq1, gone1, there1) =
        take_first_lem w max dispatch memory hash id type 0 req others s (f, found, e) o in
      let (s2, eq2, gone2, (g, found2, rest2)) =
        take_more_lem w max dispatch memory hash id type quantum 1 req.len others s1 there1
          gone1.ordered in
      let more = taken_by quantum req.len others in
      let left = left_by quantum req.len others in
      let next = next_quantum config (bytes (req ∷ more)) quantum in
      let t =
        queue-Same w max hash id type (λ q. record q { nextquantum = next }) s2 (λ q. refl)
          gone2.ordered in
      (
        more,
        left,
        set_nextquantum hash id type next s2,
        rw (aioli_serve, queue_in-some s hash id type f found, e, eq1, eq2) refl,
        taken_by-left_by quantum req.len others,
        taken_by-le quantum req.len others small,
        left_by-StopsAt quantum req.len others,
        Leaves-next w max _ _ gone1 (record {
          held = omega (arith, gone2.held, t.held);
          ordered = t.ordered;
          shape = t.shape ∙ gone2.shape;
        }),
        set_quantum next left s2 g found2 rest2,
      )
