-- ===== src/Scheduling/Table.antt =====
-- What returning a request to the user does to the hash table (src/process_request.c): nothing that
-- waits there moves.
use agios.Common.{ℕ, ◌≡◌, refl, ◌∙◌, inl, inr, List, [], ◌∷◌, ◌++◌, length, ltb, Bool-cases, some}
use agios.Common.Int.{pos, ◌-ℤ◌}
use agios.Request.{FileId, Request, RequestType, Queued, Queue, File}
use agios.Lines.{lookup_file, idle_file, update_queue}
use agios.Statistics.{stats_aggregation}
use agios.State.{State, row, change_file, change_queue, dec_many_current_reqnb, dec_current_filenb}
use agios.Aggregation.Contents.{requests}
use agios.Process.{
  put_this_request_in_dispatch, put_all_in_dispatch, uncount_file, dispatch_requests,
  generic_post_process,
}
use agios.AddRequest.{Dispatch}
use agios.Scheduling.GiveBack.{given_back}
use agios.Hashtable.Weight.{table_weight}
use agios.Hashtable.Enter.{IsOrdered}
use agios.Hashtable.Quiet.{KeepsLists, update_queue-KeepsLists, change_file-Steady}

-- The table holds what it held, in order.
pub record Same (w : Request → ℕ) (max : ℕ) (s s' : State) : Type 0 where
  pub held : table_weight w s'.hashlist ≡ table_weight w s.hashlist
  pub ordered : IsOrdered max s'.hashlist
  pub shape : length s'.hashlist ≡ length s.hashlist

module _ (w : Request → ℕ) (max : ℕ) where
  pub next : {a b c : State} → Same w max a b → Same w max b c → Same w max a c
  next h k = record { held = k.held ∙ h.held; ordered = k.ordered; shape = k.shape ∙ h.shape }

  file-Same :
      (hash : ℕ) (id : FileId) (change : File → File) (s : State)
      → KeepsLists change
      → IsOrdered max s.hashlist
      → Same w max s (change_file hash id change s)
  file-Same hash id change s k o =
      let c = change_file-Steady w max hash id change s k o in
      record { held = c.held; ordered = c.ordered; shape = c.shape }

  pub queue-Same :
      (hash : ℕ) (id : FileId) (type : RequestType) (change : Queue → Queue) (s : State)
      → ((q : Queue) → (change q).list ≡ q.list)
      → IsOrdered max s.hashlist
      → Same w max s (change_queue hash id type change s)
  queue-Same hash id type change s k o =
      file-Same hash id (update_queue type change) s (update_queue-KeepsLists type change k) o

  put_this-Same :
      (head req : Request) (now hash : ℕ) (s : State)
      → IsOrdered max s.hashlist
      → Same w max s (put_this_request_in_dispatch head req now hash s)
  unfolding put_this_request_in_dispatch
  put_this-Same head req now hash s o =
      let a =
        queue-Same hash head.file_id head.type
          (λ q. record q {
            dispatch = q.dispatch ++ record req { dispatch_timestamp = some now } ∷ [];
          })
          s (λ q. refl) o in
      let b =
        queue-Same hash req.file_id req.type
          (λ q. record q { current_size = q.current_size -ℤ pos req.len }) _ (λ q. refl)
          a.ordered in
      next (next a b) (
        file-Same hash req.file_id (λ f. record f { timeline_reqnb = f.timeline_reqnb -ℤ pos 1 }) _
          (record { handle = λ f. refl; reads = λ f. refl; writes = λ f. refl }) b.ordered)

  put_each-Same :
      (head : Request) (rs : List Request) (now hash : ℕ) (s : State)
      → IsOrdered max s.hashlist
      → Same w max s (put_all_in_dispatch head rs now hash s)
  unfolding put_all_in_dispatch
  put_each-Same head [] now hash s o = record { held = refl; ordered = o; shape = refl }
  put_each-Same head (r ∷ rs) now hash s o =
      let a = put_this-Same head r now hash s o in
      next a (put_each-Same head rs now hash _ a.ordered)

  uncount-Same :
      (id : FileId) (hash : ℕ) (n : ℕ) (s : State)
      → IsOrdered max s.hashlist
      → Same w max s (dec_many_current_reqnb hash n (uncount_file id hash s))
  unfolding uncount_file dec_many_current_reqnb dec_current_filenb
  uncount-Same id hash n s o =
      elim (Bool-cases (idle_file (lookup_file id (row s.hashlist hash)))) [
        | inl idle ↦ rw (uncount_file, idle) (record { held = refl; ordered = o; shape = refl })
        | inr busy ↦ rw (uncount_file, busy) (record { held = refl; ordered = o; shape = refl })
      ]

  pub dispatch-Same :
      (head : Queued) (rs : List Request) (now hash : ℕ) (s : State)
      → IsOrdered max s.hashlist
      → Same w max s (dispatch_requests head rs now hash s).1
  unfolding dispatch_requests
  dispatch-Same head rs now hash s o =
      let a = put_each-Same head.head rs now hash s o in
      next a (uncount-Same head.file_id hash head.reqnb _ a.ordered)

  stats_aggregation-list : (q : Queue) → (stats_aggregation q).list ≡ q.list
  unfolding stats_aggregation
  stats_aggregation-list q = elim (Bool-cases (ltb 1 q.lastaggregation)) [
    | inl many ↦ rw many refl
    | inr one ↦ rw one refl
  ]

  pub post_process-Same :
      (req : Queued) (hash : ℕ) (s : State)
      → IsOrdered max s.hashlist
      → Same w max s (generic_post_process req hash s)
  unfolding generic_post_process
  post_process-Same req hash s o =
      let a =
        queue-Same hash req.file_id req.type (λ q. record q { lastaggregation = req.reqnb }) s
          (λ q. refl) o in
      elim (Bool-cases (ltb 1 req.reqnb)) [
        | inl many ↦
            rw (generic_post_process, many)
              (next a (
                queue-Same hash req.file_id req.type stats_aggregation _ stats_aggregation-list
                  a.ordered))
        | inr one ↦ rw (generic_post_process, one) a
      ]

  -- The requests that wait in the table stay as they are while one is returned to the user.
  pub given_back-Same :
      (env : Dispatch) (req : Queued) (hash : ℕ) (s : State)
      → IsOrdered max s.hashlist
      → Same w max s (given_back env req hash s)
  given_back-Same env req hash s o =
      let a = dispatch-Same req (requests req) env.this_time hash s o in
      next a (post_process-Same req hash _ a.ordered)
