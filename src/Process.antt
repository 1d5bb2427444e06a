-- ===== src/Process.antt =====
-- src/process_request.c: giving requests back to the user, in two steps.
pub mod Delivery
use agios.Common.{
  ℕ, zero, suc, ◌+◌, List, [], ◌∷◌, ◌++◌, map, Option, none, some, Bool, true, false, ltb, ◌==◌,
  if◌then◌else◌, length,
}
use agios.Common.Int.{ℤ, pos, ◌-ℤ◌}
use agios.Request.{FileId, Request, RequestType, Queued, Queue, File}
use agios.Lines.{lookup_file, update_file, is_zero, idle_file}
use agios.Statistics.{stats_aggregation}
use agios.State.{
  State, Outcome, ok, fault, row, change_file, change_queue, dec_many_current_reqnb,
  dec_current_filenb,
}

-- What step 1 hands to step 2.
pub record ProcessingInfo : Type 0 where
  pub user_ids : List ℕ
  pub reqnb : ℕ

-- `req` goes to the end of the dispatch queue of `head`. Both are requests to the same line.
unfoldable pub put_this_request_in_dispatch : (head req : Request) → ℕ → ℕ → State → State
unfolding update_file
put_this_request_in_dispatch head req this_time hash s =
    change_file hash req.file_id (λ f. record f { timeline_reqnb = f.timeline_reqnb -ℤ pos 1 })
      (change_queue hash req.file_id req.type
        (λ q. record q { current_size = q.current_size -ℤ pos req.len })
        (change_queue hash head.file_id head.type
          (λ q. record q {
            dispatch = q.dispatch ++ record req { dispatch_timestamp = some this_time } ∷ [];
          })
          s))

unfoldable pub put_all_in_dispatch : (head : Request) → List Request → ℕ → ℕ → State → State
unfolding put_this_request_in_dispatch
put_all_in_dispatch head [] this_time hash s = s
put_all_in_dispatch head (req ∷ rest) this_time hash s =
    put_all_in_dispatch head rest this_time hash
      (put_this_request_in_dispatch head req this_time hash s)

-- A file without requests is no longer counted.
unfoldable pub uncount_file : FileId → ℕ → State → State
unfolding lookup_file dec_current_filenb
uncount_file id hash s =
    if idle_file (lookup_file id (row s.hashlist hash)) then dec_current_filenb s else s

-- The filling of the structure and the counters, with the requests that the loop goes over.
unfoldable pub dispatch_requests : Queued → List Request → ℕ → ℕ → State → ProcessingInfo × State
unfolding put_all_in_dispatch uncount_file dec_many_current_reqnb
dispatch_requests head reqs this_time hash s = (
  record { user_ids = map (λ r. r.user_id) reqs; reqnb = head.reqnb },
  dec_many_current_reqnb hash head.reqnb
      (uncount_file head.file_id hash (put_all_in_dispatch head.head reqs this_time hash s)),
)

-- `info->reqnb` counts the sub-requests of a virtual request.
abbrev pub counted_info : ProcessingInfo × State → ℕ → ProcessingInfo × State
counted_info (info, s) n = (record info { reqnb = n }, s)

-- The identifiers of a virtual request go to an array of `reqnb` places. `this_time` is the clock; the
-- Booleans are the outcomes of the two calls of `malloc`.
unfoldable pub process_requests_step1 :
    (info ids : Bool)
    → (this_time : ℕ) → Queued
    → ℕ
    → State
    → Outcome (Option ProcessingInfo × State)
unfolding dispatch_requests
process_requests_step1 info ids this_time head hash s =
    if head.reqnb == 0
    then fault
    else if info
    then (if ids
        then (if ltb 1 head.reqnb
            then (if ltb head.reqnb (length head.reqs_list)
                then fault
                else (let r =
                      counted_info (dispatch_requests head head.reqs_list this_time hash s)
                        (length head.reqs_list) in
                    ok (some r.0, r.1)))
            else (let r = dispatch_requests head (head.head ∷ []) this_time hash s in
                ok (some r.0, r.1)))
        else ok (none, s))
    else ok (none, s)

-- The calls of the user's functions.
pub data Callback : Type 0 where
  process_request : ℕ → Callback
  process_requests : List ℕ → ℕ → Callback

abbrev single_callback : List ℕ → Outcome (List Callback)
single_callback [] = fault
single_callback (id ∷ ids) = ok (process_request id ∷ [])

-- The loop over the first `n` identifiers.
unfoldable pub callback_each : (n : ℕ) → List ℕ → Outcome (List Callback)
callback_each zero ids = ok []
callback_each (suc n) [] = fault
callback_each (suc n) (id ∷ ids) = elim (callback_each n ids) [
  | fault ↦ fault
  | ok cs ↦ ok (process_request id ∷ cs)
]

-- `has_list_callback` says whether the user gave `process_requests_cb`. The result of
-- `is_time_to_change_scheduler`, which ends the step, is the caller's.
unfoldable pub process_requests_step2 :
    (has_list_callback : Bool) → ProcessingInfo → Outcome (List Callback)
unfolding callback_each
process_requests_step2 has_list_callback info =
    if info.reqnb == 0
    then fault
    else if info.reqnb == 1
    then single_callback info.user_ids
    else if has_list_callback
    then ok (process_requests info.user_ids info.reqnb ∷ [])
    else callback_each info.reqnb info.user_ids

-- `generic_post_process` of src/scheduling_algorithms.c; a virtual request is freed.
unfoldable pub generic_post_process : Queued → ℕ → State → State
unfolding stats_aggregation update_file
generic_post_process req hash s =
    let s' : State =
      change_queue hash req.file_id req.type (λ q. record q { lastaggregation = req.reqnb }) s in
    if ltb 1 req.reqnb then change_queue hash req.file_id req.type stats_aggregation s' else s'
