-- ===== src/AddRequest.antt =====
-- `agios_add_request` and `statistics_newreq` (src/agios_add_request.c, src/statistics.c). The call
-- is one critical section: it holds the lock of the data structure from the insertion on.
pub mod Table
use agios.Common.{ℕ, List, [], ◌∷◌, ◌++◌, none, some, Bool, true, false, ◌==◌, if◌then◌else◌}
use agios.Common.Int.{pos, ◌+ℤ◌}
use agios.Request.{Request, Queued, Fields, simple, request_constructor}
use agios.Hash.{get_hashtable_position}
use agios.Lines.{update_file}
use agios.Statistics.{update_global_stats_newreq, queue_newreq}
use agios.Schedulers.{noop_scheduler}
use agios.Hashtable.{hashtable_add_req}
use agios.Timeline.{timeline_add_req}
use agios.Process.{Callback, process_requests_step1, process_requests_step2, generic_post_process}
use agios.State.{
  State, Outcome, ok, fault, ◌>>=◌, Memory, Context, change_at, change_file, change_queue,
  inc_current_reqnb,
}

-- What the environment gives to a step that returns requests to the user.
pub record Dispatch : Type 0 where
  pub info : Bool
  pub ids : Bool
  pub this_time : ℕ
  pub has_list_callback : Bool

unfoldable pub statistics_newreq : Request → ℕ → State → State
unfolding update_global_stats_newreq queue_newreq
statistics_newreq req hash s =
    change_queue hash req.file_id req.type (λ q. queue_newreq q req)
      (record s { global_stats = update_global_stats_newreq s.global_stats req })

-- The counters and statistics of a request that was put in its queue.
unfoldable pub count_request : Context → Request → ℕ → State → State
unfolding statistics_newreq inc_current_reqnb update_file
count_request ctx req hash s =
    let s1 : State = record s {
      hashlist_reqcounter = change_at (λ c. c +ℤ pos 1) s.hashlist_reqcounter hash;
    } in
    let s2 : State =
      change_queue hash req.file_id req.type
        (λ q. record q { current_size = q.current_size +ℤ pos req.len }) s1 in
    let s3 : State =
      change_file hash req.file_id (λ f. record f { timeline_reqnb = f.timeline_reqnb +ℤ pos 1 })
        s2 in
    let s4 : State = statistics_newreq req hash s3 in
    inc_current_reqnb
      (if ctx.config_trace_agios then record s4 { traced = s4.traced ++ req ∷ [] } else s4)

-- The two steps of processing, with the clean-up between them. Step 2 asserts that step 1 succeeded.
unfoldable pub give_back : Dispatch → Queued → ℕ → State → Outcome (List Callback × State)
unfolding process_requests_step1 process_requests_step2 generic_post_process
give_back env req hash s = do
  r ← process_requests_step1 env.info env.ids env.this_time req hash s
  elim (r.0) [
    | none ↦ fault
    | some info ↦ do
      cs ← process_requests_step2 env.has_list_callback info
      ok (cs, generic_post_process req hash r.1)
  ]

-- The container for the new request; the result of the two functions is not looked at.
unfoldable pub add_to_structure : Context → Memory → Queued → ℕ → State → Outcome (Bool × State)
unfolding hashtable_add_req timeline_add_req
add_to_structure ctx mem req hash s =
    if ctx.needs_hashtable
    then hashtable_add_req ctx mem req hash s
    else timeline_add_req ctx mem req hash s

-- What follows the insertion. A request that was not inserted has no `globalinfo`, through which the
-- code then writes.
unfoldable pub finish_add :
    Context → Dispatch → Request → ℕ → Bool × State → Outcome (Bool × List Callback × State)
unfolding count_request give_back
finish_add ctx env req hash (false, s) = fault
finish_add ctx env req hash (true, s) =
    let s' : State = count_request ctx req hash s in
    if ctx.current_alg == noop_scheduler
    then (do r ← give_back env (simple req) hash s'; ok (true, r.0, r.1))
    else ok (true, [], s')

-- The result, the calls of the user's functions and the state.
unfoldable pub agios_add_request :
    Context → Memory → Dispatch → Fields → State → Outcome (Bool × List Callback × State)
unfolding request_constructor add_to_structure finish_add get_hashtable_position
agios_add_request ctx mem env f s =
    let hash : ℕ = get_hashtable_position f.file_id in
    elim (request_constructor mem.request mem.request_id s.g_last_timestamp f) [
      | none ↦ ok (false, [], s)
      | some (req, g) ↦ do
        r ← add_to_structure ctx mem (simple req) hash (record s { g_last_timestamp = g })
        finish_add ctx env req hash r
    ]
