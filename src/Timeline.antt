-- ===== src/Timeline.antt =====
-- The timeline: src/req_timeline.c. Its mutex is not modelled here: an operation is a critical
-- section.
pub mod Places
use agios.Common.{
  ℕ, zero, suc, ◌+◌, ◌-◌, ◌*◌, ◌/◌, ◌%◌, ◌^◌, List, [], ◌∷◌, ◌++◌, Option, none, some, Bool, true,
  false, ◌&&◌, ◌||◌, not, ltb, leb, ◌==◌, if◌then◌else◌, get_elem?,
}
use agios.Common.Int.{ℤ, to_int32, ltb_ℤ}
use agios.Common.Text.{same_string}
use agios.Request.{FileId, Request, RequestType, rt_read, rt_write, Queued}
use agios.Aggregation.{check_aggregate, include_in_aggregation}
use agios.Schedulers.{toagg_scheduler, sw_scheduler, noop_scheduler, twins_scheduler, wfq_scheduler}
use agios.Hash.{get_hashtable_position}
use agios.Hashtable.{enter_file, replicate}
use agios.State.{State, Outcome, ok, fault, ◌>>=◌, Memory, Context, change_at}

-- The priority that SW computes for a request.
unfoldable pub sw_priority_of : (config_sw_size : ℕ) → Request → ℤ
unfolding to_int32
sw_priority_of size req = to_int32 (req.arrival_time / size * 32768 + req.queue_id)

abbrev pub consed : Queued → Outcome (List Queued) → Outcome (List Queued)
consed q fault = fault
consed q (ok qs) = ok (q ∷ qs)

-- SW looks for the first request with a higher `sw_priority`, which must have been set.
unfoldable pub sw_insert : ℤ → Queued → List Queued → Outcome (List Queued)
sw_insert priority req [] = ok (req ∷ [])
sw_insert priority req (tmp ∷ rest) = elim (tmp.sw_priority) [
  | none ↦ fault
  | some p ↦
      let further = sw_insert priority req rest in
      if ltb_ℤ priority p then ok (req ∷ tmp ∷ rest) else consed tmp further
]

abbrev pub same_type : RequestType → RequestType → Bool
same_type rt_read rt_read = true
same_type rt_write rt_write = true
same_type rt_read rt_write = false
same_type rt_write rt_read = false

-- Equal `globalinfo`: the same file and the same type.
abbrev pub same_globalinfo : Request → Request → Bool
same_globalinfo a b = same_string a.file_id b.file_id && same_type a.type b.type

-- The tests of TO-agg on a request of the queue.
abbrev pub takes : (max_aggreg_size : ℕ) → (req tmp : Queued) → Bool
takes max req tmp =
    same_globalinfo tmp.head req.head
    && (ltb tmp.reqnb max && (check_aggregate req tmp || check_aggregate tmp req))

abbrev pub kept_first : Queued → Option (List Queued × ℕ) → Option (List Queued × ℕ)
kept_first q none = none
kept_first q (some (qs, g)) = some (q ∷ qs, g)

-- TO-agg aggregates the request with the first one of the queue that takes it, if there is one.
unfoldable pub toagg_join : ℕ → ℕ → Queued → List Queued → Option (List Queued × ℕ)
unfolding include_in_aggregation
toagg_join max g req [] = none
toagg_join max g req (tmp ∷ rest) = elim (takes max req tmp) [
  | true ↦
      some (
        (include_in_aggregation g req.head tmp).0 ∷ rest,
        (include_in_aggregation g req.head tmp).1,
      )
  | false ↦ kept_first tmp (toagg_join max g req rest)
]

-- A queue that is rebuilt is ordered by `timestamp`.
unfoldable pub by_timestamp : Queued → List Queued → List Queued
by_timestamp req [] = req ∷ []
by_timestamp req (tmp ∷ rest) =
    if ltb req.timestamp tmp.timestamp then req ∷ tmp ∷ rest else tmp ∷ by_timestamp req rest

-- The end of `__timeline_add_req`, for a request that was not aggregated. `given` says that the file
-- was given, as in a migration.
abbrev pub place_single : Context → (given : Bool) → Queued → List Queued → List Queued
place_single ctx given req queue =
    if not given || ctx.current_alg == noop_scheduler
    then queue ++ req ∷ []
    else by_timestamp req queue

-- What TO-agg makes of the search; a virtual request inside another one is not modelled.
abbrev pub aggregated_or :
    Queued → Option (List Queued × ℕ) → List Queued × ℕ → Outcome (List Queued × ℕ)
aggregated_or req none other = ok other
aggregated_or req (some found) other = if req.reqnb == 1 then ok found else fault

abbrev with_counter : ℕ → Outcome (List Queued) → Outcome (List Queued × ℕ)
with_counter g fault = fault
with_counter g (ok qs) = ok (qs, g)

-- The place of a request in `this_timeline`, where `timeline_enter` below has not put it elsewhere or
-- left it out: the queue and `g_last_timestamp` afterwards.
unfoldable pub timeline_place :
    Context → (given : Bool) → ℕ → Queued → List Queued → Outcome (List Queued × ℕ)
unfolding sw_insert toagg_join by_timestamp sw_priority_of
timeline_place ctx given g req queue =
    if ctx.current_alg == sw_scheduler
    then (if ctx.config_sw_size == 0
        then fault
        else with_counter g (sw_insert (sw_priority_of ctx.config_sw_size req.head) req queue))
    else (if ctx.current_alg == toagg_scheduler && ltb 1 ctx.max_aggreg_size
        then aggregated_or req (toagg_join ctx.max_aggreg_size g req queue)
            (place_single ctx given req queue, g)
        else ok (place_single ctx given req queue, g))

abbrev pub uses_multi_timeline : Context → Bool
uses_multi_timeline ctx = ctx.current_alg == twins_scheduler || ctx.current_alg == wfq_scheduler

-- `agios_list_add_tail(&req->related, &(multi_timeline[req->queue_id]))`.
unfoldable pub multi_timeline_add : Queued → State → Outcome State
multi_timeline_add req s = elim (get_elem? s.multi_timeline req.queue_id) [
  | none ↦ fault
  | some q ↦
      ok
        (record s { multi_timeline = change_at (λ q. q ++ req ∷ []) s.multi_timeline req.queue_id })
]

-- A new request of NOOP is in no queue.
abbrev pub left_out : Context → (given : Bool) → Bool
left_out ctx given = not given && ctx.current_alg == noop_scheduler

-- `__timeline_add_req` from where the file is known: the queue `this_timeline` and the state.
unfoldable pub timeline_enter :
    Context → (given : Bool) → Queued → List Queued → State → Outcome (List Queued × State)
unfolding timeline_place multi_timeline_add
timeline_enter ctx given req this_timeline s =
    if left_out ctx given
    then ok (this_timeline, s)
    else if uses_multi_timeline ctx
    then (do s' ← multi_timeline_add req s; ok (this_timeline, s'))
    else (do
      r ← timeline_place ctx given s.g_last_timestamp req this_timeline
      ok (r.0, record s { g_last_timestamp = r.1 }))

abbrev write_timeline : Outcome (List Queued × State) → Outcome (Bool × State)
write_timeline fault = fault
write_timeline (ok (queue, s)) = ok (true, record s { timeline = queue })

-- `timeline_add_req` with no file given, as for a new request.
unfoldable pub timeline_add_req : Context → Memory → Queued → ℕ → State → Outcome (Bool × State)
unfolding enter_file timeline_enter
timeline_add_req ctx mem req hash s = elim (enter_file mem req.head hash s) [
  | none ↦ ok (false, s)
  | some s' ↦ write_timeline (timeline_enter ctx false req s'.timeline s')
]

-- `timeline_add_req` with the file given, as in a migration from the hash table.
unfoldable pub timeline_move_req : Context → Queued → State → Outcome (Bool × State)
unfolding timeline_enter
timeline_move_req ctx req s = write_timeline (timeline_enter ctx true req s.timeline s)

-- The loop of `reorder_timeline`: the requests of the old queue go to a new one.
unfoldable pub reorder_loop :
    Context → List Queued → List Queued → State → Outcome (List Queued × State)
unfolding timeline_enter
reorder_loop ctx [] new_timeline s = ok (new_timeline, s)
reorder_loop ctx (req ∷ rest) new_timeline s = do
  r ← timeline_enter ctx true req new_timeline s
  reorder_loop ctx rest r.0 r.1

abbrev splice : Outcome (List Queued × State) → Outcome State
splice fault = fault
splice (ok ([], s)) = fault
splice (ok (q ∷ qs, s)) = ok (record s { timeline = q ∷ qs })

-- `reorder_timeline`. Where the new queue is empty, `timeline.prev` is left pointing at the head of the
-- new list, which is freed: a fault.
unfoldable pub reorder_timeline : Context → State → Outcome State
unfolding reorder_loop
reorder_timeline ctx s = splice (reorder_loop ctx s.timeline [] s)

-- The oldest request, the line of its file, and the state without it.
unfoldable pub timeline_oldest_req : State → Option (Queued × ℕ × State)
timeline_oldest_req s = elim s.timeline [
  | [] ↦ none
  | tmp ∷ rest ↦ some (tmp, get_hashtable_position tmp.file_id, record s { timeline = rest })
]

-- `timeline_init`; `allocated` is the outcome of `malloc`.
unfoldable pub timeline_init : (allocated : Bool) → (max_queue_id : ℕ) → State → Bool × State
timeline_init allocated zero s = (true, record s { timeline = [] })
timeline_init false (suc n) s = (false, record s { timeline = [] })
timeline_init true (suc n) s =
    (true, record s { timeline = []; multi_timeline = replicate (suc n + 1) [] })
