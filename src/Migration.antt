-- ===== src/Migration.antt =====
-- The migration of requests between the hash table and the timeline (src/data_structures.c), and the
-- change of the scheduling algorithm (`change_selected_alg` of src/scheduling_algorithms.c). All
-- locks are held meanwhile. The parts of a virtual request are simple requests.
pub mod ToTimeline
pub mod ToTable
pub mod Ordered
use agios.Common.{
  ℕ, List, [], ◌∷◌, Option, none, some, Bool, true, false, ◌&&◌, ◌||◌, not, ltb, leb, ◌==◌,
  if◌then◌else◌,
}
use agios.Common.Int.{ℤ, pos}
use agios.Request.{Request, Queued, File, simple}
use agios.Hash.{get_hashtable_position}
use agios.State.{State, Outcome, ok, fault, ◌>>=◌, Context}
use agios.Schedulers.{
  Scheduler, InitFunction, initialize_scheduler, noop_scheduler, sw_scheduler, twins_scheduler,
}
use agios.Hashtable.{hashtable_move_req}
use agios.Timeline.{timeline_move_req, reorder_timeline}

-- A virtual request is broken into its parts if the new algorithm does not aggregate.
abbrev pub is_split : Context → Queued → Bool
is_split ctx req = ltb 1 req.reqnb && leb ctx.max_aggreg_size 1

unfoldable pub put_parts_in_timeline : Context → List Request → State → Outcome State
unfolding timeline_move_req
put_parts_in_timeline ctx [] s = ok s
put_parts_in_timeline ctx (r ∷ rs) s = do
  x ← timeline_move_req ctx (simple r) s
  put_parts_in_timeline ctx rs x.1

unfoldable pub put_this_request_in_timeline : Context → Queued → State → Outcome State
unfolding put_parts_in_timeline timeline_move_req
put_this_request_in_timeline ctx req s =
    if is_split ctx req
    then put_parts_in_timeline ctx req.reqs_list s
    else (do x ← timeline_move_req ctx req s; ok (x.1))

unfoldable pub put_all_requests_in_timeline : Context → List Queued → State → Outcome State
unfolding put_this_request_in_timeline
put_all_requests_in_timeline ctx [] s = ok s
put_all_requests_in_timeline ctx (q ∷ qs) s = do
  s' ← put_this_request_in_timeline ctx q s
  put_all_requests_in_timeline ctx qs s'

-- The file when all its requests have left it.
abbrev pub emptied : File → File
emptied f = record f {
  read_queue = record (f.read_queue) { list = [] };
  write_queue = record (f.write_queue) { list = [] };
}

unfoldable pub migrate_line : Context → List File → State → Outcome (List File × State)
unfolding put_all_requests_in_timeline
migrate_line ctx [] s = ok ([], s)
migrate_line ctx (f ∷ fs) s = do
  s1 ← put_all_requests_in_timeline ctx (f.read_queue).list s
  s2 ← put_all_requests_in_timeline ctx (f.write_queue).list s1
  r ← migrate_line ctx fs s2
  ok (emptied f ∷ r.0, r.1)

unfoldable pub migrate_lines :
    Context → List (List File) → State → Outcome (List (List File) × State)
unfolding migrate_line
migrate_lines ctx [] s = ok ([], s)
migrate_lines ctx (line ∷ lines) s = do
  r ← migrate_line ctx line s
  rs ← migrate_lines ctx lines r.1
  ok (r.0 ∷ rs.0, rs.1)

unfoldable pub migrate_from_hashtable_to_timeline : Context → State → Outcome State
unfolding migrate_lines
migrate_from_hashtable_to_timeline ctx s = do
  r ← migrate_lines ctx s.hashlist s
  ok (record (r.1) { hashlist = r.0 })

unfoldable pub put_parts_in_hashtable : Context → List Request → State → Outcome State
unfolding hashtable_move_req
put_parts_in_hashtable ctx [] s = ok s
put_parts_in_hashtable ctx (r ∷ rs) s = do
  s' ← hashtable_move_req ctx (simple r) (get_hashtable_position r.file_id) s
  put_parts_in_hashtable ctx rs s'

unfoldable pub put_req_in_hashtable : Context → Queued → State → Outcome State
unfolding put_parts_in_hashtable hashtable_move_req
put_req_in_hashtable ctx req s =
    if is_split ctx req
    then put_parts_in_hashtable ctx req.reqs_list s
    else hashtable_move_req ctx req (get_hashtable_position req.file_id) s

unfoldable pub put_all_requests_in_hashtable : Context → List Queued → State → Outcome State
unfolding put_req_in_hashtable
put_all_requests_in_hashtable ctx [] s = ok s
put_all_requests_in_hashtable ctx (q ∷ qs) s = do
  s' ← put_req_in_hashtable ctx q s
  put_all_requests_in_hashtable ctx qs s'

unfoldable pub migrate_from_timeline_to_hashtable : Context → State → Outcome State
unfolding put_all_requests_in_hashtable
migrate_from_timeline_to_hashtable ctx s = do
  s' ← put_all_requests_in_hashtable ctx s.timeline s
  ok (record s' { timeline = [] })

-- `current_alg` and `current_scheduler` afterwards.
abbrev pub selected : ℕ → Scheduler → Context → Context
selected new_alg scheduler ctx = record ctx {
  current_alg = new_alg;
  max_aggreg_size = scheduler.max_aggreg_size;
  needs_hashtable = scheduler.needs_hashtable;
}

-- Whether a change between two algorithms that use the timeline orders it anew.
abbrev pub needs_reorder : (previous_alg current_alg : ℕ) → Bool
needs_reorder previous current =
    not (current == noop_scheduler)
    && (previous == sw_scheduler
        || (current == sw_scheduler || (current == twins_scheduler || previous == twins_scheduler)))

unfoldable pub migrate : (previous current : Context) → State → Outcome State
unfolding migrate_from_hashtable_to_timeline migrate_from_timeline_to_hashtable reorder_timeline
migrate previous current s =
    if current.needs_hashtable && previous.needs_hashtable
    then ok s
    else if previous.needs_hashtable && not current.needs_hashtable
    then migrate_from_hashtable_to_timeline current s
    else if not previous.needs_hashtable && current.needs_hashtable
    then migrate_from_timeline_to_hashtable current s
    else if needs_reorder previous.current_alg current.current_alg
    then reorder_timeline current s
    else ok s

abbrev pub with_context : Context → Outcome State → Outcome (Context × State)
with_context ctx fault = fault
with_context ctx (ok s) = ok (ctx, s)

-- An algorithm that cannot be initialized leaves `current_scheduler` NULL, which is read next.
unfoldable pub change_selected_alg :
    List Scheduler
    → (runs : InitFunction → Bool) → (new_alg : ℕ) → Context
    → State
    → Outcome (Context × State)
unfolding initialize_scheduler migrate
change_selected_alg table runs new_alg ctx s =
    if ctx.current_alg == new_alg
    then ok (ctx, s)
    else elim (initialize_scheduler table runs (pos new_alg)) [
      | none ↦ fault
      | some scheduler ↦
          with_context (selected new_alg scheduler ctx)
            (migrate ctx (selected new_alg scheduler ctx) s)
    ]
