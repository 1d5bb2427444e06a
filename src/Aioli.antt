-- ===== src/Aioli.antt =====
-- The choice of a queue by aIOLi, and its quanta: `aIOLi_select_from_list`, `aIOLi_select_from_file`,
-- `aIOLi_select_queue` and `adjust_quantum` (src/aIOLi.c).
pub mod Quantum
pub mod Rounds
pub mod Serve
pub mod Turn
use agios.Common.{
  ℕ, zero, suc, ◌+◌, ◌*◌, ◌/◌, ◌^◌, ◌-◌, List, [], ◌∷◌, Option, none, some, Bool, true, false, ltb,
  leb, ◌==◌, if◌then◌else◌,
}
use agios.Request.{FileId, Queued, Queue, File, Timespec, RequestType, rt_read, rt_write}
use agios.Lines.{lookup_file, queue_of, update_queue, update_file}
use agios.Schedulers.{max_aggreg_size_default}
use agios.Common.Int.{to_int32, pos_part}
use agios.Waiting.{
  within_quanta, increment_sched_factor, update_waiting_time_counters, check_selection,
}
use agios.State.{State, Outcome, ok, fault, ◌>>=◌, row, change_file}

-- Only the first request can be selected, but all factors are incremented.
unfoldable pub increment_all : List Queued → List Queued
unfolding increment_sched_factor
increment_all [] = []
increment_all (req ∷ rest) = increment_sched_factor req ∷ increment_all rest

abbrev pub selected_first : (config_aioli_quantum : ℕ) → List Queued → Option ℕ
selected_first quantum [] = none
selected_first quantum (req ∷ rest) =
    if within_quanta req.len req.sched_factor quantum then some req.timestamp else none

-- The queue, and the timestamp of its first request if that can be selected.
unfoldable pub aioli_select_from_list : (config_aioli_quantum : ℕ) → Queue → Queue × Option ℕ
unfolding increment_all to_int32
aioli_select_from_list quantum queue =
    let reqs : List Queued = increment_all queue.list in
    (record queue { list = reqs }, selected_first quantum reqs)

-- The queue that is selected, by its type, and the timestamp.
abbrev pub Candidate : Type 0
Candidate = Option (RequestType × ℕ)

unfoldable pub aioli_on_queue : (config_aioli_quantum : ℕ) → RequestType → File → File × Candidate
unfolding aioli_select_from_list
aioli_on_queue quantum type f =
    let r = aioli_select_from_list quantum (queue_of type f) in
    (update_queue type (λ q. r.0) f, elim r.1 [ none ↦ none | some t ↦ some (type, t) ])

-- The read queue goes first.
unfoldable pub aioli_select_from_file : (config_aioli_quantum : ℕ) → File → File × Candidate
unfolding aioli_on_queue
aioli_select_from_file quantum f =
    let r = aioli_on_queue quantum rt_read f in
    elim r.1 [ none ↦ aioli_on_queue quantum rt_write r.0 | some c ↦ (r.0, some c) ]

-- The share of the quantum that was used, and what the queue is believed to need. The product is an
-- `int32_t`; a negative share counts as none, as in the tests.
abbrev pub required_quantum : (used_quantum quantum : ℕ) → ℕ
required_quantum used quantum =
    let rate : ℕ = pos_part (to_int32 (used * 100)) / quantum in
    if leb 175 rate
    then quantum * 2
    else if leb 125 rate
    then quantum * 15 / 10
    else if leb 75 rate
    then quantum
    else quantum / 2

-- The quantum is not 0 where this is called.
unfoldable pub adjust_quantum : (config_aioli_quantum used_quantum quantum : ℕ) → ℕ
unfolding to_int32
adjust_quantum config used quantum =
    let required : ℕ = required_quantum used quantum in
    if required == 0
    then config
    else if ltb max_aggreg_size_default required
    then max_aggreg_size_default
    else required

-- The variables of the search over the table. A selected queue is its line, its file and its type.
pub record Search : Type 0 where
  pub shortest_waiting_time : ℕ
  pub selected_timestamp : ℕ
  pub selected_queue : Option (ℕ × FileId × RequestType)
  pub waiting_options : ℕ

-- A file that is not waiting is a candidate if it is first in time so far.
unfoldable pub aioli_consider : (config_aioli_quantum i : ℕ) → File → Search → File × Search
unfolding aioli_select_from_file
aioli_consider quantum i f sel =
    let r = aioli_select_from_file quantum f in
    elim r.1 [
      | none ↦ (r.0, sel)
      | some c ↦ (
        r.0,
        if ltb (c.1) sel.selected_timestamp
            then record sel { selected_timestamp = c.1; selected_queue = some (i, f.file_id, c.0) }
            else sel,
      )
    ]

abbrev still_waiting : (config_aioli_quantum i : ℕ) → File → Search → File × Search
still_waiting quantum i f sel =
    if f.waiting_time == 0
    then aioli_consider quantum i f sel
    else (f, record sel { waiting_options = sel.waiting_options + 1 })

-- A file of a line: one that still waits is counted.
unfoldable pub aioli_file :
    (config_aioli_quantum : ℕ)
    → (now : Timespec) → (i : ℕ) → File
    → Search
    → Outcome (File × Search)
unfolding aioli_consider update_waiting_time_counters
aioli_file quantum now i f sel =
    if f.waiting_time == 0 then ok (aioli_consider quantum i f sel) else (do
      r ← update_waiting_time_counters now f sel.shortest_waiting_time
      ok (still_waiting quantum i (r.0) (record sel { shortest_waiting_time = r.1 })))

-- The files of a line, from the first.
unfoldable pub aioli_line :
    (config_aioli_quantum : ℕ)
    → (now : Timespec) → (i : ℕ) → List File
    → Search
    → Outcome (List File × Search)
unfolding aioli_file
aioli_line quantum now i [] sel = ok ([], sel)
aioli_line quantum now i (f ∷ fs) sel = do
  r ← aioli_file quantum now i f sel
  rs ← aioli_line quantum now i fs r.1
  ok (r.0 ∷ rs.0, rs.1)

-- The lines of the table, from line `i`.
unfoldable pub aioli_table :
    (config_aioli_quantum : ℕ)
    → (now : Timespec) → (i : ℕ) → List (List File)
    → Search
    → Outcome (List (List File) × Search)
unfolding aioli_line
aioli_table quantum now i [] sel = ok ([], sel)
aioli_table quantum now i (line ∷ lines) sel = do
  r ← aioli_line quantum now i line sel
  rs ← aioli_table quantum now (i + 1) lines r.1
  ok (r.0 ∷ rs.0, rs.1)

abbrev pub start_search : Search
start_search = record {
  shortest_waiting_time = 2 ^ 31 - 1;
  selected_timestamp = 2 ^ 31 - 1;
  selected_queue = none;
  waiting_options = 0;
}

-- What `aIOLi_select_queue` returns and leaves in `*sleeping_time`.
pub record Choice : Type 0 where
  pub queue : Option (ℕ × FileId × RequestType)
  pub sleeping_time : ℕ

-- The file of the selected queue may have to wait, and then another queue is looked for.
abbrev check_first :
    (config_waiting_time : ℕ)
    → Timespec
    → ℕ × FileId × RequestType
    → ℕ
    → List Queued
    → File
    → State
    → Outcome (Choice × State)
check_first waiting now chosen sleeping [] f s = fault
check_first waiting now chosen sleeping (req ∷ rest) f s =
    let c = check_selection waiting now req f in
    ok (
      (if c.0
          then record { queue = some chosen; sleeping_time = sleeping }
          else record { queue = none; sleeping_time = 0 }),
      change_file (chosen.0) (chosen.1) (λ f. c.1) s,
    )

abbrev check_chosen :
    (config_waiting_time : ℕ)
    → Timespec
    → ℕ × FileId × RequestType
    → ℕ
    → Option File
    → State
    → Outcome (Choice × State)
check_chosen waiting now chosen sleeping none s = fault
check_chosen waiting now chosen sleeping (some f) s =
    check_first waiting now chosen sleeping (queue_of (chosen.2) f).list f s

-- `sleeping_time` is what the caller's variable holds before the call.
unfoldable pub aioli_select_queue :
    (config_aioli_quantum config_waiting_time : ℕ)
    → (now : Timespec) → (sleeping_time : ℕ) → State
    → Outcome (Choice × State)
unfolding aioli_table lookup_file check_selection update_file
aioli_select_queue quantum waiting now sleeping s = do
  r ← aioli_table quantum now 0 s.hashlist start_search
  let s' : State = record s { hashlist = r.0 } in
      elim ((r.1).selected_queue) [
        | some chosen ↦
            check_chosen waiting now chosen sleeping
              (lookup_file (chosen.1) (row s'.hashlist (chosen.0))) s'
        | none ↦ ok (
          record {
            queue = none;
            sleeping_time =
                if (r.1).waiting_options == 0 then sleeping else (r.1).shortest_waiting_time;
          },
          s',
        )
      ]
