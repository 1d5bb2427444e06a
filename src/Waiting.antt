-- ===== src/Waiting.antt =====
-- What MLF and aIOLi share: src/waiting_common.c. The clock is read by the caller, which passes on
-- what it shows.
pub mod Steps
pub mod Serve
use agios.Common.{
  ℕ, zero, ◌+◌, ◌*◌, ◌%◌, ◌^◌, List, [], ◌∷◌, ◌++◌, Option, none, some, Bool, true, false, ◌&&◌,
  not, ltb, ◌==◌, if◌then◌else◌,
}
use agios.Common.Int.{ℤ, pos, ◌-ℤ◌, pos_part, ltb_ℤ, to_int32}
use agios.Request.{Request, Queued, Queue, File, Timespec}
use agios.CommonFunctions.{get_nanoelapsed}
use agios.Lines.{queue_of, update_queue}
use agios.State.{State, Outcome, ok, fault, ◌>>=◌, change_queue}
use agios.Process.{ProcessingInfo, Callback, process_requests_step2, generic_post_process}

-- A file that has waited long enough waits no longer.
abbrev pub wait_less : (elapsed : ℤ) → File → (shortest_waiting_time : ℕ) → File × ℕ
wait_less elapsed f shortest =
    if ltb_ℤ elapsed (pos f.waiting_time)
    then (let left : ℕ = pos_part (pos f.waiting_time -ℤ elapsed) in
        (record f { waiting_time = left }, if ltb left shortest then left else shortest))
    else (record f { waiting_time = 0 }, shortest)

abbrev pub wait_since : Option Timespec → (now : Timespec) → File → ℕ → Outcome (File × ℕ)
wait_since none now f shortest = fault
wait_since (some start) now f shortest = ok (wait_less (get_nanoelapsed now start) f shortest)

-- The file and `*shortest_waiting_time` after the call. `waiting_start` must have been set.
unfoldable pub update_waiting_time_counters : (now : Timespec) → File → ℕ → Outcome (File × ℕ)
unfolding get_nanoelapsed
update_waiting_time_counters now f shortest = wait_since f.waiting_start now f shortest

abbrev wait_for : (config_waiting_time : ℕ) → File → File
wait_for config f = record f { waiting_time = config }

-- The two phenomena that make a file wait, each of which is forgotten once it was seen.
abbrev pub detect : (config_waiting_time : ℕ) → Queued → File → File
detect config req f =
    let q : Queue = queue_of req.type f in
    if not (q.predictedoff == 0)
    then update_queue req.type (λ q. record q { predictedoff = 0 })
        (if ltb q.predictedoff req.offset then wait_for config f else f)
    else if ltb q.lastfinaloff req.offset && ltb req.reqnb q.lastaggregation
    then update_queue req.type (λ q. record q { lastaggregation = 0 }) (wait_for config f)
    else f

-- Whether the request can proceed, and its file.
unfoldable pub check_selection :
    (config_waiting_time : ℕ) → (now : Timespec) → Queued → File → Bool × File
check_selection config now req f =
    let f' : File = detect config req f in
    if f'.waiting_time == 0 then (true, f') else (false, record f' { waiting_start = some now })

-- `sched_factor` holds the 32 bits of the factor, which the shift can lose.
abbrev pub next_factor : ℕ → ℕ
next_factor factor = if factor == 0 then 1 else factor * 2 % 2 ^ 32

-- A request of `len` bytes fits `factor` quanta; the product is an `int32_t`.
abbrev pub within_quanta : (len factor quantum : ℕ) → Bool
within_quanta len factor quantum = not (ltb_ℤ (to_int32 (factor * quantum)) (pos len))

unfoldable pub increment_sched_factor : Queued → Queued
increment_sched_factor req = record req {
  head = record (req.head) { sched_factor = next_factor req.sched_factor };
}

unfoldable pub waiting_algorithms_postprocess : Queued → ℕ → State → State
unfolding generic_post_process
waiting_algorithms_postprocess req hash s = generic_post_process req hash (
    change_queue hash req.file_id req.type
      (λ q. record q {
        lastfinaloff = req.offset + req.len;
        predictedoff =
            if ltb req.offset q.laststartoff && q.predictedoff == 0
            then req.offset + req.len
            else q.predictedoff;
        laststartoff = req.offset;
      })
      s)

-- The loop of `call_step2_for_info_list`. Each structure comes with what
-- `is_time_to_change_scheduler` says at the end of its step 2; `ret` is the result so far.
unfoldable pub step2_loop :
    (has_list_callback ret : Bool) → List (ProcessingInfo × Bool) → Outcome (List Callback × Bool)
unfolding process_requests_step2
step2_loop has_list_callback ret [] = ok ([], ret)
step2_loop has_list_callback true (i ∷ rest) = step2_loop has_list_callback true rest
step2_loop has_list_callback false (i ∷ rest) = do
  cs ← process_requests_step2 has_list_callback i.0
  r ← step2_loop has_list_callback i.1 rest
  ok (cs ++ r.0, r.1)

unfoldable pub call_step2_for_info_list :
    (has_list_callback : Bool) → List (ProcessingInfo × Bool) → Outcome (List Callback × Bool)
unfolding step2_loop
call_step2_for_info_list has_list_callback infos = step2_loop has_list_callback false infos
