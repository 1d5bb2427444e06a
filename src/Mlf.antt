-- ===== src/Mlf.antt =====
-- The choice of a request by MLF: `applyMLFonlist` and `MLF_select_request` (src/MLF.c). A pointer to a
-- request is its position in its queue.
pub mod Choice
pub mod Rounds
pub mod Visits
pub mod Taking
pub mod Line
pub mod Turn
use agios.Common.{
  ℕ, zero, suc, ◌+◌, ◌*◌, List, [], ◌∷◌, Option, none, some, Bool, true, false, leb, if◌then◌else◌,
}
use agios.Request.{Queued, Queue, File, Timespec, RequestType, rt_read, rt_write}
use agios.Lines.{queue_of, update_queue}
use agios.Common.Int.{to_int32}
use agios.Waiting.{increment_sched_factor, within_quanta, check_selection}

-- The quantum of a request whose factor was incremented is large enough for it.
unfoldable pub fits_quantum : (config_mlf_quantum : ℕ) → Queued → Bool
unfolding to_int32
fits_quantum quantum req = within_quanta req.len req.sched_factor quantum

abbrev pub later : Option ℕ → Option ℕ
later none = none
later (some i) = some (suc i)

-- The queue with all factors incremented, and the first request that fits its quantum. `found` is the
-- flag of the loop.
unfoldable pub mlf_loop :
    (config_mlf_quantum : ℕ) → (found : Bool) → List Queued → List Queued × Option ℕ
unfolding increment_sched_factor fits_quantum
mlf_loop quantum found [] = ([], none)
mlf_loop quantum true (req ∷ rest) =
    let r = mlf_loop quantum true rest in (increment_sched_factor req ∷ r.0, none)
mlf_loop quantum false (req ∷ rest) =
    let fits : Bool = fits_quantum quantum (increment_sched_factor req) in
    let r = mlf_loop quantum fits rest in
    (increment_sched_factor req ∷ r.0, if fits then some 0 else later r.1)

unfoldable pub apply_mlf_on_list : (config_mlf_quantum : ℕ) → Queue → Queue × Option ℕ
unfolding mlf_loop
apply_mlf_on_list quantum reqlist =
    let r = mlf_loop quantum false reqlist.list in (record reqlist { list = r.0 }, r.1)

-- The request that is selected: the queue and the position.
abbrev pub Selected : Type 0
Selected = Option (RequestType × ℕ)

-- The same on one queue of a file.
unfoldable pub mlf_on_file : (config_mlf_quantum : ℕ) → RequestType → File → File × Selected
unfolding apply_mlf_on_list
mlf_on_file quantum type f =
    let r = apply_mlf_on_list quantum (queue_of type f) in
    (update_queue type (λ q. r.0) f, elim r.1 [ none ↦ none | some i ↦ some (type, i) ])

-- The read queue goes first. An empty queue has nothing to select and is not changed.
unfoldable pub mlf_candidate : (config_mlf_quantum : ℕ) → File → File × Selected
unfolding mlf_on_file
mlf_candidate quantum f =
    let r = mlf_on_file quantum rt_read f in
    elim r.1 [ none ↦ mlf_on_file quantum rt_write r.0 | some chosen ↦ (r.0, some chosen) ]

unfoldable pub request_at : ℕ → List Queued → Option Queued
request_at i [] = none
request_at zero (q ∷ qs) = some q
request_at (suc i) (q ∷ qs) = request_at i qs

-- A selected request may have to wait.
unfoldable pub mlf_select_request :
    (config_mlf_quantum config_waiting_time : ℕ) → (now : Timespec) → File → File × Selected
unfolding mlf_candidate request_at check_selection
mlf_select_request quantum waiting now f =
    let r = mlf_candidate quantum f in
    elim r.1 [
      | none ↦ (r.0, none)
      | some chosen ↦ elim (request_at (chosen.1) (queue_of (chosen.0) r.0).list) [
        | none ↦ (r.0, none)
        | some req ↦
            let c = check_selection waiting now req r.0 in (c.1, if c.0 then some chosen else none)
      ]
    ]
