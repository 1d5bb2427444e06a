-- ===== src/AgiosThread.antt =====
-- The decisions of the AGIOS thread (src/agios_thread.c): when to change the algorithm and how long to
-- sleep. The selection of the next algorithm, sleeping and waking up are not modelled.
use agios.Common.{
  ℕ, ◌-◌, ◌%◌, ◌^◌, ltb, ◌≡◌, List, [], ◌∷◌, Option, none, some, Bool, true, false, if◌then◌else◌,
  inl, inr, Bool-cases, All, arith,
}
use agios.Common.Int.{ℤ, pos, negsuc, ◌-ℤ◌, ◌≤ℤ◌, ltb_ℤ}
use agios.CommonFunctions.{agios_min}

-- The conversion of a 64-bit value to `int32_t`.
abbrev wrapped : ℕ → ℤ
wrapped w = if ltb w (2 ^ 31) then pos w else negsuc (2 ^ 32 - w - 1)

abbrev int32_of : ℤ → ℤ
int32_of (pos n) = wrapped (n % 2 ^ 32)
int32_of (negsuc n) = wrapped (2 ^ 32 - 1 - n % 2 ^ 32)

-- The scheduler that the configuration names, and what else the thread reads of it.
pub record ThreadConfig : Type 0 where
  pub is_dynamic : Bool
  pub config_agios_select_algorithm_period : ℤ
  pub config_agios_select_algorithm_min_reqnumber : ℤ
  pub config_waiting_time : ℤ

-- What a round of the thread finds: the counter of processed requests, the time since the last change
-- (where it is read to decide, and to see what remains), the counter of requests, and what the
-- scheduler returns.
pub record ThreadRound : Type 0 where
  pub agios_processed_reqnb : ℤ
  pub elapsed : ℤ
  pub elapsed_later : ℤ
  pub current_reqnb : ℤ
  pub schedule : ℤ

unfoldable pub is_time_to_change_scheduler : ThreadConfig → ThreadRound → Bool
is_time_to_change_scheduler c r =
    if c.is_dynamic
    then (if ltb_ℤ c.config_agios_select_algorithm_period (pos 0)
        then false
        else if ltb_ℤ r.agios_processed_reqnb c.config_agios_select_algorithm_min_reqnumber
        then false
        else if ltb_ℤ r.elapsed c.config_agios_select_algorithm_period
        then false
        else true)
    else false

abbrev not_negative : ℤ → ℤ
not_negative n = if ltb_ℤ n (pos 0) then pos 0 else n

-- `remaining_time` after the first part of a round; only a dynamic scheduler changes it.
unfoldable pub next_remaining_time : ThreadConfig → ThreadRound → (remaining_time : ℤ) → ℤ
unfolding is_time_to_change_scheduler
next_remaining_time c r remaining =
    if c.is_dynamic
    then (if is_time_to_change_scheduler c r
        then int32_of c.config_agios_select_algorithm_period
        else not_negative (int32_of (c.config_agios_select_algorithm_period -ℤ r.elapsed_later)))
    else remaining

-- The timeout of a round in nanoseconds, if the thread sleeps.
unfoldable pub timeout_of : ThreadConfig → ThreadRound → (remaining_time : ℤ) → Option ℤ
timeout_of c r remaining =
    let waiting : ℤ = int32_of r.schedule in
    if ltb_ℤ (pos 0) r.current_reqnb
    then (if ltb_ℤ (pos 0) waiting
        then some (if ltb_ℤ remaining (pos 0) then waiting else agios_min waiting remaining)
        else none)
    else some (
        if ltb_ℤ (pos 0) remaining
        then agios_min c.config_waiting_time remaining
        else c.config_waiting_time)

-- The timeouts of the loop.
unfoldable pub thread_loop :
    ThreadConfig → List ThreadRound → (remaining_time : ℤ) → List (Option ℤ)
unfolding next_remaining_time timeout_of
thread_loop c [] remaining = []
thread_loop c (r ∷ rs) remaining =
    let remaining' : ℤ = next_remaining_time c r remaining in
    timeout_of c r remaining' ∷ thread_loop c rs remaining'

unfoldable pub agios_thread : ThreadConfig → List ThreadRound → List (Option ℤ)
unfolding thread_loop
agios_thread c rounds = thread_loop c rounds (pos 1)

-- At most one nanosecond, or no sleep at all.
abbrev pub IsShort : Option ℤ → Type 0
IsShort none = Unit
IsShort (some t) = t ≤ℤ pos 1

agios_min-le : (t : ℤ) → agios_min t (pos 1) ≤ℤ pos 1
agios_min-le t = ground arith

timeout-IsShort : (c : ThreadConfig) (r : ThreadRound) → IsShort (timeout_of c r (pos 1))
unfolding timeout_of
timeout-IsShort c r = elim (Bool-cases (ltb_ℤ (pos 0) r.current_reqnb)) [
  | inl busy ↦ elim (Bool-cases (ltb_ℤ (pos 0) (int32_of r.schedule))) [
    | inl waits ↦ rw (timeout_of, busy, waits) (agios_min-le (int32_of r.schedule))
    | inr goes ↦ rw (timeout_of, busy, goes) tt
  ]
  | inr idle ↦ rw (timeout_of, idle) (agios_min-le c.config_waiting_time)
]

-- With a scheduler that is not dynamic, `remaining_time` keeps its first value, so no timeout of the
-- thread is longer than a nanosecond, whatever the scheduler and the configuration ask for.
pub agios_thread-IsShort :
    (c : ThreadConfig) (rounds : List ThreadRound)
    → c.is_dynamic ≡ false
    → All IsShort (agios_thread c rounds)
unfolding agios_thread thread_loop next_remaining_time
agios_thread-IsShort c [] static = tt
agios_thread-IsShort c (r ∷ rs) static =
    rw static (timeout-IsShort c r, agios_thread-IsShort c rs static)
