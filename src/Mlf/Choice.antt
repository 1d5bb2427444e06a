-- ===== src/Mlf/Choice.antt =====
-- What `applyMLFonlist` (src/MLF.c) selects, and that it selects every request in the end.
use agios.Common.{
  ℕ, zero, suc, ◌*◌, ◌^◌, ◌≤◌, ◌≡◌, ◌<◌, ◌==◌, ap, sym, ◌∙◌, refl, inl, inr, List, [], ◌∷◌, map,
  Option, none, some, true, false, arith, if◌then◌else◌, Bool-cases,
}
use agios.Request.{Queued, Queue}
use agios.Common.Int.{to_int32-small}
use agios.Waiting.{increment_sched_factor, next_factor}
use agios.Mlf.{fits_quantum, later, mlf_loop, apply_mlf_on_list}

-- The position of the first request that fits its quantum.
unfoldable pub first_fitting : (quantum : ℕ) → List Queued → Option ℕ
first_fitting quantum [] = none
first_fitting quantum (q ∷ qs) =
    if fits_quantum quantum q then some 0 else later (first_fitting quantum qs)

mlf_loop-found :
    (quantum : ℕ) (qs : List Queued)
    → mlf_loop quantum true qs ≡ (map increment_sched_factor qs, none)
unfolding mlf_loop
mlf_loop-found quantum [] = refl
mlf_loop-found quantum (q ∷ qs) = rw (mlf_loop-found quantum qs) refl

mlf_loop-eq :
    (quantum : ℕ) (qs : List Queued)
    → mlf_loop quantum false qs
      ≡ (map increment_sched_factor qs, first_fitting quantum (map increment_sched_factor qs))
unfolding mlf_loop first_fitting
mlf_loop-eq quantum [] = refl
mlf_loop-eq quantum (q ∷ qs) = elim (Bool-cases (fits_quantum quantum (increment_sched_factor q))) [
  | inl fits ↦ rw (fits, mlf_loop-found quantum qs) refl
  | inr misses ↦ rw (misses, mlf_loop-eq quantum qs) refl
]

-- The one loop of `applyMLFonlist`, which stops to select and goes on incrementing, increments the
-- factor of every request of the queue once, and selects the first request of the queue whose
-- incremented quantum, as an `int32_t`, is large enough for it, if there is one.
pub apply_mlf_on_list_lem :
    (quantum : ℕ) (q : Queue)
    → apply_mlf_on_list quantum q ≡ (
      record q { list = map increment_sched_factor q.list },
      first_fitting quantum (map increment_sched_factor q.list),
    )
unfolding apply_mlf_on_list
apply_mlf_on_list_lem quantum q = rw (mlf_loop-eq quantum q.list) refl

-- `n` visits.
unfoldable pub visited : ℕ → Queued → Queued
visited zero q = q
visited (suc n) q = increment_sched_factor (visited n q)

visited-len : (n : ℕ) (q : Queued) → (visited n q).len ≡ q.len
unfolding visited increment_sched_factor
visited-len zero q = refl
visited-len (suc n) q = visited-len n q

-- The factor after the first visit.
abbrev pub first_factor : ℕ → ℕ
first_factor factor = if factor == 0 then 1 else factor * 2

next_factor-eq : (f : ℕ) → 1 ≤ f → f * 2 < 2 ^ 32 → next_factor f ≡ f * 2
next_factor-eq f h k = ground arith

power-suc : (m n : ℕ) → m * 2 ^ suc n ≡ m * 2 ^ n * 2
power-suc m n = grind arith

first_factor-pos : (f n : ℕ) → 1 ≤ first_factor f * 2 ^ n
first_factor-pos f zero = ground arith
first_factor-pos f (suc n) = omega (arith, power-suc (first_factor f) n, first_factor-pos f n)

visited-factor :
    (n : ℕ) (q : Queued)
    → first_factor q.sched_factor * 2 ^ n < 2 ^ 32
    → (visited (suc n) q).sched_factor ≡ first_factor q.sched_factor * 2 ^ n
unfolding visited increment_sched_factor
visited-factor zero q h = ground arith
visited-factor (suc n) q h =
    let twice = power-suc (first_factor q.sched_factor) n in
    ap next_factor (visited-factor n q (omega (arith, twice)))
    ∙ next_factor-eq (first_factor q.sched_factor * 2 ^ n) (first_factor-pos q.sched_factor n)
        (omega (arith, twice))
    ∙ sym twice

-- A request fits its quantum once its factor was incremented often enough: a request of at most `m`
-- quanta fits after `n + 1` increments, where `m` is 2 ^ n if the factor was 0, and 2 ^ (n + 1) times
-- the factor if not, provided that `m` and the bytes of `m` quanta are below 2 ^ 31, so that neither
-- overflows.
pub fits_quantum-visited :
    (quantum n : ℕ) (q : Queued)
    → first_factor q.sched_factor * 2 ^ n < 2 ^ 31
    → first_factor q.sched_factor * 2 ^ n * quantum < 2 ^ 31
    → q.len ≤ first_factor q.sched_factor * 2 ^ n * quantum
    → fits_quantum quantum (visited (suc n) q) ≡ true
unfolding fits_quantum
fits_quantum-visited quantum n q small bound h =
    let factor = visited-factor n q (omega arith) in
    rw (factor, visited-len (suc n) q, to_int32-small _ bound) (ground arith)
