-- ===== src/CommonFunctions.antt =====
-- src/common_functions.c: times and running averages.
use agios.Common.{
  ℕ, suc, ◌+◌, ◌*◌, ◌/◌, ◌%◌, ◌≤◌, ◌<◌, ◌≡◌, arith, inl, inr, Bool-cases, if◌then◌else◌, ◌==◌,
}
use agios.Common.Int.{ℤ, pos, negsuc, ◌+ℤ◌, ◌-ℤ◌, ◌≤ℤ◌, ltb_ℤ, int_laws, ≤ℤ_total}
use agios.Request.{Timespec}

abbrev pub agios_min : ℤ → ℤ → ℤ
agios_min t1 t2 = if ltb_ℤ t1 t2 then t1 else t2

abbrev pub agios_max : ℤ → ℤ → ℤ
agios_max t1 t2 = if ltb_ℤ t2 t1 then t1 else t2

abbrev pub get_index_of_max_from_two : (count0 count1 : ℤ) → ℕ
get_index_of_max_from_two count0 count1 = if ltb_ℤ count0 count1 then 1 else 0

abbrev pub billion : ℕ
billion = 1_000_000_000

unfoldable pub get_timespec2long : Timespec → ℕ
get_timespec2long t = t.tv_sec * billion + t.tv_nsec

unfoldable pub get_long2timespec : ℕ → Timespec
get_long2timespec t = record { tv_sec = t / billion; tv_nsec = t % billion }

-- The clock is read by the caller, which passes on what it shows.
unfoldable pub get_nanoelapsed : (now t1 : Timespec) → ℤ
unfolding get_timespec2long
get_nanoelapsed t2 t1 = pos (get_timespec2long t2) -ℤ pos (get_timespec2long t1)

unfoldable pub get_nanoelapsed_long : (now : Timespec) → ℕ → ℤ
unfolding get_timespec2long
get_nanoelapsed_long t2 t1 = pos (get_timespec2long t2) -ℤ pos t1

-- C division by a positive number: towards zero.
abbrev pub quot : ℤ → ℕ → ℤ
quot (pos n) d = pos (n / d)
quot (negsuc n) d = pos 0 -ℤ pos (suc n / d)

-- `count` is asserted to be positive.
unfoldable pub update_iterative_average : ℤ → ℤ → ℕ → ℤ
update_iterative_average avg value count =
    if count == 1 then value else avg +ℤ quot (value -ℤ avg) count

-- A time survives the way to seconds and nanoseconds and back.
pub timespec_roundtrip : (t : ℕ) → get_timespec2long (get_long2timespec t) ≡ t
unfolding get_timespec2long get_long2timespec
timespec_roundtrip t = omega arith

-- The other way round for a time whose nanoseconds are less than a second.
pub long_roundtrip :
    (t : Timespec) → t.tv_nsec < billion → get_long2timespec (get_timespec2long t) ≡ t
unfolding get_timespec2long get_long2timespec
long_roundtrip t h = ground arith

div-le : (n d : ℕ) → 1 ≤ d → n / d ≤ n
div-le n d h = grind arith

-- A quotient lies between 0 and the dividend.
quot_up : (x : ℤ) (d : ℕ) → 1 ≤ d → pos 0 ≤ℤ x → (pos 0 ≤ℤ quot x d) × (quot x d ≤ℤ x)
quot_up (pos n) d h p = (omega arith, omega (arith, div-le n d h))
quot_up (negsuc n) d h p = absurd (omega arith)

quot_down : (x : ℤ) (d : ℕ) → 1 ≤ d → x ≤ℤ pos 0 → (x ≤ℤ quot x d) × (quot x d ≤ℤ pos 0)
quot_down (pos n) d h p = (omega (arith, div-le n d h), omega (arith, div-le n d h))
quot_down (negsuc n) d h p =
    (omega (int_laws, div-le (suc n) d h), omega (int_laws, div-le (suc n) d h))

step_between :
    (avg value : ℤ) (count : ℕ)
    → 0 < count
    → (agios_min avg value ≤ℤ avg +ℤ quot (value -ℤ avg) count)
      × (avg +ℤ quot (value -ℤ avg) count ≤ℤ agios_max avg value)
step_between avg value count h = elim (≤ℤ_total avg value) [
  | inl up ↦
      let q = quot_up (value -ℤ avg) count h (omega int_laws) in
      let lo : avg ≤ℤ avg +ℤ quot (value -ℤ avg) count = omega (int_laws, q.0) in
      let hi : avg +ℤ quot (value -ℤ avg) count ≤ℤ value = omega (int_laws, q.1) in
      (ground arith, ground arith)
  | inr down ↦
      let q = quot_down (value -ℤ avg) count h (omega int_laws) in
      let lo : value ≤ℤ avg +ℤ quot (value -ℤ avg) count = omega (int_laws, q.0) in
      let hi : avg +ℤ quot (value -ℤ avg) count ≤ℤ avg = omega (int_laws, q.1) in
      (ground arith, ground arith)
]

-- A running average moves towards the new value, and not past it.
pub update_iterative_average_bounds :
    (avg value : ℤ) (count : ℕ)
    → 0 < count
    → (agios_min avg value ≤ℤ update_iterative_average avg value count)
      × (update_iterative_average avg value count ≤ℤ agios_max avg value)
unfolding update_iterative_average
update_iterative_average_bounds avg value count h = elim (Bool-cases (count == 1)) [
  | inl one ↦ rw one (ground arith)
  | inr more ↦ rw more (step_between avg value count h)
]
