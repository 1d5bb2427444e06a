-- ===== src/Trace/Numbers.antt =====
-- src/trace.c: the number that `init_trace_module` gives to a trace file.
use agios.Common.{
  ℕ, zero, suc, ◌+◌, ◌≤◌, ◌<◌, ◌≡◌, refl, sym, ap, ◌∙◌, List, some, Bool, true, false, arith,
  lt→ltb, length, if◌then◌else◌, Bool-cases, inl, inr, ◌⊎◌,
}
use agios.Common.Int.{ℤ}
use agios.State.{ok}
use agios.Trace.{FilePath, FileSystem, trace_name}
use agios.Trace.Init.{Environment, TraceNames, filename_size, found, search_name}

lt_or_eq : (a b : ℕ) → a ≤ b → (a < b) ⊎ (a ≡ b)
lt_or_eq a b h = omega arith

-- A number where a test holds is not the one where it fails.
lt-of_tests : (p : ℕ → Bool) (a b : ℕ) → a ≤ b → p a ≡ true → p b ≡ false → a < b
lt-of_tests p a b h ha hb = elim (lt_or_eq a b h) [
  | inl lt ↦ lt
  | inr e ↦ let clash : true ≡ false = sym ha ∙ ap p e ∙ hb in cc
]

-- A test that holds at one number and at those after it.
tests-suc :
    (p : ℕ → Bool) (a n : ℕ)
    → p (suc a) ≡ true
    → ((k : ℕ) → suc a < k → k < n → p k ≡ true)
    → (k : ℕ) → a < k
    → k < n
    → p k ≡ true
tests-suc p a n h rest k lt below = elim (lt_or_eq (suc a) k lt) [
  | inl beyond ↦ rest k beyond below
  | inr e ↦ ap p (sym e) ∙ h
]

module _ (ld : ℤ → List ℕ) (names : TraceNames) (env : Environment) (files : FileSystem) where
  abbrev pub numbered : ℕ → FilePath
  numbered n = trace_name ld names.prefix names.sufix n

  abbrev pub is_taken : ℕ → Bool
  is_taken n = found files env.readable (numbered n)

  -- The first number above `counter` whose file cannot be opened for reading.
  pub record IsFirstFree (counter n : ℕ) : Type 0 where
    pub above : counter < n
    pub free : is_taken n ≡ false
    pub taken : (k : ℕ) → counter < k → k < n → is_taken k ≡ true

  pub search_name-step :
      (fuel counter : ℕ)
      → length (numbered (suc counter)) < filename_size
      → search_name ld names env files (suc fuel) counter ≡ (
          if is_taken (suc counter)
          then search_name ld names env files fuel (suc counter)
          else ok (some (numbered (suc counter))))
  unfolding search_name
  search_name-step fuel counter h = rw (lt→ltb _ _ h) refl

  -- Where some number up to the fuel has no readable file, and the names up to it fit the array, the
  -- search ends with the first such number.
  pub search-IsFirstFree :
      (fuel counter m : ℕ)
      → counter < m
      → m ≤ counter + fuel
      → is_taken m ≡ false
      → ((k : ℕ) → k ≤ m → length (numbered k) < filename_size)
      → (n : ℕ) × (search_name ld names env files fuel counter ≡ ok (some (numbered n)))
        × IsFirstFree counter n
        × (n ≤ m)
  search-IsFirstFree zero counter m lt le free short = absurd (omega arith)
  search-IsFirstFree (suc fuel) counter m lt le free short =
      elim (Bool-cases (is_taken (suc counter))) [
        | inr e ↦ (
          suc counter,
          rw (search_name-step fuel counter (short (suc counter) lt), e) refl,
          record { above = omega arith; free = e; taken = λ k a b. absurd (omega arith) },
          lt,
        )
        | inl e ↦
            let more : suc counter < m = lt-of_tests is_taken (suc counter) m lt e free in
            let (n, eq, first, le') =
              search-IsFirstFree fuel (suc counter) m more (omega arith) free short in
            (
              n,
              rw (search_name-step fuel counter (short (suc counter) lt), e) eq,
              record {
                above = omega (arith, first.above);
                free = first.free;
                taken = tests-suc is_taken counter n e first.taken;
              },
              le',
            )
      ]
