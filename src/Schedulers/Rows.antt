-- ===== src/Schedulers/Rows.antt =====
-- What the look-ups of src/scheduling_algorithms.c say of the rows of the table.
use mathlib.Core.Path.{subst}
use agios.Common.{ℕ, zero, suc, ◌+◌, ◌≡◌, refl, List, [], ◌∷◌, none, some, true, false, arith, All}
use agios.Common.Int.{pos}
use agios.Common.Text.{same_string, strcmp}
use agios.Schedulers.{
  Scheduler, sjf_scheduler, io_schedulers, find_io_scheduler, name_index, get_algorithm_from_string,
  get_algorithm_name_from_index,
}

-- The row at an index agrees with the other look-ups, and is not dynamic.
abbrev pub Row : ℕ → Scheduler → Type 0
Row i s =
    (s.index ≡ i)
    × (get_algorithm_from_string io_schedulers s.name ≡ (true, i))
    × (get_algorithm_name_from_index io_schedulers (pos i) ≡ some s.name)
    × (s.is_dynamic ≡ false)

move-Row : (i : ℕ) (t s : Scheduler) → Row i t → some t ≡ some s → Row i s
move-Row i t s row e = let p : t ≡ s = cc in subst (Row i) p row

-- Each row of the table stands at its own index; its name leads back to that index, and the index to
-- its name. No algorithm of the table is dynamic.
pub find_io_scheduler-Row :
    (i : ℕ) (s : Scheduler) → find_io_scheduler io_schedulers (pos i) ≡ some s → Row i s
unfolding io_schedulers get_algorithm_name_from_index get_algorithm_from_string find_io_scheduler
    strcmp
find_io_scheduler-Row zero s e = move-Row 0 _ s (refl, refl, refl, refl) e
find_io_scheduler-Row (suc zero) s e = move-Row 1 _ s (refl, refl, refl, refl) e
find_io_scheduler-Row (suc (suc zero)) s e = move-Row 2 _ s (refl, refl, refl, refl) e
find_io_scheduler-Row (suc (suc (suc zero))) s e = move-Row 3 _ s (refl, refl, refl, refl) e
find_io_scheduler-Row (suc (suc (suc (suc zero)))) s e = move-Row 4 _ s (refl, refl, refl, refl) e
find_io_scheduler-Row (suc (suc (suc (suc (suc zero))))) s e =
    move-Row 5 _ s (refl, refl, refl, refl) e
find_io_scheduler-Row (suc (suc (suc (suc (suc (suc zero)))))) s e =
    move-Row 6 _ s (refl, refl, refl, refl) e
find_io_scheduler-Row (suc (suc (suc (suc (suc (suc (suc zero))))))) s e =
    move-Row 7 _ s (refl, refl, refl, refl) e
find_io_scheduler-Row (suc (suc (suc (suc (suc (suc (suc (suc zero)))))))) s e =
    move-Row 8 _ s (refl, refl, refl, refl) e
find_io_scheduler-Row (suc (suc (suc (suc (suc (suc (suc (suc (suc i))))))))) s e = ground arith

name_index_unknown :
    (alg : List ℕ) (i : ℕ) (table : List Scheduler)
    → All (λ s. same_string alg s.name ≡ false) table
    → name_index alg i table ≡ none
unfolding name_index
name_index_unknown alg i [] h = refl
name_index_unknown alg i (s ∷ ss) h = rw (h.0) (name_index_unknown alg (i + 1) ss h.1)

-- A name that is not in the table is refused, and the index then says SJF.
pub get_algorithm_from_string_unknown :
    (alg : List ℕ) (table : List Scheduler)
    → All (λ s. same_string alg s.name ≡ false) table
    → get_algorithm_from_string table alg ≡ (false, sjf_scheduler)
unfolding get_algorithm_from_string
get_algorithm_from_string_unknown alg table h =
    rw (name_index_unknown alg 0 table h, get_algorithm_from_string) refl
