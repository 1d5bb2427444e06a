-- ===== src/Sjf/Shortest.antt =====
-- The queue that `SJF_get_shortest_job` (src/SJF.c) returns.
use agios.Common.{
  ◌^◌, ◌-◌, ◌≡◌, refl, ap, ◌∙◌, inl, inr, List, [], ◌∷◌, Option, none, some, true, false, arith,
  All, All-mono, Bool-cases,
}
use mathlib.Core.Option
use agios.Common.Int.{pos, ltb_ℤ, ◌≤ℤ◌}
use agios.Request.{File}
use agios.State.{ok}
use agios.Sjf.{Best, start_best, sjf_get_shortest_job}
use agios.Sjf.Jobs.{IsMeasured, Job, busy_table, jobs, shorter, shortest}
use agios.Sjf.Search.{fold_jobs, pick, sjf_lines-Chooses}

abbrev improve : Option Job → Best → Best
improve none b = b
improve (some j) b = pick j b

pick-pick : (j k : Job) (b : Best) → pick k (pick j b) ≡ improve (shorter j (some k)) b
pick-pick j k b = elim (Bool-cases (ltb_ℤ j.size b.min_size)) [
  | inl j_less ↦ elim (Bool-cases (ltb_ℤ k.size j.size)) [
    | inl k_less ↦
        let k_least : ltb_ℤ k.size b.min_size ≡ true = ground arith in
        rw (j_less, k_less, k_least) refl
    | inr k_more ↦ rw (j_less, k_more, j_less) refl
  ]
  | inr j_more ↦ elim (Bool-cases (ltb_ℤ k.size j.size)) [
    | inl k_less ↦ rw (j_more, k_less) refl
    | inr k_more ↦
        let k_most : ltb_ℤ k.size b.min_size ≡ false = ground arith in
        rw (j_more, k_more, k_most, j_more) refl
  ]
]

pick-improve :
    (j : Job) (o : Option Job) (b : Best) → improve o (pick j b) ≡ improve (shorter j o) b
pick-improve j none b = refl
pick-improve j (some k) b = pick-pick j k b

fold_jobs-eq : (js : List Job) (b : Best) → fold_jobs js b ≡ improve (shortest js) b
unfolding fold_jobs shortest
fold_jobs-eq [] b = refl
fold_jobs-eq (j ∷ js) b = fold_jobs-eq js (pick j b) ∙ pick-improve j (shortest js) b

abbrev pub Least : Option Job → List Job → Type 0
Least none js = js ≡ []
Least (some j) js = All (λ k. j.size ≤ℤ k.size) js

shorter-Least :
    (j : Job) (o : Option Job) (js : List Job) → Least o js → Least (shorter j o) (j ∷ js)
shorter-Least j none js h = rw h (omega arith, tt)
shorter-Least j (some k) js h = elim (Bool-cases (ltb_ℤ k.size j.size)) [
  | inl k_less ↦ rw k_less (ground arith, h)
  | inr k_more ↦ rw k_more (
    omega arith,
    All-mono (λ m. k.size ≤ℤ m.size) (λ m. j.size ≤ℤ m.size) (λ m p. ground arith) js h,
  )
]

shortest-Least : (js : List Job) → Least (shortest js) js
unfolding shortest
shortest-Least [] = refl
shortest-Least (j ∷ js) = shorter-Least j (shortest js) js (shortest-Least js)

-- Less than `LONG_MAX`.
abbrev pub IsSmall : Job → Type 0
IsSmall j = ltb_ℤ j.size (pos (2 ^ 63 - 1)) ≡ true

abbrev AllOf : Option Job → Type 0
AllOf none = Unit
AllOf (some j) = IsSmall j

shorter-IsSmall : (j : Job) (o : Option Job) → IsSmall j → AllOf o → AllOf (shorter j o)
shorter-IsSmall j none h ho = h
shorter-IsSmall j (some k) h ho = elim (Bool-cases (ltb_ℤ k.size j.size)) [
  | inl k_less ↦ rw k_less ho
  | inr k_more ↦ rw k_more h
]

shortest-IsSmall : (js : List Job) → All IsSmall js → AllOf (shortest js)
unfolding shortest
shortest-IsSmall [] h = tt
shortest-IsSmall (j ∷ js) h = shorter-IsSmall j (shortest js) h.0 (shortest-IsSmall js h.1)

improve-chosen :
    (o : Option Job) → AllOf o → (improve o start_best).chosen_queue ≡ Option.map (λ j. j.queue) o
improve-chosen none h = refl
improve-chosen (some j) h = rw h refl

-- If `current_filenb` counts the files with requests, each such file has bytes to move and no queue has
-- `LONG_MAX` bytes, then the search does not fail, and although it may stop before the end of the table
-- it chooses a queue with the least bytes among all queues with data of the files with requests: the
-- first such queue of the table, and none only if there is none.
pub sjf_get_shortest_job_lem :
    (lines : List (List File))
    → All (All IsMeasured) lines
    → All IsSmall (jobs 0 lines)
    → (r : Best) × (sjf_get_shortest_job (pos (busy_table lines)) lines ≡ ok r)
      × (r.chosen_queue ≡ Option.map (λ j. j.queue) (shortest (jobs 0 lines)))
      × Least (shortest (jobs 0 lines)) (jobs 0 lines)
unfolding sjf_get_shortest_job
sjf_get_shortest_job_lem lines h small =
    let c = sjf_lines-Chooses (busy_table lines) 0 lines start_best h (omega arith) in
    (
      c.0,
      c.1,
      c.3
          ∙ ap (λ r. r.chosen_queue) (fold_jobs-eq (jobs 0 lines) start_best)
          ∙ improve-chosen (shortest (jobs 0 lines)) (shortest-IsSmall (jobs 0 lines) small),
      shortest-Least (jobs 0 lines),
    )
