-- ===== src/Sjf/Search.antt =====
-- The search of `SJF_get_shortest_job` (src/SJF.c) as a loop over the jobs.
use agios.Common.{
  ℕ, ◌+◌, ◌≡◌, refl, sym, ap, ◌∙◌, inl, inr, List, [], ◌∷◌, ◌++◌, some, arith, if◌then◌else◌, All,
  Bool-cases,
}
use agios.Common.Int.{pos, ltb_ℤ}
use agios.Request.{File, RequestType, rt_read, rt_write}
use agios.Lines.{queue_of}
use agios.State.{Outcome, ok}
use agios.Sjf.{Best, sjf_check_queue, sjf_consider, has_requests, sjf_file, sjf_line, sjf_lines}
use agios.Sjf.Jobs.{IsMeasured, Job, busy, busy_files, busy_table, job_of, jobs, jobs_of, line_jobs}

-- The search as a loop over the jobs.
abbrev pub pick : Job → Best → Best
pick j b =
    if ltb_ℤ j.size b.min_size
    then record b { min_size = j.size; chosen_queue = some j.queue }
    else b

unfoldable pub fold_jobs : List Job → Best → Best
fold_jobs [] b = b
fold_jobs (j ∷ js) b = fold_jobs js (pick j b)

fold_jobs-append :
    (js ks : List Job) (b : Best) → fold_jobs (js ++ ks) b ≡ fold_jobs ks (fold_jobs js b)
unfolding fold_jobs
fold_jobs-append [] ks b = refl
fold_jobs-append (j ∷ js) ks b = fold_jobs-append js ks (pick j b)

-- The count of files aside.
abbrev seen : ℕ → Best → Best
seen n b = record b { evaluated_reqfiles = b.evaluated_reqfiles + n }

seen-zero : (b : Best) → b ≡ seen 0 b
seen-zero b = ap (λ n. record b { evaluated_reqfiles = n }) (omega arith)

seen-seen : (m n : ℕ) (b : Best) → seen m (seen n b) ≡ seen (n + m) b
seen-seen m n b = ap (λ k. record b { evaluated_reqfiles = k }) (omega arith)

pick-seen : (j : Job) (n : ℕ) (b : Best) → pick j (seen n b) ≡ seen n (pick j b)
pick-seen j n b = elim (Bool-cases (ltb_ℤ j.size b.min_size)) [
  | inl less ↦ rw less refl
  | inr not_less ↦ rw not_less refl
]

fold_jobs-seen :
    (js : List Job) (n : ℕ) (b : Best) → fold_jobs js (seen n b) ≡ seen n (fold_jobs js b)
unfolding fold_jobs
fold_jobs-seen [] n b = refl
fold_jobs-seen (j ∷ js) n b =
    ap (λ c. fold_jobs js c) (pick-seen j n b) ∙ fold_jobs-seen js n (pick j b)

sjf_consider-eq :
    (i : ℕ) (f : File) (type : RequestType) (b : Best)
    → sjf_consider i f type b ≡ fold_jobs (job_of i f type) b
unfolding sjf_consider sjf_check_queue job_of fold_jobs
sjf_consider-eq i f type b = elim (Bool-cases (ltb_ℤ (pos 0) (queue_of type f).current_size)) [
  | inl some_data ↦ rw some_data refl
  | inr no_data ↦ rw no_data refl
]

sjf_file-eq :
    (i : ℕ) (f : File) (b : Best)
    → IsMeasured f
    → sjf_file i f b ≡ ok (seen (busy f) (fold_jobs (jobs_of i f) b))
unfolding sjf_file jobs_of fold_jobs
sjf_file-eq i f b h = elim (Bool-cases (has_requests f)) [
  | inl any ↦
      rw
        (
          any,
          h any,
          sjf_consider-eq i f rt_read (seen 1 b),
          sjf_consider-eq i f rt_write (fold_jobs (job_of i f rt_read) (seen 1 b)),
        )
        (ap (ok) (
          sym (fold_jobs-append (job_of i f rt_read) (job_of i f rt_write) (seen 1 b))
          ∙ fold_jobs-seen (job_of i f rt_read ++ job_of i f rt_write) 1 b))
  | inr none_left ↦ rw none_left (ap (ok) (seen-zero b))
]

sjf_line-eq :
    (i : ℕ) (fs : List File) (b : Best)
    → All IsMeasured fs
    → sjf_line i fs b ≡ ok (seen (busy_files fs) (fold_jobs (line_jobs i fs) b))
unfolding sjf_line busy_files line_jobs fold_jobs
sjf_line-eq i [] b h = ap (ok) (seen-zero b)
sjf_line-eq i (f ∷ fs) b h =
    let b' : Best = fold_jobs (jobs_of i f) b in
    rw (sjf_file-eq i f b h.0, sjf_line-eq i fs (seen (busy f) b') h.1)
      (ap (λ r. ok (seen (busy_files fs) r)) (fold_jobs-seen (line_jobs i fs) (busy f) b')
        ∙ ap (ok) (seen-seen (busy_files fs) (busy f) (fold_jobs (line_jobs i fs) b'))
        ∙ ap (λ r. ok (seen (busy f + busy_files fs) r))
            (sym (fold_jobs-append (jobs_of i f) (line_jobs i fs) b)))

-- Files without requests have no jobs.
line_jobs-idle : (i : ℕ) (fs : List File) → busy_files fs ≡ 0 → line_jobs i fs ≡ []
unfolding line_jobs busy_files jobs_of
line_jobs-idle i [] h = refl
line_jobs-idle i (f ∷ fs) h = elim (Bool-cases (has_requests f)) [
  | inl any ↦ absurd (ground arith)
  | inr idle ↦ rw idle (line_jobs-idle i fs (ground arith))
]

jobs-idle : (i : ℕ) (lines : List (List File)) → busy_table lines ≡ 0 → jobs i lines ≡ []
unfolding jobs busy_table
jobs-idle i [] h = refl
jobs-idle i (line ∷ lines) h =
    rw (line_jobs-idle i line (omega (arith, h)), jobs-idle (i + 1) lines (omega (arith, h))) refl

-- The search over the lines, which may stop early: the choice among all jobs.
abbrev Chooses : Outcome Best → Best → Type 0
Chooses o b =
    (r : Best) × (o ≡ ok r) × (r.min_size ≡ b.min_size) × (r.chosen_queue ≡ b.chosen_queue)

sjf_lines-cons :
    (n i : ℕ) (line : List File) (lines : List (List File)) (b b' : Best)
    → sjf_line i line b ≡ ok b'
    → sjf_lines (pos n) i (line ∷ lines) b ≡ (
        if ltb_ℤ (pos b'.evaluated_reqfiles) (pos n)
        then sjf_lines (pos n) (i + 1) lines b'
        else ok b')
unfolding sjf_lines
sjf_lines-cons n i line lines b b' e = rw (e, sjf_lines) refl

pick-evaluated : (j : Job) (b : Best) → (pick j b).evaluated_reqfiles ≡ b.evaluated_reqfiles
pick-evaluated j b = elim (Bool-cases (ltb_ℤ j.size b.min_size)) [
  | inl less ↦ rw less refl
  | inr not_less ↦ rw not_less refl
]

fold_jobs-evaluated :
    (js : List Job) (b : Best) → (fold_jobs js b).evaluated_reqfiles ≡ b.evaluated_reqfiles
unfolding fold_jobs
fold_jobs-evaluated [] b = refl
fold_jobs-evaluated (j ∷ js) b = fold_jobs-evaluated js (pick j b) ∙ pick-evaluated j b

Chooses-rest :
    (js ks : List Job) (m : ℕ) (b : Best) (o : Outcome Best)
    → Chooses o (fold_jobs ks (seen m (fold_jobs js b)))
    → Chooses o (fold_jobs (js ++ ks) b)
Chooses-rest js ks m b o c = rw (fold_jobs-append js ks b) (
  c.0,
  c.1,
  c.2 ∙ ap (λ r. r.min_size) (fold_jobs-seen ks m (fold_jobs js b)),
  c.3 ∙ ap (λ r. r.chosen_queue) (fold_jobs-seen ks m (fold_jobs js b)),
)

pub sjf_lines-Chooses :
    (n i : ℕ) (lines : List (List File)) (b : Best)
    → All (All IsMeasured) lines
    → n ≡ b.evaluated_reqfiles + busy_table lines
    → Chooses (sjf_lines (pos n) i lines b) (fold_jobs (jobs i lines) b)
unfolding jobs busy_table
sjf_lines-Chooses n i [] b h e =
    (b, unfold sjf_lines in refl, unfold fold_jobs in refl, unfold fold_jobs in refl)
sjf_lines-Chooses n i (line ∷ lines) b h e =
    let b' : Best = seen (busy_files line) (fold_jobs (line_jobs i line) b) in
    let eval = fold_jobs-evaluated (line_jobs i line) b in
    let cons = sjf_lines-cons n i line lines b b' (sjf_line-eq i line b h.0) in
    let further = sjf_lines-Chooses n (i + 1) lines b' h.1 (omega (arith, eval, e)) in
    elim (Bool-cases (ltb_ℤ (pos b'.evaluated_reqfiles) (pos n))) [
      | inl more ↦
          Chooses-rest (line_jobs i line) (jobs (i + 1) lines) (busy_files line) b _
            (further.0, cons ∙ rw more (further.1), further.2, further.3)
      | inr done ↦ Chooses-rest (line_jobs i line) (jobs (i + 1) lines) (busy_files line) b _ (
          rw (jobs-idle (i + 1) lines (ground arith))
            (b', cons ∙ rw done refl, unfold fold_jobs in refl, unfold fold_jobs in refl))
    ]
