-- ===== src/Mlf/Visits.antt =====
-- The visit of a file by MLF (src/MLF.c): what it takes, and what it leaves.
use agios.Common.{
  ℕ, ◌+◌, ◌≡◌, refl, sym, ap, ◌∙◌, inl, inr, List, [], ◌∷◌, Bool, true, false, not, ◌&&◌,
  if◌then◌else◌, ltb, ◌==◌, arith, All, total, Bool-cases, Option-cases,
}
use mathlib.Core.Path.{subst}
use agios.Request.{Request, RequestType, rt_read, rt_write, Queued, Queue, File, Timespec}
use agios.Lines.{queue_of, update_queue}
use agios.Aggregation.Contents.{requests, weight}
use agios.Aggregation.Insertion.{Fits}
use agios.Hashtable.Weight.{file_weight, InFile}
use agios.Hashtable.Writes.{IsTimed}
use agios.Waiting.{increment_sched_factor, check_selection, detect}
use agios.Mlf.{
  mlf_loop, apply_mlf_on_list, mlf_on_file, mlf_candidate, mlf_select_request, request_at,
  fits_quantum,
}

-- A weight that does not look at the factors.
abbrev pub IgnoresFactors : (Request → ℕ) → Type 0
IgnoresFactors w = (r : Request) (n : ℕ) → w (record r { sched_factor = n }) ≡ w r

-- The file keeps its handle, what it holds and that its waiting is timed.
pub record Keeps (w : Request → ℕ) (max : ℕ) (f f' : File) : Type 0 where
  pub handle : f'.file_id ≡ f.file_id
  pub held : file_weight w f' ≡ file_weight w f
  pub fits : InFile (Fits max) f → InFile (Fits max) f'
  pub timed : IsTimed f → IsTimed f'

module _ (w : Request → ℕ) (max : ℕ) (ignores : IgnoresFactors w) where
  pub Keeps-next : {a b c : File} → Keeps w max a b → Keeps w max b c → Keeps w max a c
  Keeps-next h k = record {
    handle = k.handle ∙ h.handle;
    held = k.held ∙ h.held;
    fits = λ x. k.fits (h.fits x);
    timed = λ x. k.timed (h.timed x);
  }

  increment-total :
      (q : Queued) → total w (requests (increment_sched_factor q)) ≡ total w (requests q)
  unfolding increment_sched_factor
  increment-total q = elim (Bool-cases (ltb 1 q.reqnb)) [
    | inl many ↦ rw many refl
    | inr one ↦ rw one (ap (λ n. n + 0) (ignores q.head _))
  ]

  increment-Fits : (q : Queued) → Fits max q → Fits max (increment_sched_factor q)
  unfolding increment_sched_factor
  increment-Fits q h = elim (Bool-cases (ltb 1 q.reqnb)) [
    | inl many ↦ (let k = h.0 in ground arith, h.1)
    | inr one ↦ (let k = h.0 in ground arith, h.1)
  ]

  loop-weight :
      (quantum : ℕ) (found : Bool) (reqs : List Queued)
      → weight w (mlf_loop quantum found reqs).0 ≡ weight w reqs
  unfolding mlf_loop
  loop-weight quantum found [] = refl
  loop-weight quantum true (q ∷ qs) = omega (arith, increment-total q, loop-weight quantum true qs)
  loop-weight quantum false (q ∷ qs) = omega (
    arith,
    increment-total q,
    loop-weight quantum (fits_quantum quantum (increment_sched_factor q)) qs,
  )

  loop-Fits :
      (quantum : ℕ) (found : Bool) (reqs : List Queued)
      → All (Fits max) reqs
      → All (Fits max) (mlf_loop quantum found reqs).0
  unfolding mlf_loop
  loop-Fits quantum found [] h = tt
  loop-Fits quantum true (q ∷ qs) h = (increment-Fits q h.0, loop-Fits quantum true qs h.1)
  loop-Fits quantum false (q ∷ qs) h = (
    increment-Fits q h.0,
    loop-Fits quantum (fits_quantum quantum (increment_sched_factor q)) qs h.1,
  )

  on_file-Keeps :
      (quantum : ℕ) (type : RequestType) (f : File) → Keeps w max f (mlf_on_file quantum type f).0
  unfolding mlf_on_file apply_mlf_on_list
  on_file-Keeps quantum rt_read f = record {
    handle = refl;
    held = omega (arith, loop-weight quantum false (f.read_queue).list);
    fits = λ h. (loop-Fits quantum false (f.read_queue).list h.0, h.1);
    timed = λ h. h;
  }
  on_file-Keeps quantum rt_write f = record {
    handle = refl;
    held = omega (arith, loop-weight quantum false (f.write_queue).list);
    fits = λ h. (h.0, loop-Fits quantum false (f.write_queue).list h.1);
    timed = λ h. h;
  }

  candidate-Keeps : (quantum : ℕ) (f : File) → Keeps w max f (mlf_candidate quantum f).0
  unfolding mlf_candidate
  candidate-Keeps quantum f =
      let r = on_file-Keeps quantum rt_read f in
      elim (Option-cases (mlf_on_file quantum rt_read f).1) [
        | inl none_read ↦
            rw (mlf_candidate, none_read)
              (Keeps-next r (on_file-Keeps quantum rt_write (mlf_on_file quantum rt_read f).0))
        | inr (chosen, some_read) ↦ rw (mlf_candidate, some_read) r
      ]

-- `check_selection` writes to no list.
abbrev pub SameLists : File → File → Type 0
SameLists f g =
    (g.file_id ≡ f.file_id)
    × ((g.read_queue).list ≡ (f.read_queue).list)
    × ((g.write_queue).list ≡ (f.write_queue).list)

pub queue-SameLists :
    (type : RequestType) (change : Queue → Queue) (f g : File)
    → ((q : Queue) → (change q).list ≡ q.list)
    → SameLists f g
    → SameLists f (update_queue type change g)
queue-SameLists rt_read change f g h k = (k.0, h g.read_queue ∙ k.1, k.2)
queue-SameLists rt_write change f g h k = (k.0, k.1, h g.write_queue ∙ k.2)

pub on_both : (P : File → Type 0) (b : Bool) (x y : File) → P x → P y → P (if b then x else y)
on_both P true x y px py = px
on_both P false x y px py = py

detect-SameLists : (config : ℕ) (req : Queued) (f : File) → SameLists f (detect config req f)
detect-SameLists config req f =
    let q : Queue = queue_of req.type f in
    let same : SameLists f f = (refl, refl, refl) in
    let waits : SameLists f (record f { waiting_time = config }) = (refl, refl, refl) in
    on_both (SameLists f) (not (q.predictedoff == 0)) _ _
      (queue-SameLists req.type _ f _ (λ q. refl)
        (on_both (SameLists f) (ltb q.predictedoff req.offset) _ _ waits same))
      (on_both (SameLists f) (ltb q.lastfinaloff req.offset && ltb req.reqnb q.lastaggregation) _ _
        (queue-SameLists req.type _ f _ (λ q. refl) waits) same)

check_selection-SameLists :
    (config : ℕ) (now : Timespec) (req : Queued) (f : File)
    → SameLists f (check_selection config now req f).1
      × IsTimed (check_selection config now req f).1
unfolding check_selection
check_selection-SameLists config now req f =
    let d = detect-SameLists config req f in
    elim (Bool-cases ((detect config req f).waiting_time == 0)) [
      | inl ready ↦ rw ready (d, λ waits. absurd (waits (ground arith)))
      | inr waiting ↦ rw waiting (d, λ waits. λ e. cc)
    ]

module _ (w : Request → ℕ) (max : ℕ) where
  pub SameLists-Keeps : (f g : File) → SameLists f g → IsTimed g → Keeps w max f g
  SameLists-Keeps f g h t = record {
    handle = h.0;
    held = rw (h.1, h.2) refl;
    fits = λ k. (subst (All (Fits max)) (sym h.1) k.0, subst (All (Fits max)) (sym h.2) k.1);
    timed = λ _. t;
  }

module _ (w : Request → ℕ) (max : ℕ) (ignores : IgnoresFactors w) where
  pub select-Keeps :
      (quantum config : ℕ) (now : Timespec) (f : File)
      → Keeps w max f (mlf_select_request quantum config now f).0
  unfolding mlf_select_request
  select-Keeps quantum config now f =
      let r = mlf_candidate quantum f in
      let k = candidate-Keeps w max ignores quantum f in
      elim (Option-cases r.1) [
        | inl no_candidate ↦ rw (mlf_select_request, no_candidate) k
        | inr (chosen, e) ↦
            elim (Option-cases (request_at (chosen.1) (queue_of (chosen.0) r.0).list)) [
              | inl no_request ↦ rw (mlf_select_request, e, no_request) k
              | inr (req, there) ↦
                  let c = check_selection-SameLists config now req r.0 in
                  rw (mlf_select_request, e, there)
                    (Keeps-next w max ignores k (SameLists-Keeps w max r.0 _ c.0 c.1))
            ]
      ]
