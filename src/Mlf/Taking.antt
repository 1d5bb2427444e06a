-- ===== src/Mlf/Taking.antt =====
-- A request that MLF takes out of a file (src/MLF.c).
use agios.Common.{
  ℕ, zero, suc, ◌+◌, ◌≡◌, ◌≢◌, refl, sym, ap, ◌∙◌, inl, inr, List, [], ◌∷◌, Option, none, some,
  true, ltb, ◌==◌, arith, All, total, Bool-cases, Option-cases,
}
use mathlib.Core.Path.{subst}
use agios.Common.Int.{ℤ, pos, ltb_ℤ}
use agios.Request.{Request, RequestType, rt_read, rt_write, Queued, File, Timespec}
use agios.Lines.{queue_of, update_queue}
use agios.CommonFunctions.{get_nanoelapsed}
use agios.State.{ok}
use agios.Aggregation.Contents.{requests, weight}
use agios.Aggregation.Insertion.{Fits}
use agios.Hashtable.Weight.{file_weight, InFile}
use agios.Hashtable.Writes.{IsTimed}
use agios.Waiting.{update_waiting_time_counters, wait_less, wait_since}
use agios.Mlf.{request_at, Selected}
use agios.Mlf.Rounds.{without, take_selected, update_waiting}
use agios.Mlf.Visits.{Keeps, SameLists, SameLists-Keeps}

abbrev pub taken_weight : (Request → ℕ) → Option Queued → ℕ
taken_weight w none = 0
taken_weight w (some req) = total w (requests req)

abbrev pub TakenFits : ℕ → Option Queued → Type 0
TakenFits max none = Unit
TakenFits max (some req) = Fits max req

-- The file `g` after `taken` left the file `f`.
pub record Takes (w : Request → ℕ) (max : ℕ) (f g : File) (taken : Option Queued) : Type 0 where
  pub handle : g.file_id ≡ f.file_id
  pub held : file_weight w f ≡ taken_weight w taken + file_weight w g
  pub fits : InFile (Fits max) g
  pub taken_fits : TakenFits max taken
  pub timed : IsTimed g

some_not_none {ℓ} : {A : Type ℓ} {o : Option A} {a : A} → o ≡ some a → o ≢ none
some_not_none e h = let clash : some _ ≡ none = sym e ∙ h in cc

wait_less-same :
    (elapsed : ℤ) (f : File) (n : ℕ)
    → SameLists f (wait_less elapsed f n).0
      × ((wait_less elapsed f n).0.waiting_start ≡ f.waiting_start)
wait_less-same elapsed f n = elim (Bool-cases (ltb_ℤ elapsed (pos f.waiting_time))) [
  | inl longer ↦ rw longer ((refl, refl, refl), refl)
  | inr over ↦ rw over ((refl, refl, refl), refl)
]

update_started :
    (now start : Timespec) (f : File) (n : ℕ)
    → f.waiting_start ≡ some start
    → update_waiting_time_counters now f n ≡ ok (wait_less (get_nanoelapsed now start) f n)
unfolding update_waiting_time_counters
update_started now start f n e = ap (λ (o : Option Timespec). wait_since o now f n) e

module _ (w : Request → ℕ) (max : ℕ) where
  without-weight :
      (i : ℕ) (reqs : List Queued) (req : Queued)
      → request_at i reqs ≡ some req
      → weight w reqs ≡ total w (requests req) + weight w (without i reqs)
  unfolding request_at without
  without-weight i [] req e = cc
  without-weight zero (q ∷ qs) req e =
      let p : q ≡ req = cc in ap (λ (r : Queued). total w (requests r) + weight w qs) p
  without-weight (suc i) (q ∷ qs) req e = omega (arith, without-weight i qs req e)

  without-Fits :
      (i : ℕ) (reqs : List Queued) (req : Queued)
      → request_at i reqs ≡ some req
      → All (Fits max) reqs
      → Fits max req × All (Fits max) (without i reqs)
  unfolding request_at without
  without-Fits i [] req e h = cc
  without-Fits zero (q ∷ qs) req e h = let p : q ≡ req = cc in (subst (Fits max) p h.0, h.1)
  without-Fits (suc i) (q ∷ qs) req e h =
      let ih = without-Fits i qs req e h.1 in (ih.0, (h.0, ih.1))

  taking :
      (type : RequestType) (i : ℕ) (f : File) (req : Queued)
      → request_at i (queue_of type f).list ≡ some req
      → InFile (Fits max) f
      → IsTimed f
      → Takes w max f (update_queue type (λ q. record q { list = without i q.list }) f) (some req)
  taking rt_read i f req e h t =
      let k = without-Fits i (f.read_queue).list req e h.0 in
      record {
        handle = refl;
        held = omega (arith, without-weight i (f.read_queue).list req e);
        fits = (k.1, h.1);
        taken_fits = k.0;
        timed = t;
      }
  taking rt_write i f req e h t =
      let k = without-Fits i (f.write_queue).list req e h.1 in
      record {
        handle = refl;
        held = omega (arith, without-weight i (f.write_queue).list req e);
        fits = (h.0, k.1);
        taken_fits = k.0;
        timed = t;
      }

  nothing : (f : File) → InFile (Fits max) f → IsTimed f → Takes w max f f none
  nothing f h t = record { handle = refl; held = omega arith; fits = h; taken_fits = tt; timed = t }

  pub take_selected-Takes :
      (f : File) (sel : Selected)
      → InFile (Fits max) f
      → IsTimed f
      → Takes w max f (take_selected (f, sel)).0 (take_selected (f, sel)).1
  unfolding take_selected
  take_selected-Takes f none h t = nothing f h t
  take_selected-Takes f (some (type, i)) h t = elim (Bool-cases (f.waiting_time == 0)) [
    | inr waits ↦ rw waits (nothing f h t)
    | inl ready ↦ elim (Option-cases (request_at i (queue_of type f).list)) [
      | inl missing ↦ rw (take_selected, ready, missing) (nothing f h t)
      | inr (req, there) ↦ rw (take_selected, ready, there) (taking type i f req there h t)
    ]
  ]

  pub update_waiting-Keeps :
      (now : Timespec) (f : File) (shortest : ℕ)
      → IsTimed f
      → (g : File) × (n : ℕ) × (update_waiting now f shortest ≡ ok (g, n)) × Keeps w max f g
  unfolding update_waiting
  update_waiting-Keeps now f shortest t = elim (Bool-cases (ltb 0 f.waiting_time)) [
    | inr idle ↦ (f, shortest, rw idle refl, SameLists-Keeps w max f f (refl, refl, refl) t)
    | inl waits ↦ elim (Option-cases f.waiting_start) [
      | inl unset ↦
          absurd (t (λ e. let no_wait : ltb 0 0 ≡ true = sym (ap (ltb 0) e) ∙ waits in cc) unset)
      | inr (start, e) ↦
          let x = wait_less (get_nanoelapsed now start) f shortest in
          let same = wait_less-same (get_nanoelapsed now start) f shortest in
          (
            x.0,
            x.1,
            rw waits (update_started now start f shortest e),
            SameLists-Keeps w max f x.0 same.0 (λ _. some_not_none (same.1 ∙ e)),
          )
    ]
  ]
