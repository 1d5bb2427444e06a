-- ===== src/Waiting/Steps.antt =====
-- `call_step2_for_info_list` (src/waiting_common.c) calls step 2 for a list of structures.
use agios.Common.{
  ℕ, ◌≤◌, ◌≡◌, refl, sym, ◌∙◌, List, [], ◌∷◌, ◌++◌, Bool, true, false, ◌||◌, arith, length, All,
}
use agios.State.{ok}
use agios.Process.{ProcessingInfo, Callback, process_requests_step2}
use agios.Process.Delivery.{Delivers, delivered, delivered-append, step2-Delivers}
use agios.Waiting.{step2_loop, call_step2_for_info_list}
use mathlib.Core.Path.{subst}
use mathlib.Core.List.{append-nil}

-- The identifiers of the structures up to the first whose step 2 says to stop, that one included.
unfoldable pub until_stop : List (ProcessingInfo × Bool) → List ℕ
until_stop [] = []
until_stop ((i, true) ∷ rest) = i.user_ids
until_stop ((i, false) ∷ rest) = i.user_ids ++ until_stop rest

unfoldable pub stops : List (ProcessingInfo × Bool) → Bool
stops [] = false
stops ((i, b) ∷ rest) = b || stops rest

-- A structure as step 1 fills it.
abbrev pub IsFilled : ProcessingInfo → Type 0
IsFilled i = (i.reqnb ≡ length i.user_ids) × (1 ≤ i.reqnb)

filled-Delivers :
    (b : Bool) (i : ProcessingInfo) → IsFilled i → Delivers i.user_ids (process_requests_step2 b i)
filled-Delivers b i h =
    subst
      (λ n.
        Delivers i.user_ids
          (process_requests_step2 b (record { user_ids = i.user_ids; reqnb = n })))
      (sym (h.0)) (step2-Delivers b i.user_ids (omega (arith, h.0, h.1)))

stopped-loop :
    (b : Bool) (infos : List (ProcessingInfo × Bool)) → step2_loop b true infos ≡ ok ([], true)
unfolding step2_loop
stopped-loop b [] = refl
stopped-loop b (i ∷ rest) = stopped-loop b rest

-- Of a list of filled structures, the user gets the requests up to the first structure whose step 2
-- says to stop, that one included and each once; those after it are never given to the user. The
-- result says whether there was one.
pub call_step2_for_info_list_lem :
    (b : Bool) (infos : List (ProcessingInfo × Bool))
    → All (λ i. IsFilled i.0) infos
    → (cs : List Callback) × (call_step2_for_info_list b infos ≡ ok (cs, stops infos))
      × (delivered cs ≡ until_stop infos)
unfolding call_step2_for_info_list step2_loop until_stop stops
call_step2_for_info_list_lem b [] h = ([], refl, unfold delivered in refl)
call_step2_for_info_list_lem b ((i, true) ∷ rest) h =
    let d = filled-Delivers b i h.0 in
    (d.0 ++ [], rw (d.1) (rw (stopped-loop b rest) refl), rw (append-nil d.0) (d.2))
call_step2_for_info_list_lem b ((i, false) ∷ rest) h =
    let d = filled-Delivers b i h.0 in
    let ih = call_step2_for_info_list_lem b rest h.1 in
    (d.0 ++ ih.0, rw (d.1) (rw (ih.1) refl), delivered-append d.0 ih.0 ∙ rw (d.2) (rw (ih.2) refl))
