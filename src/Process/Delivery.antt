-- ===== src/Process/Delivery.antt =====
-- The user gets back each request once, in order (src/process_request.c).
use mathlib.Core.List.{append-nil, append_assoc}
use agios.Common.{
  ap, sym, ◌==◌, some, ℕ, ◌≤◌, ◌≡◌, refl, ◌∙◌, inl, inr, List, [], ◌∷◌, ◌++◌, map, some, Bool, true,
  false, arith, ltb, length, Bool-cases,
}
use agios.Request.{Request, Queued}
use agios.Aggregation.Contents.{requests, IsCounted}
use agios.State.{State, Outcome, ok}
use agios.Process.{
  dispatch_requests, process_requests_step1, Callback, process_request, process_requests,
  callback_each, process_requests_step2,
}

-- The identifiers that a sequence of calls gives to the user.
unfoldable pub delivered : List Callback → List ℕ
delivered [] = []
delivered (process_request id ∷ cs) = id ∷ delivered cs
delivered (process_requests ids n ∷ cs) = ids ++ delivered cs

pub delivered-append : (cs ds : List Callback) → delivered (cs ++ ds) ≡ delivered cs ++ delivered ds
unfolding delivered
delivered-append [] ds = refl
delivered-append (process_request id ∷ cs) ds = ap (λ l. id ∷ l) (delivered-append cs ds)
delivered-append (process_requests ids n ∷ cs) ds =
    ap (λ l. ids ++ l) (delivered-append cs ds)
    ∙ sym (append_assoc ids (delivered cs) (delivered ds))

abbrev pub user_ids_of : List Request → List ℕ
user_ids_of = map (λ r. r.user_id)

callback_each-ok :
    (ids : List ℕ)
    → (cs : List Callback) × (callback_each (length ids) ids ≡ ok cs) × (delivered cs ≡ ids)
unfolding callback_each delivered
callback_each-ok [] = ([], refl, refl)
callback_each-ok (id ∷ ids) =
    let ih = callback_each-ok ids in (process_request id ∷ ih.0, rw (ih.1) refl, rw (ih.2) refl)

length-map_ids : (rs : List Request) → length (user_ids_of rs) ≡ length rs
length-map_ids [] = refl
length-map_ids (r ∷ rs) = omega (arith, length-map_ids rs)

-- What a run of step 2 on identifiers `ids` gives the user.
abbrev pub Delivers : List ℕ → Outcome (List Callback) → Type 0
Delivers ids o = (cs : List Callback) × (o ≡ ok cs) × (delivered cs ≡ ids)

pub step2-Delivers :
    (b : Bool) (ids : List ℕ)
    → 1 ≤ length ids
    → Delivers ids (process_requests_step2 b (record { user_ids = ids; reqnb = length ids }))
unfolding process_requests_step2
step2-Delivers b [] h = absurd (omega arith)
step2-Delivers b (x ∷ []) h = (process_request x ∷ [], refl, single)
  where
    single : delivered (process_request x ∷ []) ≡ x ∷ []
    single = unfold delivered in refl
step2-Delivers true (x ∷ y ∷ ys) h =
    (process_requests (x ∷ y ∷ ys) (length (x ∷ y ∷ ys)) ∷ [], many, all)
  where
    many :
        process_requests_step2 true (record { user_ids = x ∷ y ∷ ys; reqnb = length (x ∷ y ∷ ys) })
        ≡ ok (process_requests (x ∷ y ∷ ys) (length (x ∷ y ∷ ys)) ∷ [])
    many = ground arith

    all : delivered (process_requests (x ∷ y ∷ ys) (length (x ∷ y ∷ ys)) ∷ []) ≡ x ∷ y ∷ ys
    all = unfold delivered in append-nil (x ∷ y ∷ ys)
step2-Delivers false (x ∷ y ∷ ys) h =
    let e = callback_each-ok (x ∷ y ∷ ys) in (e.0, each ∙ e.1, e.2)
  where
    each :
        process_requests_step2 false (record { user_ids = x ∷ y ∷ ys; reqnb = length (x ∷ y ∷ ys) })
        ≡ callback_each (length (x ∷ y ∷ ys)) (x ∷ y ∷ ys)
    each = ground arith

-- Step 1, where memory is there and the request counts its parts.
pub step1-eq :
    (now : ℕ) (head : Queued) (hash : ℕ) (s : State)
    → IsCounted head
    → process_requests_step1 true true now head hash s
      ≡ ok (
        some (record {
          user_ids = user_ids_of (requests head);
          reqnb = length (user_ids_of (requests head));
        }),
        (dispatch_requests head (requests head) now hash s).1,
      )
unfolding process_requests_step1 dispatch_requests
step1-eq now head hash s c =
    let some_requests : (head.reqnb == 0) ≡ false = ground arith in
    elim (Bool-cases (ltb 1 head.reqnb)) [
      | inl many ↦
          let counted : length head.reqs_list ≡ head.reqnb = ground arith in
          let room : ltb head.reqnb (length head.reqs_list) ≡ false = ground arith in
          rw (some_requests, many, room, length-map_ids head.reqs_list) refl
      | inr one ↦ let e : head.reqnb ≡ 1 = ground arith in rw (some_requests, one, e) refl
    ]

pub some_ids : (head : Queued) → IsCounted head → 1 ≤ length (user_ids_of (requests head))
some_ids head c = ground (arith, length-map_ids (requests head))
