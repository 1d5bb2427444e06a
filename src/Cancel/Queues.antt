-- ===== src/Cancel/Queues.antt =====
-- What a cancellation does to a queue (src/agios_cancel_request.c).
use agios.Common.{
  ℕ, ◌+◌, ◌-◌, ◌≤◌, ◌≡◌, ◌≢◌, sym, ap, ◌∙◌, inl, inr, List, [], ◌∷◌, Option, none, some, true,
  false, ◌&&◌, arith, leb, ◌==◌, length, total, All, All-mono, Bool-cases,
}
use agios.Request.{Request, Queued}
use agios.Aggregation.Contents.{requests, IsCounted, weight}
use agios.Release.{is_request}
use agios.Cancel.{
  kept_part, take_part, extend_range, extend_all, recompute, without_part, cancel_one, after_one,
  put_back, or_later, cancel_in,
}

-- A range that holds a request.
abbrev pub Holds : (v r : Request) → Type 0
Holds v r = (v.offset ≤ r.offset) × (r.offset + r.len ≤ v.offset + v.len)

abbrev Wider : (v w : Request) → Type 0
Wider v w = (w.offset ≤ v.offset) × (v.offset + v.len ≤ w.offset + w.len)

extend_range-Wider : (v r : Request) → Wider v (extend_range v r) × Holds (extend_range v r) r
unfolding extend_range
extend_range-Wider v r = ground arith

extend_all-Wider :
    (v : Request) (rs : List Request) → Wider v (extend_all v rs) × All (Holds (extend_all v rs)) rs
unfolding extend_all
extend_all-Wider v [] = ((omega arith, omega arith), tt)
extend_all-Wider v (r ∷ rs) =
    let e = extend_range-Wider v r in
    let ih = extend_all-Wider (extend_range v r) rs in
    (
      (omega (arith, e.0, ih.0), omega (arith, e.0, ih.0)),
      ((omega (arith, e.1, ih.0), omega (arith, e.1, ih.0)), ih.1),
    )

-- The range that is computed anew when a part is cancelled holds every part that is left.
pub recompute-Holds : (v : Request) (rs : List Request) → All (Holds (recompute v rs)) rs
unfolding recompute
recompute-Holds v [] = tt
recompute-Holds v (r ∷ rs) =
    let ih =
      extend_all-Wider
        (record v {
          offset = r.offset;
          len = r.len;
          arrival_time = r.arrival_time;
          timestamp = r.timestamp;
        })
        rs in
    (ih.0, ih.1)

-- No request that was asked for.
abbrev pub Lacks : (len offset : ℕ) → List Request → Type 0
Lacks len offset rs = All (λ r. is_request len offset r ≡ false) rs

module _ (w : Request → ℕ) (len offset : ℕ) where
  -- What is taken out is what was asked for, and with the others it makes the list.
  abbrev Taken : List Request → Option (Request × List Request) → Type 0
  Taken rs none = Lacks len offset rs
  Taken rs (some (r, others)) =
      (is_request len offset r ≡ true)
      × (total w rs ≡ w r + total w others)
      × (length rs ≡ length others + 1)

  kept_part-Taken :
      (r : Request) (rs : List Request) (o : Option (Request × List Request))
      → is_request len offset r ≡ false
      → Taken rs o
      → Taken (r ∷ rs) (kept_part r o)
  kept_part-Taken r rs none miss h = (miss, h)
  kept_part-Taken r rs (some (found, others)) miss h = (h.0, omega (arith, h.1), omega (arith, h.2))

  take_part-Taken : (rs : List Request) → Taken rs (take_part len offset rs)
  unfolding take_part
  take_part-Taken [] = tt
  take_part-Taken (r ∷ rs) = elim (Bool-cases (is_request len offset r)) [
    | inl hit ↦ rw hit (hit, omega arith, omega arith)
    | inr miss ↦ rw miss (kept_part-Taken r rs (take_part len offset rs) miss (take_part-Taken rs))
  ]

-- A virtual request counts its parts and its range holds them.
abbrev pub IsSpanned : Queued → Type 0
IsSpanned q = IsCounted q × (1 ≤ q.reqnb) × (q.reqnb ≢ 1 → All (Holds q.head) q.reqs_list)

requests-many : (q : Queued) → q.reqnb ≢ 1 → 1 ≤ q.reqnb → requests q ≡ q.reqs_list
requests-many q many h = ground arith

requests-one : (q : Queued) → (q.reqnb == 1) ≡ true → requests q ≡ q.head ∷ []
requests-one q one = ground arith

module _ (w : Request → ℕ) (len offset : ℕ) where
  without_part-weight :
      (q : Queued) (others : List Request)
      → q.reqnb ≡ length others + 1
      → 1 ≤ length others
      → (total w (requests (without_part q others)) ≡ total w others)
        × IsSpanned (without_part q others)
  unfolding without_part
  without_part-weight q [] e h = absurd (omega arith)
  without_part-weight q (r ∷ []) e h = ground arith
  without_part-weight q (r ∷ r' ∷ rs) e h =
      let many : (q.reqnb - 1 == 1) ≡ false = ground arith in
      rw many (ground arith, (ground arith, omega arith, λ m. recompute-Holds q.head (r ∷ r' ∷ rs)))

  -- What is left of one queued request.
  abbrev Left : Queued → Option (Request × Option Queued) → Type 0
  Left q none = Lacks len offset (requests q)
  Left q (some (r, none)) = (is_request len offset r ≡ true) × (total w (requests q) ≡ w r)
  Left q (some (r, some left)) =
      (is_request len offset r ≡ true)
      × (total w (requests q) ≡ w r + total w (requests left))
      × IsSpanned left

  take_out-Left :
      (q : Queued) (o : Option (Request × List Request))
      → q.reqnb ≢ 1
      → IsSpanned q
      → Taken w len offset q.reqs_list o
      → Left q (elim o [
        | none ↦ none
        | some (found, others) ↦ some (found, some (without_part q others))
      ])
  take_out-Left q none many h t = rw (requests-many q many h.1) t
  take_out-Left q (some (found, others)) many h t =
      let all = requests-many q many h.1 in
      let counted : length q.reqs_list ≡ q.reqnb = sym (ap (length) all) ∙ h.0 in
      let left =
        without_part-weight q others (omega (arith, counted, t.2))
          (omega (arith, counted, t.2, many, h.1)) in
      (t.0, rw all (omega (arith, t.1, left.0)), left.1)

  out_of_range :
      (q : Queued) (r : Request)
      → (leb q.offset offset && leb (offset + len) (q.offset + q.len)) ≡ false
      → Holds q.head r
      → is_request len offset r ≡ false
  out_of_range q r outside holds = ground arith

  cancel_one-Left : (q : Queued) → IsSpanned q → Left q (cancel_one len offset q)
  unfolding cancel_one
  cancel_one-Left q h = elim (Bool-cases (q.reqnb == 1)) [
    | inl one ↦ elim (Bool-cases (is_request len offset q.head)) [
      | inl hit ↦ rw (one, hit) (hit, ground arith)
      | inr miss ↦ rw (one, miss, requests-one q one) (miss, tt)
    ]
    | inr many ↦ elim (Bool-cases (leb q.offset offset && leb (offset + len) (q.offset + q.len))) [
      | inl inside ↦
          rw (many, inside)
            (take_out-Left q (take_part len offset q.reqs_list) (ground arith) h
              (take_part-Taken w len offset q.reqs_list))
      | inr outside ↦
          let some_parts : q.reqnb ≢ 1 = ground arith in
          rw (many, outside, requests-many q some_parts h.1)
            (All-mono (Holds q.head) (λ r. is_request len offset r ≡ false)
              (λ r holds. out_of_range q r outside holds) q.reqs_list (h.2 some_parts))
    ]
  ]

  -- What is left of a queue.
  abbrev pub Cancelled : List Queued → Option (Request × List Queued) → Type 0
  Cancelled queue none = All (λ q. Lacks len offset (requests q)) queue
  Cancelled queue (some (r, queue')) =
      (is_request len offset r ≡ true)
      × (weight w queue ≡ w r + weight w queue')
      × All IsSpanned queue'

  put_back-Cancelled :
      (q : Queued) (rest : List Queued) (one : Option (Request × Option Queued))
      (rest_found : Option (Request × List Queued))
      → IsSpanned q
      → All IsSpanned rest
      → Left q one
      → Cancelled rest rest_found
      → Cancelled (q ∷ rest) (or_later (put_back rest one) (after_one q rest_found))
  put_back-Cancelled q rest none none hq h l c = (l, c)
  put_back-Cancelled q rest none (some (r, qs)) hq h l c = (c.0, omega (arith, c.1), (hq, c.2))
  put_back-Cancelled q rest (some (r, none)) f hq h l c = (l.0, omega (arith, l.1), h)
  put_back-Cancelled q rest (some (r, some left)) f hq h l c = (l.0, omega (arith, l.1), (l.2, h))

  -- A cancellation takes exactly one request out of the queue, one with the offset and length that
  -- were asked for, and every other request stays as often as before; what is left of a virtual
  -- request counts its parts and its range holds them. Nothing is found only if there is no such
  -- request in the queue.
  pub cancel_in_lem :
      (queue : List Queued) → All IsSpanned queue → Cancelled queue (cancel_in len offset queue)
  unfolding cancel_in
  cancel_in_lem [] h = tt
  cancel_in_lem (q ∷ rest) h =
      put_back-Cancelled q rest (cancel_one len offset q) (cancel_in len offset rest) h.0 h.1
        (cancel_one-Left q h.0) (cancel_in_lem rest h.1)
