-- ===== src/Aggregation/Order.antt =====
-- Aggregation keeps a queue in the order of offsets (src/agios_add_request.c).
use agios.Common.{
  ℕ, ◌+◌, ◌≤◌, ◌≡◌, inl, inr, List, [], ◌∷◌, true, arith, ltb, leb, ◌==◌, All, All-append,
  Bool-cases,
}
use agios.Request.{Request, Queued}
use agios.Aggregation.{
  add_to_virtual, make_virtual_request, include_in_aggregation, include_all, join_aggregations,
  can_aggregate, Inserted, join_next, aggregate_next, insert_aggregations,
}
use agios.Aggregation.Contents.{requests, IsCounted, include-IsCounted}
use agios.Aggregation.Extent.{include_extent}

abbrev pub From : ℕ → List Request → Type 0
From lo = All (λ r. lo ≤ r.offset)

-- No part of a queued request starts before it.
abbrev pub IsLeading : Queued → Type 0
IsLeading q = IsCounted q × From q.offset (requests q)

abbrev pub Ascending : ℕ → List Queued → Type 0
Ascending lo [] = Unit
Ascending lo (q ∷ qs) = (lo ≤ q.offset) × Ascending q.offset qs

abbrev pub Descending : ℕ → List Queued → Type 0
Descending hi [] = Unit
Descending hi (q ∷ qs) = (q.offset ≤ hi) × Descending q.offset qs

pub Ascending-mono : (lo hi : ℕ) (qs : List Queued) → lo ≤ hi → Ascending hi qs → Ascending lo qs
Ascending-mono lo hi [] h a = tt
Ascending-mono lo hi (q ∷ qs) h a = (omega arith, a.1)

From-mono : (lo hi : ℕ) (rs : List Request) → lo ≤ hi → From hi rs → From lo rs
From-mono lo hi [] h f = tt
From-mono lo hi (r ∷ rs) h f = (omega arith, From-mono lo hi rs h f.1)

add-From :
    (r : Request) (v : Queued)
    → 1 ≤ v.reqnb
    → From v.offset v.reqs_list
    → From (add_to_virtual r v).offset (requests (add_to_virtual r v))
unfolding add_to_virtual
add-From r v many f =
    let two : ltb 1 (v.reqnb + 1) ≡ true = ground arith in
    elim (Bool-cases (leb r.offset v.offset)) [
      | inl first ↦
          rw (two, first) (omega arith, From-mono r.offset v.offset v.reqs_list (ground arith) f)
      | inr last ↦
          rw (two, last)
            (All-append (λ x. v.offset ≤ x.offset) v.reqs_list (r ∷ []) f (ground arith, tt))
    ]

include-From :
    (g : ℕ) (r : Request) (q : Queued)
    → IsLeading q
    → From (include_in_aggregation g r q).0.offset (requests (include_in_aggregation g r q).0)
unfolding include_in_aggregation
include-From g r q l = elim (Bool-cases (q.reqnb == 1)) [
  | inl one ↦ rw one (add-From r (make_virtual_request g q.head).0 (omega arith) (omega arith, tt))
  | inr other ↦ rw other (add-From r q (ground arith) (ground arith))
]

include-IsLeading :
    (g : ℕ) (r : Request) (q : Queued) → IsLeading q → IsLeading (include_in_aggregation g r q).0
include-IsLeading g r q l = (include-IsCounted g r q l.0, include-From g r q l)

-- The result of an aggregation that leaves the offset of `head` as it was.
abbrev pub Leads : Queued → Queued → Type 0
Leads head q = IsLeading q × (q.offset ≡ head.offset)

include-Leads :
    (g : ℕ) (r : Request) (head : Queued)
    → IsLeading head
    → head.offset ≤ r.offset
    → Leads head (include_in_aggregation g r head).0
include-Leads g r head l h = (include-IsLeading g r head l, ground (arith, include_extent g r head))

include_all-Leads :
    (g : ℕ) (rs : List Request) (head : Queued)
    → IsLeading head
    → From head.offset rs
    → Leads head (include_all g rs head).0
unfolding include_all
include_all-Leads g [] head l f = (l, omega arith)
include_all-Leads g (r ∷ rs) head l f =
    let i : Leads head (include_in_aggregation g r head).0 = include-Leads g r head l f.0 in
    let k =
      include_all-Leads (include_in_aggregation g r head).1 rs (include_in_aggregation g r head).0
        i.0 (From-mono _ head.offset rs (omega (arith, i.1)) f.1) in
    (k.0, omega (arith, k.1, i.1))

join-Leads :
    (g : ℕ) (head tail : Queued)
    → IsLeading head
    → IsLeading tail
    → head.offset ≤ tail.offset
    → Leads head (join_aggregations g head tail).0
unfolding join_aggregations
join-Leads g head tail l m h = elim (Bool-cases (tail.reqnb == 1)) [
  | inl one ↦ rw one (include-Leads g tail.head head l h)
  | inr other ↦ rw other (
      include_all-Leads g tail.reqs_list head l
        (From-mono head.offset tail.offset tail.reqs_list h (ground arith)))
]

-- After an insertion at a place of the right offset: what is left is in order around that offset.
pub record Ordered (at : ℕ) (r : Inserted) : Type 0 where
  pub below : Descending at r.place.before
  pub above : Ascending at r.place.after
  pub offset_kept : r.req.offset ≡ at
  pub before_leading : All IsLeading r.place.before
  pub after_leading : All IsLeading r.place.after
  pub req_leading : IsLeading r.req

module _ (max g : ℕ) where
  join_next-Ordered :
      (at : ℕ) (prev : Queued) (rest after : List Queued) (req : Queued)
      → req.offset ≡ at
      → Descending at (prev ∷ rest)
      → Ascending at after
      → All IsLeading (prev ∷ rest)
      → All IsLeading after
      → IsLeading req
      → Ordered at (join_next max g prev rest after req)
  unfolding join_next
  join_next-Ordered at prev rest [] req e d a ld la l = record {
    below = d;
    above = tt;
    offset_kept = e;
    before_leading = ld;
    after_leading = tt;
    req_leading = l;
  }
  join_next-Ordered at prev rest (next ∷ more) req e d a ld la l =
      elim (Bool-cases (can_aggregate max prev next)) [
        | inl h ↦
            let j = join-Leads g prev next ld.0 la.0 (omega arith) in
            rw h (record {
              below = (omega (arith, j.1), rw (j.1) d.1);
              above = Ascending-mono at next.offset more a.0 a.1;
              offset_kept = e;
              before_leading = (j.0, ld.1);
              after_leading = la.1;
              req_leading = l;
            })
        | inr h ↦ rw h (record {
          below = d;
          above = a;
          offset_kept = e;
          before_leading = ld;
          after_leading = la;
          req_leading = l;
        })
      ]

  aggregate_next-Ordered :
      (at : ℕ) (req : Queued) (before after : List Queued)
      → req.offset ≡ at
      → Descending at before
      → Ascending at after
      → All IsLeading before
      → All IsLeading after
      → IsLeading req
      → Ordered at (aggregate_next max g req before after)
  unfolding aggregate_next
  aggregate_next-Ordered at req before [] e d a ld la l = record {
    below = d;
    above = tt;
    offset_kept = e;
    before_leading = ld;
    after_leading = tt;
    req_leading = l;
  }
  aggregate_next-Ordered at req before (next ∷ more) e d a ld la l =
      elim (Bool-cases (can_aggregate max req next)) [
        | inr h ↦ rw h (record {
          below = d;
          above = a;
          offset_kept = e;
          before_leading = ld;
          after_leading = la;
          req_leading = l;
        })
        | inl h ↦ elim (Bool-cases (ltb 1 req.reqnb)) [
          | inl many ↦
              let j = join-Leads g req next l la.0 (omega arith) in
              rw (h, many)
                (record {
                  below = d;
                  above = Ascending-mono at next.offset more a.0 a.1;
                  offset_kept = omega (arith, j.1);
                  before_leading = ld;
                  after_leading = la.1;
                  req_leading = j.0;
                })
          | inr one ↦
              let o : (include_in_aggregation g req.head next).0.offset ≡ at =
                ground (arith, include_extent g req.head next) in
              rw (h, one)
                (record {
                  below = d;
                  above =
                      (omega (arith, o), Ascending-mono _ next.offset more (omega (arith, o)) a.1);
                  offset_kept = e;
                  before_leading = ld;
                  after_leading = (include-IsLeading g req.head next la.0, la.1);
                  req_leading = l;
                })
        ]
      ]

-- If the place is right for the offset of the request, the queue is still in order after it, and
-- each queued request starts where its first part does.
pub insert_aggregations-Ordered :
    (max g at : ℕ) (req : Queued) (before after : List Queued)
    → req.offset ≡ at
    → Descending at before
    → Ascending at after
    → All IsLeading before
    → All IsLeading after
    → IsLeading req
    → Ordered at (insert_aggregations max g req before after)
unfolding insert_aggregations
insert_aggregations-Ordered max g at req [] after e d a ld la l =
    aggregate_next-Ordered max g at req [] after e d a ld la l
insert_aggregations-Ordered max g at req (prev ∷ rest) after e d a ld la l =
    elim (Bool-cases (can_aggregate max prev req)) [
      | inr h ↦ rw h (aggregate_next-Ordered max g at req (prev ∷ rest) after e d a ld la l)
      | inl h ↦ elim (Bool-cases (ltb 1 req.reqnb)) [
        | inl many ↦
            let j = join-Leads g prev req ld.0 l (omega arith) in
            rw (h, many)
              (join_next-Ordered max _ at (join_aggregations g prev req).0 rest after req e
                (omega (arith, j.1), rw (j.1) d.1) a (j.0, ld.1) la l)
        | inr one ↦
            let j = include-Leads g req.head prev ld.0 (omega arith) in
            rw (h, one)
              (join_next-Ordered max _ at (include_in_aggregation g req.head prev).0 rest after req
                e (omega (arith, j.1), rw (j.1) d.1) a (j.0, ld.1) la l)
      ]
    ]
