-- ===== src/Aggregation/Contents.antt =====
-- What aggregation does to the set of requests that a queue holds (src/agios_add_request.c).
use agios.Common.{
  ℕ, ◌+◌, ◌≡◌, inl, inr, List, [], ◌∷◌, ◌++◌, arith, ltb, ◌==◌, if◌then◌else◌, length,
  length-append, total, total-append, Bool-cases,
}
use agios.Request.{Request, Queued}
use agios.Aggregation.{include_in_aggregation, include_all, join_aggregations}

-- The requests of the user that a queued request stands for.
abbrev pub requests : Queued → List Request
requests q = if ltb 1 q.reqnb then q.reqs_list else q.head ∷ []

-- `reqnb` tells how many they are.
abbrev pub IsCounted : Queued → Type 0
IsCounted q = length (requests q) ≡ q.reqnb

abbrev pub weight : (Request → ℕ) → List Queued → ℕ
weight w [] = 0
weight w (q ∷ qs) = total w (requests q) + weight w qs

pub weight-append :
    (w : Request → ℕ) (xs ys : List Queued) → weight w (xs ++ ys) ≡ weight w xs + weight w ys
weight-append w [] ys = omega arith
weight-append w (x ∷ xs) ys = omega (arith, weight-append w xs ys)

module _ (g : ℕ) (r : Request) (q : Queued) (counted : IsCounted q) where
  pub total-include :
      (w : Request → ℕ)
      → total w (requests (include_in_aggregation g r q).0)
        ≡ total w (requests q) + total w (r ∷ [])
  unfolding include_in_aggregation
  total-include w = ground (arith, total-append w q.reqs_list (r ∷ []))

  pub include-IsCounted : IsCounted (include_in_aggregation g r q).0
  unfolding include_in_aggregation
  include-IsCounted = ground (arith, length-append q.reqs_list (r ∷ []))

  pub reqnb-include : (include_in_aggregation g r q).0.reqnb ≡ q.reqnb + 1
  unfolding include_in_aggregation
  reqnb-include = ground arith

-- After an aggregation: the requests of `into`, and beside them those that `added` counts.
pub record Grown (w : Request → ℕ) (into : Queued) (more size : ℕ) (q : Queued) : Type 0 where
  pub counts : total w (requests q) ≡ total w (requests into) + more
  pub counted : IsCounted q
  pub reqnb_sum : q.reqnb ≡ into.reqnb + size

module _ (w : Request → ℕ) where
  include_all-Grown :
      (g : ℕ) (rs : List Request) (q : Queued)
      → IsCounted q
      → Grown w q (total w rs) (length rs) (include_all g rs q).0
  unfolding include_all
  include_all-Grown g [] q c = record { counts = omega arith; counted = c; reqnb_sum = omega arith }
  include_all-Grown g (r ∷ rs) q c =
      let next : Queued × ℕ = include_in_aggregation g r q in
      let ih : Grown w next.0 (total w rs) (length rs) (include_all next.1 rs next.0).0 =
        include_all-Grown next.1 rs next.0 (include-IsCounted g r q c) in
      record {
        counts = omega (arith, ih.counts, total-include g r q c w);
        counted = ih.counted;
        reqnb_sum = omega (arith, ih.reqnb_sum, reqnb-include g r q c);
      }

  pub join-Grown :
      (g : ℕ) (head tail : Queued)
      → IsCounted head
      → IsCounted tail
      → Grown w head (total w (requests tail)) tail.reqnb (join_aggregations g head tail).0
  unfolding join_aggregations
  join-Grown g head tail c d = elim (Bool-cases (tail.reqnb == 1)) [
    | inl one ↦
        let e : tail.reqnb ≡ 1 = ground arith in
        rw one (record {
          counts = ground (arith, total-include g tail.head head c w);
          counted = include-IsCounted g tail.head head c;
          reqnb_sum = omega (arith, reqnb-include g tail.head head c);
        })
    | inr other ↦
        let all : Grown w head (total w tail.reqs_list) (length tail.reqs_list)
            (include_all g tail.reqs_list head).0 =
          include_all-Grown g tail.reqs_list head c in
        rw other (record {
          counts = ground (arith, all.counts);
          counted = all.counted;
          reqnb_sum = ground (arith, all.reqnb_sum);
        })
  ]
