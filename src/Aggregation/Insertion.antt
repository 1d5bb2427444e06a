-- ===== src/Aggregation/Insertion.antt =====
-- `insert_aggregations` (src/agios_add_request.c) loses and invents no request, and respects
-- `max_aggreg_size`.
use agios.Common.{
  ℕ, ◌+◌, ◌≤◌, ◌≡◌, ◌⊎◌, inl, inr, List, [], ◌∷◌, true, false, arith, ltb, if◌then◌else◌, total,
  All, Bool-cases,
}
use agios.Request.{Request, Queued}
use agios.Aggregation.{
  include_in_aggregation, join_aggregations, can_aggregate, Inserted, join_next, aggregate_next,
  insert_aggregations,
}
use agios.Aggregation.Contents.{
  requests, IsCounted, weight, total-include, include-IsCounted, reqnb-include, join-Grown,
}

-- A queued request that is counted, and not larger than the scheduler allows.
abbrev pub Fits : ℕ → Queued → Type 0
Fits max q = IsCounted q × (q.reqnb ≤ max)

can_aggregate-le : (max : ℕ) (a b : Queued) → can_aggregate max a b ≡ true → a.reqnb + b.reqnb ≤ max
can_aggregate-le max a b h = ground arith

-- What an insertion keeps: `counts` for the requests, and the bound for all that is left.
pub record Kept (w : Request → ℕ) (max sum : ℕ) (r : Inserted) : Type 0 where
  pub counts :
      weight w r.place.before
        + weight w r.place.after
        + (if r.aggregated then 0 else total w (requests r.req))
      ≡ sum
  pub before_fits : All (Fits max) r.place.before
  pub after_fits : All (Fits max) r.place.after
  pub req_fits : Fits max r.req

module _ (w : Request → ℕ) (max g : ℕ) where
  join-Fits :
      (a b : Queued)
      → Fits max a
      → Fits max b
      → can_aggregate max a b ≡ true
      → Fits max (join_aggregations g a b).0
        × (total w (requests (join_aggregations g a b).0)
            ≡ total w (requests a) + total w (requests b))
  join-Fits a b fa fb h =
      let all = join-Grown w g a b fa.0 fb.0 in
      ((all.counted, omega (arith, all.reqnb_sum, can_aggregate-le max a b h)), all.counts)

  join_next-Kept :
      (prev : Queued) (rest after : List Queued) (req : Queued)
      → Fits max prev
      → All (Fits max) rest
      → All (Fits max) after
      → Fits max req
      → Kept w max
          (total w (requests prev) + weight w rest + weight w after)
          (join_next max g prev rest after req)
  unfolding join_next
  join_next-Kept prev rest [] req fp fr fa f = record {
    counts = omega arith;
    before_fits = (fp, fr);
    after_fits = tt;
    req_fits = f;
  }
  join_next-Kept prev rest (next ∷ more) req fp fr fa f =
      elim (Bool-cases (can_aggregate max prev next)) [
        | inl h ↦
            let j = join-Fits prev next fp fa.0 h in
            rw h (record {
              counts = omega (arith, j.1);
              before_fits = (j.0, fr);
              after_fits = fa.1;
              req_fits = f;
            })
        | inr h ↦
            rw h (record {
              counts = omega arith;
              before_fits = (fp, fr);
              after_fits = fa;
              req_fits = f;
            })
      ]

  include-Fits :
      (a b : Queued)
      → Fits max a
      → Fits max b
      → ltb 1 a.reqnb ≡ false
      → (can_aggregate max a b ≡ true) ⊎ (can_aggregate max b a ≡ true)
      → Fits max (include_in_aggregation g a.head b).0
        × (total w (requests (include_in_aggregation g a.head b).0)
            ≡ total w (requests b) + total w (requests a))
  include-Fits a b fa fb one h = (
    (include-IsCounted g a.head b fb.0, ground (arith, reqnb-include g a.head b fb.0)),
    ground (arith, total-include g a.head b fb.0 w),
  )

  aggregate_next-Kept :
      (req : Queued) (before after : List Queued)
      → Fits max req
      → All (Fits max) before
      → All (Fits max) after
      → Kept w max
          (weight w before + weight w after + total w (requests req))
          (aggregate_next max g req before after)
  unfolding aggregate_next
  aggregate_next-Kept req before [] f fb fa = record {
    counts = omega arith;
    before_fits = fb;
    after_fits = tt;
    req_fits = f;
  }
  aggregate_next-Kept req before (next ∷ more) f fb fa =
      elim (Bool-cases (can_aggregate max req next)) [
        | inr h ↦
            rw h (record { counts = omega arith; before_fits = fb; after_fits = fa; req_fits = f })
        | inl h ↦ elim (Bool-cases (ltb 1 req.reqnb)) [
          | inl many ↦
              let j = join-Fits req next f fa.0 h in
              rw (h, many)
                (record {
                  counts = ground (arith, j.1);
                  before_fits = fb;
                  after_fits = fa.1;
                  req_fits = j.0;
                })
          | inr one ↦
              let j = include-Fits req next f fa.0 one (inl h) in
              rw (h, one)
                (record {
                  counts = ground (arith, j.1);
                  before_fits = fb;
                  after_fits = (j.0, fa.1);
                  req_fits = f;
                })
        ]
      ]

-- Whatever is aggregated, every request that was in the queue or arrives is there afterwards, as
-- often as before, and no virtual request exceeds `max_aggreg_size`.
pub insert_aggregations-Kept :
    (w : Request → ℕ) (max g : ℕ) (req : Queued) (before after : List Queued)
    → Fits max req
    → All (Fits max) before
    → All (Fits max) after
    → Kept w max
        (weight w before + weight w after + total w (requests req))
        (insert_aggregations max g req before after)
unfolding insert_aggregations
insert_aggregations-Kept w max g req [] after f fb fa =
    aggregate_next-Kept w max g req [] after f fb fa
insert_aggregations-Kept w max g req (prev ∷ rest) after f fb fa =
    elim (Bool-cases (can_aggregate max prev req)) [
      | inr h ↦ rw h (aggregate_next-Kept w max g req (prev ∷ rest) after f fb fa)
      | inl h ↦ elim (Bool-cases (ltb 1 req.reqnb)) [
        | inl many ↦
            let j = join-Fits w max g prev req fb.0 f h in
            let k =
              join_next-Kept w max (join_aggregations g prev req).1 (join_aggregations g prev req).0
                rest after req j.0 fb.1 fa f in
            rw (h, many)
              (record {
                counts = ground (arith, j.1, k.counts);
                before_fits = k.before_fits;
                after_fits = k.after_fits;
                req_fits = k.req_fits;
              })
        | inr one ↦
            let j = include-Fits w max g req prev f fb.0 one (inr h) in
            let k =
              join_next-Kept w max (include_in_aggregation g req.head prev).1
                (include_in_aggregation g req.head prev).0 rest after req j.0 fb.1 fa f in
            rw (h, one)
              (record {
                counts = ground (arith, j.1, k.counts);
                before_fits = k.before_fits;
                after_fits = k.after_fits;
                req_fits = k.req_fits;
              })
      ]
    ]
