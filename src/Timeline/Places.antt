-- ===== src/Timeline/Places.antt =====
-- Where src/req_timeline.c puts a request in the timeline, and what it keeps.
use agios.Common.{
  ℕ, ◌+◌, ◌≡◌, ◌≢◌, refl, inl, inr, List, [], ◌∷◌, Option, none, some, Bool, false, ◌&&◌, ◌||◌, not,
  arith, ltb, ◌==◌, if◌then◌else◌, total, All, All-append, Bool-cases,
}
use mathlib.Core.Path.{subst}
use agios.Common.Int.{ℤ, ltb_ℤ}
use agios.Request.{Request, Queued}
use agios.Aggregation.Contents.{
  requests, IsCounted, weight, weight-append, total-include, include-IsCounted,
}
use agios.Schedulers.{toagg_scheduler, sw_scheduler, noop_scheduler}
use agios.State.{Outcome, ok, fault, Ensures, Context, State}
use agios.Timeline.{
  sw_priority_of, sw_insert, consed, takes, kept_first, toagg_join, by_timestamp, place_single,
  aggregated_or, with_counter, timeline_place, uses_multi_timeline, left_out, timeline_enter,
}

-- The queue holds the requests of `before` and `more` others, as often as before.
abbrev pub Gains : (Request → ℕ) → List Queued → ℕ → List Queued → Type 0
Gains w before more after = (weight w after ≡ weight w before + more) × All IsCounted after

module _ (w : Request → ℕ) (req : Queued) (counted : IsCounted req) where
  by_timestamp-Gains :
      (queue : List Queued)
      → All IsCounted queue
      → Gains w queue (total w (requests req)) (by_timestamp req queue)
  unfolding by_timestamp
  by_timestamp-Gains [] h = (omega arith, (counted, tt))
  by_timestamp-Gains (tmp ∷ rest) h = elim (Bool-cases (ltb req.timestamp tmp.timestamp)) [
    | inl here ↦ rw here (omega arith, (counted, h))
    | inr on ↦ let ih = by_timestamp-Gains rest h.1 in rw on (omega (arith, ih.0), (h.0, ih.1))
  ]

  consed-Gains :
      (tmp : Queued) (rest : List Queued) (o : Outcome (List Queued))
      → IsCounted tmp
      → Ensures (Gains w rest (total w (requests req))) o
      → Ensures (Gains w (tmp ∷ rest) (total w (requests req))) (consed tmp o)
  consed-Gains tmp rest fault c h = tt
  consed-Gains tmp rest (ok qs) c h = (omega (arith, h.0), (c, h.1))

  sw_insert-Gains :
      (priority : ℤ) (queue : List Queued)
      → All IsCounted queue
      → Ensures (Gains w queue (total w (requests req))) (sw_insert priority req queue)
  unfolding sw_insert
  sw_insert-Gains priority [] h = (omega arith, (counted, tt))
  sw_insert-Gains priority (tmp ∷ rest) h = at tmp.sw_priority (sw_insert-Gains priority rest h.1)
    where
      at :
          (o : Option ℤ)
          → Ensures (Gains w rest (total w (requests req))) (sw_insert priority req rest)
          → Ensures (Gains w (tmp ∷ rest) (total w (requests req))) (elim o [
            | none ↦ fault
            | some q ↦
                let further = sw_insert priority req rest in
                if ltb_ℤ priority q then ok (req ∷ tmp ∷ rest) else consed tmp further
          ])
      at none ih = tt
      at (some q) ih = elim (Bool-cases (ltb_ℤ priority q)) [
        | inl here ↦ rw here (omega arith, (counted, h))
        | inr on ↦ rw on (consed-Gains tmp rest (sw_insert priority req rest) h.0 ih)
      ]

  abbrev JoinGains : List Queued → Option (List Queued × ℕ) → Type 0
  JoinGains queue none = Unit
  JoinGains queue (some (qs, g)) = Gains w queue (total w (requests req)) qs

  kept_first-Gains :
      (tmp : Queued) (rest : List Queued) (o : Option (List Queued × ℕ))
      → IsCounted tmp
      → JoinGains rest o
      → JoinGains (tmp ∷ rest) (kept_first tmp o)
  kept_first-Gains tmp rest none c h = tt
  kept_first-Gains tmp rest (some (qs, g)) c h = (omega (arith, h.0), (c, h.1))

  -- For a simple request, which is all that the model aggregates here.
  toagg_join-Gains :
      (max g : ℕ) (queue : List Queued)
      → req.reqnb ≡ 1
      → All IsCounted queue
      → JoinGains queue (toagg_join max g req queue)
  unfolding toagg_join
  toagg_join-Gains max g [] one h = tt
  toagg_join-Gains max g (tmp ∷ rest) one h = elim (Bool-cases (takes max req tmp)) [
    | inl hit ↦
        rw (hit, toagg_join)
          (
            ground (arith, total-include g req.head tmp h.0 w),
            (include-IsCounted g req.head tmp h.0, h.1),
          )
    | inr miss ↦
        rw (miss, toagg_join)
          (kept_first-Gains tmp rest (toagg_join max g req rest) h.0
            (toagg_join-Gains max g rest one h.1))
  ]

  place_single-Gains :
      (ctx : Context) (given : Bool) (queue : List Queued)
      → All IsCounted queue
      → Gains w queue (total w (requests req)) (place_single ctx given req queue)
  place_single-Gains ctx given queue h =
      elim (Bool-cases (not given || ctx.current_alg == noop_scheduler)) [
        | inl last ↦ rw last (
          omega (arith, weight-append w queue (req ∷ [])),
          All-append IsCounted queue (req ∷ []) h (counted, tt),
        )
        | inr sorted ↦ rw sorted (by_timestamp-Gains queue h)
      ]

  with_counter-Gains :
      (g : ℕ) (queue : List Queued) (o : Outcome (List Queued))
      → Ensures (Gains w queue (total w (requests req))) o
      → Ensures (λ r. Gains w queue (total w (requests req)) r.0) (with_counter g o)
  with_counter-Gains g queue fault h = tt
  with_counter-Gains g queue (ok qs) h = h

  aggregated-Gains :
      (queue : List Queued) (o : Option (List Queued × ℕ)) (other : List Queued × ℕ)
      → (req.reqnb ≡ 1 → JoinGains queue o)
      → Gains w queue (total w (requests req)) other.0
      → Ensures (λ r. Gains w queue (total w (requests req)) r.0) (aggregated_or req o other)
  aggregated-Gains queue none other h k = k
  aggregated-Gains queue (some found) other h k = elim (Bool-cases (req.reqnb == 1)) [
    | inl one ↦ rw one (h (ground arith))
    | inr many ↦ rw many tt
  ]

timeline_place-Gains :
    (w : Request → ℕ) (ctx : Context) (given : Bool) (g : ℕ) (req : Queued) (queue : List Queued)
    → IsCounted req
    → All IsCounted queue
    → Ensures
        (λ r. Gains w queue (total w (requests req)) r.0)
        (timeline_place ctx given g req queue)
unfolding timeline_place
timeline_place-Gains w ctx given g req queue c h =
    elim (Bool-cases (ctx.current_alg == sw_scheduler)) [
      | inl sw ↦ elim (Bool-cases (ctx.config_sw_size == 0)) [
        | inl zero_size ↦ rw (sw, zero_size) tt
        | inr size ↦
            rw (sw, size)
              (with_counter-Gains w req c g queue
                (sw_insert (sw_priority_of ctx.config_sw_size req.head) req queue)
                (sw_insert-Gains w req c (sw_priority_of ctx.config_sw_size req.head) queue h))
      ]
      | inr other ↦
          elim (Bool-cases (ctx.current_alg == toagg_scheduler && ltb 1 ctx.max_aggreg_size)) [
            | inl agg ↦
                rw (other, agg)
                  (aggregated-Gains w req c queue (toagg_join ctx.max_aggreg_size g req queue)
                    (place_single ctx given req queue, g)
                    (λ one. toagg_join-Gains w req c ctx.max_aggreg_size g queue one h)
                    (place_single-Gains w req c ctx given queue h))
            | inr single ↦ rw (other, single) (place_single-Gains w req c ctx given queue h)
          ]
    ]

aggregated_or-ok :
    (req : Queued) (o : Option (List Queued × ℕ)) (other : List Queued × ℕ)
    → req.reqnb ≡ 1
    → (r : List Queued × ℕ) × (aggregated_or req o other ≡ ok r)
aggregated_or-ok req none other one = (other, refl)
aggregated_or-ok req (some found) other one = (found, rw one refl)

placed :
    (ctx : Context) (given : Bool) (g : ℕ) (req : Queued) (queue : List Queued)
    → ctx.current_alg ≢ sw_scheduler
    → req.reqnb ≡ 1
    → (r : List Queued × ℕ) × (timeline_place ctx given g req queue ≡ ok r)
unfolding timeline_place
placed ctx given g req queue other one =
    let not_sw : (ctx.current_alg == sw_scheduler) ≡ false = ground arith in
    elim (Bool-cases (ctx.current_alg == toagg_scheduler && ltb 1 ctx.max_aggreg_size)) [
      | inl agg ↦
          let a =
            aggregated_or-ok req (toagg_join ctx.max_aggreg_size g req queue)
              (place_single ctx given req queue, g) one in
          (a.0, rw (not_sw, agg) (a.1))
      | inr single ↦ ((place_single ctx given req queue, g), rw (not_sw, single) refl)
    ]

pub place_lem :
    (w : Request → ℕ) (ctx : Context) (given : Bool) (g : ℕ) (req : Queued) (queue : List Queued)
    → ctx.current_alg ≢ sw_scheduler
    → req.reqnb ≡ 1
    → All IsCounted queue
    → (r : List Queued × ℕ) × (timeline_place ctx given g req queue ≡ ok r)
      × Gains w queue (total w (requests req)) r.0
place_lem w ctx given g req queue other one h =
    let p = placed ctx given g req queue other one in
    let c : IsCounted req = ground arith in
    (
      p.0,
      p.1,
      subst (Ensures (λ r. Gains w queue (total w (requests req)) r.0)) (p.1)
          (timeline_place-Gains w ctx given g req queue c h),
    )

-- For every algorithm but SW, TWINS and WFQ, and for NOOP only if the file was given, as in a
-- migration, a simple request that `__timeline_add_req` gets is in the queue afterwards, beside every
-- request that was there, each as often as before, on its own or aggregated; virtual requests still
-- count their parts, and of the rest of the state only `g_last_timestamp` may change.
pub timeline_place_lem :
    (w : Request → ℕ) (ctx : Context) (given : Bool) (req : Queued) (queue : List Queued)
    (s : State)
    → ctx.current_alg ≢ sw_scheduler
    → uses_multi_timeline ctx ≡ false
    → left_out ctx given ≡ false
    → req.reqnb ≡ 1
    → All IsCounted queue
    → (queue' : List Queued) × (g : ℕ) × (timeline_enter ctx given req queue s
        ≡ ok (queue', record s { g_last_timestamp = g }))
      × Gains w queue (total w (requests req)) queue'
unfolding timeline_enter
timeline_place_lem w ctx given req queue s not_sw one_queue enters one h =
    let ((queue', g), eq, gains) =
      place_lem w ctx given s.g_last_timestamp req queue not_sw one h in
    (queue', g, rw (timeline_enter, enters, one_queue, eq) refl, gains)
