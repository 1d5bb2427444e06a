-- ===== src/QueueInsert/Laws.antt =====
-- `hashtable_add_req` (src/req_hashtable.c) on one queue: no request is lost or invented, virtual
-- requests stay within their limit, and the queue stays in the order of offsets.
use agios.Common.{ℕ, ◌+◌, ◌≡◌, refl, false, inl, inr, List, [], ◌∷◌, arith, total, All, Bool-cases}
use agios.Request.{Request, Queued}
use agios.Aggregation.{Place, Inserted, insert_aggregations}
use agios.Aggregation.Contents.{requests, weight}
use agios.Aggregation.Insertion.{Fits, Kept, insert_aggregations-Kept}
use agios.State.{ok}
use agios.QueueInsert.{
  stands_behind, find_place, rewind, settled, enters_itself, with_request, queue_insert,
}

weight-rewind :
    (w : Request → ℕ) (before after : List Queued)
    → weight w (rewind before after) ≡ weight w before + weight w after
unfolding rewind
weight-rewind w [] after = omega arith
weight-rewind w (q ∷ before) after = omega (arith, weight-rewind w before (q ∷ after))

All-rewind {κ} :
    (P : Queued → Type κ) (before after : List Queued)
    → All P before
    → All P after
    → All P (rewind before after)
unfolding rewind
All-rewind P [] after hb ha = ha
All-rewind P (q ∷ before) after hb ha = All-rewind P before (q ∷ after) hb.1 (hb.0, ha)

find_place-weight :
    (w : Request → ℕ) (req : Queued) (before queue : List Queued)
    → let r = find_place req before queue in
      weight w r.before + weight w r.after ≡ weight w before + weight w queue
unfolding find_place
find_place-weight w req before [] = refl
find_place-weight w req before (tmp ∷ rest) = elim (Bool-cases (stands_behind tmp req)) [
  | inl stop ↦ rw stop refl
  | inr go ↦ rw go (omega (arith, find_place-weight w req (tmp ∷ before) rest))
]

find_place-All {κ} :
    (P : Queued → Type κ) (req : Queued) (before queue : List Queued)
    → All P before
    → All P queue
    → All P (find_place req before queue).before × All P (find_place req before queue).after
unfolding find_place
find_place-All P req before [] hb hq = (hb, tt)
find_place-All P req before (tmp ∷ rest) hb hq = elim (Bool-cases (stands_behind tmp req)) [
  | inl stop ↦ rw stop (hb, hq)
  | inr go ↦ rw go (find_place-All P req (tmp ∷ before) rest (hq.0, hb) hq.1)
]

settled-Kept :
    (w : Request → ℕ) (max sum : ℕ) (r : Inserted)
    → Kept w max sum r
    → (weight w (settled r) ≡ sum) × All (Fits max) (settled r)
settled-Kept w max sum r k = elim (Bool-cases r.aggregated) [
  | inl done ↦ rw done (
    ground (arith, k.counts, weight-rewind w r.place.before r.place.after),
    All-rewind (Fits max) r.place.before r.place.after k.before_fits k.after_fits,
  )
  | inr left ↦ rw left (
    ground (arith, k.counts, weight-rewind w r.place.before (r.req ∷ r.place.after)),
    All-rewind (Fits max) r.place.before (r.req ∷ r.place.after) k.before_fits
        (k.req_fits, k.after_fits),
  )
]

with_request-weight :
    (w : Request → ℕ) (max g : ℕ) (req : Queued) (queue : List Queued)
    → Fits max req
    → All (Fits max) queue
    → (weight w (with_request max g req queue).0 ≡ weight w queue + total w (requests req))
      × All (Fits max) (with_request max g req queue).0
unfolding with_request
with_request-weight w max g req queue f fq =
    let place : Place = find_place req [] queue in
    let a = find_place-All (Fits max) req [] queue tt fq in
    let k = insert_aggregations-Kept w max g req place.before place.after f a.0 a.1 in
    let done = settled-Kept w max _ (insert_aggregations max g req place.before place.after) k in
    (omega (arith, done.0, find_place-weight w req [] queue), done.1)

inserts :
    (max g : ℕ) (req : Queued) (queue : List Queued)
    → enters_itself max req queue ≡ false
    → queue_insert max g req queue ≡ ok (with_request max g req queue)
unfolding queue_insert
inserts max g req queue apart = rw apart refl

-- A simple request always has a place.
pub enters_itself-simple :
    (max : ℕ) (req : Queued) (queue : List Queued)
    → req.reqnb ≡ 1
    → enters_itself max req queue ≡ false
unfolding enters_itself
enters_itself-simple max req queue one = rw one refl

-- Unless the request is a virtual one that would be put in its own list of parts, the insertion
-- succeeds: every request that was in the queue or arrives is in the queue afterwards, as often as
-- before, whatever was aggregated; and no virtual request is larger than `max_aggreg_size`, if none
-- was.
pub queue_insert-weight :
    (w : Request → ℕ) (max g : ℕ) (req : Queued) (queue : List Queued)
    → enters_itself max req queue ≡ false
    → Fits max req
    → All (Fits max) queue
    → (r : List Queued × ℕ) × (queue_insert max g req queue ≡ ok r)
      × (weight w r.0 ≡ weight w queue + total w (requests req))
      × All (Fits max) r.0
queue_insert-weight w max g req queue apart f fq =
    let kept = with_request-weight w max g req queue f fq in
    (with_request max g req queue, inserts max g req queue apart, kept.0, kept.1)
