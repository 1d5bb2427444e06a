-- ===== src/QueueInsert.antt =====
-- The insertion of a request in a queue of the hash table: the second half of `hashtable_add_req`
-- (src/req_hashtable.c).
pub mod Laws
use agios.Common.{
  ℕ, ◌+◌, List, [], ◌∷◌, Bool, true, false, ◌&&◌, ◌||◌, not, ltb, ◌==◌, if◌then◌else◌,
}
use agios.Request.{Request, Queued}
use agios.Aggregation.{Place, Inserted, can_aggregate, insert_aggregations}
use agios.State.{Outcome, ok, fault}

-- The first request that the new one must stand before: by offset, then by length.
abbrev pub stands_behind : Queued → Queued → Bool
stands_behind tmp req =
    ltb req.offset tmp.offset || (tmp.offset == req.offset && ltb req.len tmp.len)

-- The search for the insertion place; what was passed is collected in reverse.
unfoldable pub find_place : Queued → List Queued → List Queued → Place
find_place req before [] = record { before = before; after = [] }
find_place req before (tmp ∷ rest) =
    if stands_behind tmp req
    then record { before = before; after = tmp ∷ rest }
    else find_place req (tmp ∷ before) rest

unfoldable pub rewind : List Queued → List Queued → List Queued
rewind [] after = after
rewind (q ∷ before) after = rewind before (q ∷ after)

-- The queue once the request is in it, aggregated or on its own.
abbrev pub settled : Inserted → List Queued
settled r = rewind r.place.before (if r.aggregated then r.place.after else r.req ∷ r.place.after)

abbrev pub joins_previous : (max_aggreg_size : ℕ) → Queued → (before : List Queued) → Bool
joins_previous max req [] = false
joins_previous max req (prev ∷ rest) = can_aggregate max prev req

abbrev pub joins_next : (max_aggreg_size : ℕ) → Queued → (after : List Queued) → Bool
joins_next max req [] = false
joins_next max req (next ∷ more) = can_aggregate max req next

-- A virtual request, which only a migration inserts, may take the next one among its parts, where it
-- cannot join the previous one. The next one is then no longer in the queue, but the code still puts
-- the request in front of it: in its own list of parts, or through what was freed.
unfoldable pub enters_itself : (max_aggreg_size : ℕ) → Queued → List Queued → Bool
unfolding find_place
enters_itself max req queue =
    let p : Place = find_place req [] queue in
    ltb 1 req.reqnb && (not (joins_previous max req p.before) && joins_next max req p.after)

-- The queue, and `g_last_timestamp`, where the place of the request is still in the queue.
unfoldable pub with_request : ℕ → ℕ → Queued → List Queued → List Queued × ℕ
unfolding find_place insert_aggregations rewind
with_request max g req queue =
    let p : Place = find_place req [] queue in
    let r : Inserted = insert_aggregations max g req p.before p.after in
    (settled r, r.last_timestamp)

-- The queue, and `g_last_timestamp`, after the insertion.
unfoldable pub queue_insert : ℕ → ℕ → Queued → List Queued → Outcome (List Queued × ℕ)
unfolding enters_itself with_request
queue_insert max g req queue =
    if enters_itself max req queue then fault else ok (with_request max g req queue)
