-- ===== src/Aggregation.antt =====
-- The aggregation of contiguous requests: src/agios_add_request.c and the macro CHECK_AGGREGATE of
-- src/agios_add_request.h. Each function takes and returns `g_last_timestamp`, which the
-- construction of a virtual request advances. `malloc` succeeds here: the code does not check it.
pub mod Contents
pub mod Insertion
pub mod Extent
pub mod Order
use agios.Common.{
  ℕ, ◌+◌, ◌-◌, ◌%◌, ◌^◌, List, [], ◌∷◌, ◌++◌, Bool, true, false, ◌&&◌, ltb, leb, ◌==◌,
  if◌then◌else◌,
}
use agios.Request.{Request, Queued, fill_request}

-- `CHECK_AGGREGATE(req, nextreq)`.
abbrev pub check_aggregate : Queued → Queued → Bool
check_aggregate req next = leb req.offset next.offset && leb next.offset (req.offset + req.len)

-- The virtual request that takes the place of a simple one.
unfoldable pub make_virtual_request : ℕ → Request → Queued × ℕ
unfolding fill_request
make_virtual_request g aggregation_head =
    let (newreq, g') = fill_request g (record {
      file_id = aggregation_head.file_id;
      type = aggregation_head.type;
      offset = aggregation_head.offset;
      len = aggregation_head.len;
      identifier = 0;
      arrival_time = aggregation_head.arrival_time;
      queue_id = aggregation_head.queue_id;
    }) in
    (
      record {
        head = record newreq {
          sched_factor = aggregation_head.sched_factor;
          timestamp = aggregation_head.timestamp;
        };
        reqnb = 1;
        reqs_list = aggregation_head ∷ [];
      },
      g',
    )

-- The part of `include_in_aggregation` behind the making of the virtual request.
unfoldable pub add_to_virtual : Request → Queued → Queued
add_to_virtual req agg_req = record agg_req {
  head = record (agg_req.head) {
    arrival_time =
        if ltb req.arrival_time agg_req.arrival_time
        then req.arrival_time
        else agg_req.arrival_time;
    offset = if leb req.offset agg_req.offset then req.offset else agg_req.offset;
    len =
        if leb req.offset agg_req.offset
        then agg_req.len + (agg_req.offset - req.offset)
        else (agg_req.len + (req.offset + req.len)) - (agg_req.offset + agg_req.len);
    sched_factor = (agg_req.sched_factor + req.sched_factor) % 2 ^ 32;
    timestamp = if ltb req.timestamp agg_req.timestamp then req.timestamp else agg_req.timestamp;
  };
  reqnb = agg_req.reqnb + 1;
  reqs_list =
      if leb req.offset agg_req.offset
      then req ∷ agg_req.reqs_list
      else agg_req.reqs_list ++ req ∷ [];
}

unfoldable pub include_in_aggregation : ℕ → Request → Queued → Queued × ℕ
unfolding make_virtual_request add_to_virtual
include_in_aggregation g req agg_req =
    let (agg, g') =
      if agg_req.reqnb == 1 then make_virtual_request g agg_req.head else (agg_req, g) in
    (add_to_virtual req agg, g')

-- The loop of `join_aggregations` over the sub-requests of `tail`.
unfoldable pub include_all : ℕ → List Request → Queued → Queued × ℕ
unfolding include_in_aggregation
include_all g [] head = (head, g)
include_all g (r ∷ rs) head =
    let (head', g') = include_in_aggregation g r head in include_all g' rs head'

unfoldable pub join_aggregations : ℕ → Queued → Queued → Queued × ℕ
unfolding include_in_aggregation include_all
join_aggregations g head tail =
    if tail.reqnb == 1
    then include_in_aggregation g tail.head head
    else include_all g tail.reqs_list head

-- A queue cut at an insertion place: what stands before it, the nearest first, and behind it.
pub record Place : Type 0 where
  pub before : List Queued
  pub after : List Queued

-- What `insert_aggregations` leaves: its result, the queue, the request and the counter.
pub record Inserted : Type 0 where
  pub aggregated : Bool
  pub place : Place
  pub req : Queued
  pub last_timestamp : ℕ

-- The tests for an aggregation of two neighbours.
abbrev pub can_aggregate : ℕ → Queued → Queued → Bool
can_aggregate max_aggreg_size first second =
    check_aggregate first second && leb (first.reqnb + second.reqnb) max_aggreg_size

-- The new request went into `prev`: join `prev` with the next one too, if they became contiguous.
unfoldable pub join_next : ℕ → ℕ → Queued → List Queued → List Queued → Queued → Inserted
unfolding join_aggregations
join_next max g prev rest [] req = record {
  aggregated = true;
  place = record { before = prev ∷ rest; after = [] };
  req = req;
  last_timestamp = g;
}
join_next max g prev rest (next ∷ more) req =
    if can_aggregate max prev next
    then (let (joined, g') = join_aggregations g prev next in
        record {
          aggregated = true;
          place = record { before = joined ∷ rest; after = more };
          req = req;
          last_timestamp = g';
        })
    else record {
      aggregated = true;
      place = record { before = prev ∷ rest; after = next ∷ more };
      req = req;
      last_timestamp = g;
    }

-- The second half of `insert_aggregations`: the request could not join the previous one. A virtual
-- request takes the next one, which leaves the queue, and is still to be inserted by the caller.
unfoldable pub aggregate_next : ℕ → ℕ → Queued → List Queued → List Queued → Inserted
unfolding include_in_aggregation join_aggregations
aggregate_next max g req before [] = record {
  aggregated = false;
  place = record { before = before; after = [] };
  req = req;
  last_timestamp = g;
}
aggregate_next max g req before (next ∷ more) =
    if can_aggregate max req next
    then (if ltb 1 req.reqnb
        then (let (joined, g') = join_aggregations g req next in
            record {
              aggregated = false;
              place = record { before = before; after = more };
              req = joined;
              last_timestamp = g';
            })
        else (let (next', g') = include_in_aggregation g req.head next in
            record {
              aggregated = true;
              place = record { before = before; after = next' ∷ more };
              req = req;
              last_timestamp = g';
            }))
    else record {
      aggregated = false;
      place = record { before = before; after = next ∷ more };
      req = req;
      last_timestamp = g;
    }

-- The first half: join the previous request, if there is one that is contiguous.
unfoldable pub insert_aggregations : ℕ → ℕ → Queued → List Queued → List Queued → Inserted
unfolding include_in_aggregation join_aggregations join_next aggregate_next
insert_aggregations max g req [] after = aggregate_next max g req [] after
insert_aggregations max g req (prev ∷ rest) after =
    if can_aggregate max prev req
    then (let (prev', g') =
          if ltb 1 req.reqnb
          then join_aggregations g prev req
          else include_in_aggregation g req.head prev in
        join_next max g' prev' rest after req)
    else aggregate_next max g req (prev ∷ rest) after
