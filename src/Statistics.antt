-- ===== src/Statistics.antt =====
-- src/statistics.c: what is counted at each arrival, for one queue and for all.
use agios.Common.{ℕ, ◌+◌, ◌-◌, Option, none, some, Bool, true, false, ltb, if◌then◌else◌}
use agios.Common.Int.{ℤ, pos, negsuc, ◌+ℤ◌, ◌-ℤ◌, ltb_ℤ, pos_part}
use agios.Request.{Request, RequestType, rt_read, rt_write, Queue, Timespec, init_queue_statistics}
use agios.CommonFunctions.{get_timespec2long, get_long2timespec, update_iterative_average}

-- An average over a count that the code keeps in a signed counter.
abbrev pub average : ℤ → ℤ → ℤ → ℤ
average avg value count = update_iterative_average avg value (pos_part count)

-- `last_req_time` is not initialised: it is read only when it has been set, as the test says. The
-- model takes the time 0 where the code would read what is in memory.
abbrev pub last_time : Option Timespec → ℕ
last_time none = 0
last_time (some t) = get_timespec2long t

abbrev distance : ℕ → ℕ → ℤ
distance a b = if ltb a b then pos (b - a) else pos (a - b)

-- `stats` is the statistics of the queue that the request is for.
unfoldable pub update_local_stats : Queue → Request → Queue
unfolding update_iterative_average
update_local_stats q req =
    let second : Bool = ltb_ℤ (pos 1) q.stats.receivedreq_nb in
    let before : ℤ = q.stats.receivedreq_nb -ℤ pos 1 in
    record q {
      stats = record (q.stats) {
        avg_time_between_requests =
            if second
            then average q.stats.avg_time_between_requests
                (pos req.arrival_time -ℤ pos (last_time q.last_req_time)) before
            else q.stats.avg_time_between_requests;
        avg_distance =
            if second
            then average q.stats.avg_distance (distance req.offset q.last_received_finaloffset)
                before
            else q.stats.avg_distance;
        avg_req_size = average q.stats.avg_req_size (pos req.len) q.stats.receivedreq_nb;
      };
      last_req_time = some (get_long2timespec req.arrival_time);
      last_received_finaloffset = req.offset + req.len;
    }

-- `struct global_statistics_t`, with the variable `last_req` beside it.
pub record GlobalStatistics : Type 0 where
  pub total_reqnb : ℤ
  pub reads : ℤ
  pub writes : ℤ
  pub avg_time_between_requests : ℤ
  pub avg_request_size : ℤ
  pub last_req : Timespec

abbrev is_read : RequestType → Bool
is_read rt_read = true
is_read rt_write = false

unfoldable pub update_global_stats_newreq : GlobalStatistics → Request → GlobalStatistics
update_global_stats_newreq stats req =
    let total : ℤ = stats.total_reqnb +ℤ pos 1 in
    record {
      total_reqnb = total;
      reads = if is_read req.type then stats.reads +ℤ pos 1 else stats.reads;
      writes = if is_read req.type then stats.writes else stats.writes +ℤ pos 1;
      avg_time_between_requests =
          if ltb_ℤ (pos 1) total
          then average stats.avg_time_between_requests
              (pos req.arrival_time -ℤ pos (get_timespec2long stats.last_req)) (total -ℤ pos 1)
          else stats.avg_time_between_requests;
      avg_request_size = average stats.avg_request_size (pos req.len) total;
      last_req = get_long2timespec req.arrival_time;
    }

-- The part of `statistics_newreq` that concerns the queue.
unfoldable pub queue_newreq : Queue → Request → Queue
unfolding update_local_stats
queue_newreq q req =
    update_local_stats
      (record q { stats = record (q.stats) { receivedreq_nb = q.stats.receivedreq_nb +ℤ pos 1 } })
      req

unfoldable pub reset_global_stats : GlobalStatistics → GlobalStatistics
reset_global_stats stats = record stats {
  total_reqnb = pos 0;
  reads = pos 0;
  writes = pos 0;
  avg_time_between_requests = negsuc 0;
  avg_request_size = negsuc 0;
}

unfoldable pub reset_stats_queue : Queue → Queue
unfolding init_queue_statistics
reset_stats_queue queue = record queue {
  stats = record init_queue_statistics { avg_agg_size = some (negsuc 0) };
}

-- The average size of aggregations is not initialised with the queue; the first update does not read
-- it.
abbrev agg_average : Option ℤ → ℤ
agg_average none = pos 0
agg_average (some a) = a

unfoldable pub stats_aggregation : Queue → Queue
stats_aggregation related =
    if ltb 1 related.lastaggregation
    then (let aggs : ℤ = related.stats.aggs_no +ℤ pos 1 in
        record related {
          stats = record (related.stats) {
            aggs_no = aggs;
            avg_agg_size = some (
                average (agg_average related.stats.avg_agg_size) (pos related.lastaggregation)
                  aggs);
          };
          best_agg =
              if ltb related.best_agg related.lastaggregation
              then related.lastaggregation
              else related.best_agg;
        })
    else related
