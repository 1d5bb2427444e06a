-- ===== src/DataStructures.antt =====
-- The start of the data structures (src/data_structures.c), and the reset of all statistics
-- (src/statistics.c).
pub mod Start
use agios.Common.{ℕ, List, Bool, true, false, map, if◌then◌else◌}
use agios.Common.Int.{pos}
use agios.Request.{File}
use agios.Statistics.{reset_global_stats, reset_stats_queue}
use agios.State.{State}
use agios.Hashtable.{hashtable_init}
use agios.Timeline.{timeline_init}

-- The outcomes of the calls of `malloc` at the start: for the queues of `multi_timeline`, and for the
-- three arrays of the hash table.
pub record StartMemory : Type 0 where
  pub queues : Bool
  pub lines : Bool
  pub locks : Bool
  pub counters : Bool

-- Both initialisations are tried in turn, and a failure ends the call.
unfoldable pub allocate_data_structures : StartMemory → (max_queue_id : ℕ) → State → Bool × State
unfolding reset_global_stats timeline_init hashtable_init
allocate_data_structures mem max_queue_id s =
    let t =
      timeline_init mem.queues max_queue_id
        (record s { global_stats = reset_global_stats s.global_stats }) in
    let h = hashtable_init mem.lines mem.locks mem.counters t.1 in
    if t.0
    then (if h.0
        then (true, record (h.1) { current_reqnb = pos 0; current_filenb = pos 0 })
        else (false, h.1))
    else (false, t.1)

unfoldable pub reset_file : File → File
unfolding reset_stats_queue
reset_file f = record f {
  read_queue = reset_stats_queue f.read_queue;
  write_queue = reset_stats_queue f.write_queue;
}

unfoldable pub reset_all_statistics : State → State
unfolding reset_file reset_global_stats
reset_all_statistics s = record s {
  hashlist = map (map reset_file) s.hashlist;
  global_stats = reset_global_stats s.global_stats;
}
