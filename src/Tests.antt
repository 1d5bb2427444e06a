-- ===== src/Tests.antt =====
-- Runs of the model on small inputs, where the hypotheses of the results hold.
mod Queues
mod Tables
mod Loops
mod Servers
mod Thread
mod Runs
mod Traces
use agios.Common.{ℕ, List, [], ◌∷◌, none}
use agios.Request.{Request, RequestType, rt_read, Queued}

-- Reads of the file "a".
abbrev pub read_at : (offset len timestamp user_id : ℕ) → Request
read_at offset len timestamp user_id = record {
  file_id = 97 ∷ [];
  arrival_time = timestamp;
  dispatch_timestamp = none;
  type = rt_read;
  offset = offset;
  len = len;
  queue_id = 0;
  sw_priority = none;
  user_id = user_id;
  sched_factor = 0;
  timestamp = timestamp;
}

-- Two reads of 4 bytes at 0 and 4, aggregated.
abbrev pub two_reads : Queued
two_reads = record {
  head = read_at 0 8 1 0;
  reqnb = 2;
  reqs_list = read_at 0 4 1 10 ∷ read_at 4 4 2 11 ∷ [];
}
