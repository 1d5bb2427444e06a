-- ===== src/Tests/Queues.antt =====
-- Runs of the operations on queues.
use agios.Common.{ℕ, ◌≤◌, ◌<◌, ◌≡◌, refl, ◌↔◌, ◌⊎◌, List, [], ◌∷◌, false, arith, All}
use agios.Request.{Request, Fields, Queued, rt_read, simple}
use agios.Aggregation.{include_in_aggregation}
use agios.Aggregation.Contents.{weight}
use agios.Aggregation.Insertion.{Fits}
use agios.Aggregation.Extent.{Covers, include-Covers_iff}
use agios.QueueInsert.{enters_itself, queue_insert}
use agios.QueueInsert.Laws.{queue_insert-weight}
use agios.State.{Context, ok}
use agios.Tests.{read_at, two_reads}

abbrev pub third : Queued
third = simple (read_at 8 4 3 12)

abbrev pub count : Request → ℕ
count r = 1

queue_insert-weight_example :
    (r : List Queued × ℕ) × (queue_insert 16 3 third (two_reads ∷ []) ≡ ok r)
    × (weight count r.0 ≡ 3)
    × All (Fits 16) r.0
unfolding enters_itself
queue_insert-weight_example =
    queue_insert-weight count 16 3 third (two_reads ∷ []) refl (refl, omega arith)
      ((refl, omega arith), tt)

abbrev pub context : ℕ → Context
context alg = record {
  current_alg = alg;
  max_aggreg_size = 16;
  needs_hashtable = false;
  config_sw_size = 1000;
  config_trace_agios = false;
}

abbrev pub fields : Fields
fields = record {
  file_id = 97 ∷ [];
  type = rt_read;
  offset = 0;
  len = 4;
  identifier = 10;
  arrival_time = 1;
  queue_id = 0;
}

-- The second part does not lie behind the first, and neither is covered.
include-Covers_example :
    (Covers (include_in_aggregation 2 (read_at 4 4 3 12) two_reads).0 0 8
      × Covers (include_in_aggregation 2 (read_at 4 4 3 12) two_reads).0 4 4)
    ↔ (((4 ≤ 0) × (8 ≤ 8)) ⊎ ((0 < 4) × (8 ≤ 8)))
include-Covers_example = include-Covers_iff 2 (read_at 4 4 3 12) two_reads
