-- ===== src/Tests/Tables.antt =====
-- Runs of the operations on the tables, of the schedulers and of the steps that give requests back.
use agios.Common.{
  ℕ, ◌*◌, ◌^◌, ◌%◌, ◌≤◌, ◌<◌, ◌≡◌, refl, ◌⊎◌, List, [], ◌∷◌, map, none, some, Bool, true, false,
  if◌then◌else◌, arith, take,
}
use mathlib.Core.Option
use agios.Common.Int.{ℤ, pos, ◌+ℤ◌}
use agios.Common.Text.{codes}
use agios.Request.{FileId, File, Queued, Queue, Timespec, simple, file_constructor}
use agios.Lines.{lookup_file, find_req_file, idle_file, Rises}
use agios.Lines.Search.{Finds, find_req_file_lem}
use agios.Performance.{
  PerformanceEntry, Performance, new_entry, performance_set_new_algorithm,
  performance_set_new_algorithm_lem,
}
use agios.State.{State, ok}
use agios.Process.{ProcessingInfo, Callback}
use agios.Process.Delivery.{delivered}
use agios.Waiting.{call_step2_for_info_list}
use agios.Waiting.Steps.{stops, until_stop, call_step2_for_info_list_lem}
use agios.Mlf.{fits_quantum, apply_mlf_on_list}
use agios.Mlf.Choice.{first_fitting, visited, apply_mlf_on_list_lem, fits_quantum-visited}
use agios.Waiting.{increment_sched_factor}
use agios.Schedulers.{max_aggreg_size_default, to_scheduler, timeorder, Scheduler}
use agios.Aioli.{adjust_quantum}
use agios.Aioli.Quantum.{adjust_quantum_bounds}
use agios.Sjf.{Best, sjf_get_shortest_job}
use agios.Sjf.Shortest.{Least, sjf_get_shortest_job_lem}
use agios.Sjf.Jobs.{jobs, shortest, busy_table}
use agios.Hash.{
  hash_entries, calculate_hash, shr_signed, get_hashtable_position, calculate_hash-eq-mul,
  get_hashtable_position-le,
}
use agios.Tests.{read_at, two_reads}

abbrev pub queue : List Queued → ℤ → Queue
queue list size = record {
  list = list;
  dispatch = [];
  laststartoff = 0;
  lastfinaloff = 0;
  predictedoff = 0;
  nextquantum = 0;
  shift_phenomena = 0;
  better_aggregation = 0;
  stats = record {
    processedreq_nb = pos 0;
    receivedreq_nb = pos 0;
    processed_req_size = pos 0;
    processed_bandwidth = pos 0;
    releasedreq_nb = pos 0;
    avg_req_size = pos 0;
    avg_time_between_requests = pos 0;
    avg_distance = pos 0;
    aggs_no = pos 0;
    avg_agg_size = none;
  };
  current_size = size;
  lastaggregation = 0;
  best_agg = 0;
  last_req_time = none;
  last_received_finaloffset = 0;
}

abbrev pub file : (id : FileId) → (reads writes : Queue) → File
file id reads writes = record {
  file_id = id;
  read_queue = reads;
  write_queue = writes;
  timeline_reqnb = pos 2;
  waiting_time = 0;
  waiting_start = none;
  first_request_time = 0;
}

abbrev pub file_a : File
file_a = file (97 ∷ []) (queue (two_reads ∷ []) (pos 8)) (queue [] (pos 0))

abbrev file_b : File
file_b = file (98 ∷ []) (queue (simple (read_at 0 4 3 12) ∷ []) (pos 4)) (queue [] (pos 0))

find_req_file_example :
    (line' : List File) × (filenb' : ℤ) × (find_req_file true true (file_a ∷ []) (98 ∷ []) (pos 1)
      ≡ some (line', filenb'))
    × Rises line'
    × Finds (98 ∷ []) (file_constructor true true (98 ∷ [])) (file_a ∷ []) line'
    × (filenb' ≡ (if idle_file (lookup_file (98 ∷ []) line') then pos 2 else pos 1))
unfolding ◌+ℤ◌
find_req_file_example = find_req_file_lem (98 ∷ []) (file_a ∷ []) (pos 1) tt

sjf_get_shortest_job_example :
    (r : Best) × (sjf_get_shortest_job (pos 2) ((file_a ∷ []) ∷ (file_b ∷ []) ∷ []) ≡ ok r)
    × (r.chosen_queue
        ≡ Option.map (λ j. j.queue) (shortest (jobs 0 ((file_a ∷ []) ∷ (file_b ∷ []) ∷ []))))
    × Least
        (shortest (jobs 0 ((file_a ∷ []) ∷ (file_b ∷ []) ∷ [])))
        (jobs 0 ((file_a ∷ []) ∷ (file_b ∷ []) ∷ []))
unfolding busy_table jobs
sjf_get_shortest_job_example =
    sjf_get_shortest_job_lem ((file_a ∷ []) ∷ (file_b ∷ []) ∷ [])
      (((λ h. refl), tt), ((λ h. refl, tt), tt)) (refl, (refl, tt))

abbrev pub entry : ℕ → PerformanceEntry
entry t = record { timestamp = t; alg = 2; bandwidth = pos 0; size = pos 0; reqnb = pos 0 }

abbrev performance : Performance
performance = record {
  performance_info = entry 30 ∷ entry 20 ∷ entry 10 ∷ [];
  performance_info_len = 3;
  agios_processed_reqnb = pos 5;
}

abbrev now : Timespec
now = record { tv_sec = 1; tv_nsec = 500 }

performance_set_new_algorithm_example :
    performance_set_new_algorithm true (pos 2) now 4 performance
    ≡ some (
      true,
      record {
        performance_info = take 2 (new_entry now 4 ∷ performance.performance_info);
        performance_info_len = 2;
        agios_processed_reqnb = pos 0;
      },
    )
performance_set_new_algorithm_example = performance_set_new_algorithm_lem 2 now 4 performance refl

abbrev pub state : State
state = record {
  hashlist = (file_a ∷ []) ∷ [];
  hashlist_reqcounter = pos 2 ∷ [];
  timeline = [];
  multi_timeline = [];
  current_reqnb = pos 2;
  current_filenb = pos 1;
  g_last_timestamp = 2;
  global_stats = record {
    total_reqnb = pos 2;
    reads = pos 2;
    writes = pos 0;
    avg_time_between_requests = pos 1;
    avg_request_size = pos 4;
    last_req = now;
  };
  performance = performance;
  traced = [];
}

abbrev infos : List (ProcessingInfo × Bool)
infos =
    (record { user_ids = 10 ∷ 11 ∷ []; reqnb = 2 }, true)
    ∷ (record { user_ids = 12 ∷ []; reqnb = 1 }, false)
    ∷ []

-- The second structure is never given to the user.
call_step2_for_info_list_example :
    (cs : List Callback) × (call_step2_for_info_list false infos ≡ ok (cs, true))
    × (delivered cs ≡ 10 ∷ 11 ∷ [])
unfolding stops until_stop
call_step2_for_info_list_example =
    call_step2_for_info_list_lem false infos ((refl, omega arith), ((refl, omega arith), tt))

apply_mlf_on_list_example :
    apply_mlf_on_list 4 (queue (two_reads ∷ simple (read_at 8 4 3 12) ∷ []) (pos 12)) ≡ (
      queue (map increment_sched_factor (two_reads ∷ simple (read_at 8 4 3 12) ∷ [])) (pos 12),
      first_fitting 4 (map increment_sched_factor (two_reads ∷ simple (read_at 8 4 3 12) ∷ [])),
    )
apply_mlf_on_list_example =
    apply_mlf_on_list_lem 4 (queue (two_reads ∷ simple (read_at 8 4 3 12) ∷ []) (pos 12))

fits_quantum_example : fits_quantum 4 (visited 2 two_reads) ≡ true
fits_quantum_example = fits_quantum-visited 4 1 two_reads (omega arith) (omega arith) (omega arith)

adjust_quantum_example :
    (1 ≤ adjust_quantum 65536 12 8)
    × ((adjust_quantum 65536 12 8 ≡ 65536)
        ⊎ ((adjust_quantum 65536 12 8 ≤ max_aggreg_size_default)
            × (adjust_quantum 65536 12 8 ≤ 16)))
adjust_quantum_example = adjust_quantum_bounds 65536 12 8 (omega arith) (omega arith)

calculate_hash_example : calculate_hash 97 ≡ shr_signed (97 * 0x9e37fffffffc0001 % 2 ^ 64) 58
calculate_hash_example = calculate_hash-eq-mul 97

get_hashtable_position_example :
    (get_hashtable_position (97 ∷ []) < hash_entries) × (get_hashtable_position (97 ∷ []) ≤ 32)
get_hashtable_position_example = get_hashtable_position-le (97 ∷ [])

abbrev to_row : Scheduler
to_row = record {
  name = codes "TO";
  index = to_scheduler;
  init = none;
  schedule = timeorder;
  exit = none;
  max_aggreg_size = 1;
  needs_hashtable = false;
  can_be_dynamically_selected = true;
  is_dynamic = false;
}
