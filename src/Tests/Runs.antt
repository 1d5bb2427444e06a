-- ===== src/Tests/Runs.antt =====
-- Runs of the main loops of MLF and aIOLi, of the library against its contract, of the configuration
-- and of the trace.
use agios.Common.{◌≤◌, ◌≡◌, refl, ◌⊎◌, List, [], ◌∷◌, ◌++◌, map, none, true, false, arith}
use agios.Common.Int.{pos, negsuc, ◌*ℤ◌}
use agios.Common.Text.{codes, strcmp}
use agios.Request.{FileId, rt_read, Queued, Timespec}
use agios.Lines.{lookup_file}
use agios.State.{State, ok}
use agios.Aggregation.Contents.{weight}
use agios.Hashtable.Enter.{IsOrdered}
use agios.Hashtable.Take.{Leaves}
use agios.Schedulers.{io_schedulers, get_algorithm_from_string}
use agios.Waiting.Serve.{info_of}
use agios.Mlf.Rounds.{Visit, Position}
use agios.Mlf.Rounds as MlfRounds
use agios.Mlf.Turn.{lock_line_lem, locked_any}
use agios.Aioli.Rounds.{aioli_serve, next_quantum}
use agios.Aioli.Serve.{bytes, StopsAt}
use agios.Aioli.Turn.{HasTurned, aioli_serve_lem}
use agios.Config.{Config, defaults, returned, Settings}
use agios.Config.Steps
use agios.Config.Steps.{read_configuration_file}
use agios.Config.Complete.{read_configuration_file-configured}
use agios.Config.Values.{Values, file_of, configured}
use agios.Config.Missing.{IsLeftOut, read_configuration_file-IsLeftOut}
use agios.Tests.{two_reads}
use agios.Tests.Queues.{count}
use agios.Tests.Tables.{state, file_a}
use agios.Tests.Loops.{dispatch}

-- A table with one line, of one file with a virtual request of two reads.
abbrev one_line : State
one_line = record state {
  hashlist = (file_a ∷ []) ∷ [];
  hashlist_reqcounter = pos 2 ∷ [];
  current_reqnb = pos 2;
}

one_line-IsOrdered : IsOrdered 16 ((file_a ∷ []) ∷ [])
one_line-IsOrdered = record { rises = (tt, tt); fits = (((((refl, omega arith), tt), tt), tt), tt) }

abbrev now : Timespec
now = record { tv_sec = 1; tv_nsec = 0 }

abbrev visit : FileId → Visit
visit id = record { updated = now; selected = now; dispatch = dispatch; stop = false }

abbrev mlf_turn : MlfRounds.MlfRound
mlf_turn = record { trylock = true; visit = visit; has_list_callback = false; others = λ s. s }

abbrev start : Position
start = record {
  current_hash = 0;
  lock_tries = 1 ∷ [];
  processed_requests = false;
  shortest_waiting_time = 2147483647;
}

lock_line_example : locked_any (false ∷ false ∷ false ∷ []) 0 ≡ true
lock_line_example = lock_line_lem (false ∷ false ∷ false ∷ []) 0 refl (omega arith)

aioli_serve_example :
    (more : List Queued) × (left : List Queued) × (s' : State) × (aioli_serve 8192
        (λ i. dispatch)
        0
        (97 ∷ [])
        rt_read
        one_line
      ≡ ok (map info_of (two_reads ∷ more), s'))
    × (more ++ left ≡ [])
    × ((more ≡ []) ⊎ (bytes (two_reads ∷ more) ≤ 0))
    × StopsAt 0 (bytes (two_reads ∷ more)) left
    × Leaves count 16 (weight count (two_reads ∷ more)) one_line.hashlist s'.hashlist
    × HasTurned 0 (97 ∷ []) rt_read left (next_quantum 8192 (bytes (two_reads ∷ more)) 0) s'
unfolding lookup_file strcmp
aioli_serve_example =
    aioli_serve_lem count 16 8192 (λ i. dispatch) (λ i. (refl, refl)) 0 (97 ∷ []) rt_read file_a
      two_reads [] one_line refl refl (omega arith) one_line-IsOrdered

abbrev pub values : Values
values = record {
  trace_value = true;
  prefix = codes "t";
  sufix = codes "out";
  default_name = codes "WFQ";
  waiting = pos 900000;
  aioli = pos 65536;
  mlf = pos 8192;
  period_ms = negsuc 0;
  min_reqnumber = pos 1;
  starting_name = codes "SJF";
  conf_file = codes "wfq.conf";
  performance = pos 5;
  enable = false;
  sw_window_ms = 1000;
  twins_window_us = 2000;
  buffer_kb = 32768;
}

read_configuration_file-configured_example :
    read_configuration_file (file_of values) none defaults
    ≡ returned (configured values 8 2 defaults) true
unfolding get_algorithm_from_string io_schedulers strcmp
read_configuration_file-configured_example =
    read_configuration_file-configured values none defaults 8 2 refl refl (omega arith)

-- "TOagg" is written "TO-agg" in the table.
abbrev pub misspelt : Values
misspelt = record values { default_name = codes "TOagg" }

-- A file with the two windows, the names and the algorithms only.
abbrev short_file : Settings
short_file = record (file_of values) { lookup_bool = λ name. none; lookup_int = λ name. none }

short_config : (c : Config) × (read_configuration_file short_file none defaults ≡ returned c true)
unfolding read_configuration_file Steps.library_options Steps.run get_algorithm_from_string
    io_schedulers strcmp Steps.read_trace Steps.read_prefix Steps.read_sufix
    Steps.read_default_algorithm Steps.read_waiting_time Steps.read_quanta Steps.read_period
    Steps.read_starting_algorithm Steps.read_wfq_conf Steps.read_performance_values
    Steps.read_enable_sw Steps.read_windows ◌*ℤ◌ Steps.read_buffer_size
short_config = (_, refl)

read_configuration_file-IsLeftOut_example : IsLeftOut short_config.0
unfolding Steps.config_path
read_configuration_file-IsLeftOut_example =
    read_configuration_file-IsLeftOut short_file refl refl none defaults refl refl short_config.1
