-- ===== src/Tests/Traces.antt =====
-- A trace of two requests, and a run of the library with its history.
use agios.Common.{
  ℕ, ◌+◌, ◌≤◌, ◌<◌, ◌≡◌, refl, List, [], ◌∷◌, ◌++◌, none, some, true, false, arith, length,
}
use agios.Common.Int.{ℤ, pos, negsuc}
use agios.Common.Text.{codes, strcmp}
use agios.State.{State, ok, fault}
use agios.Trace.{
  cleanup_agios_trace, free, allocated, FileSystem, Trace, released, put_file,
  agios_trace_add_request, trace_name,
}
use agios.Trace.Init.{
  Environment, TraceNames, filename_size, found, search_name, init_trace_module, open_found,
  open_trace, prepared,
}
use agios.Trace.Numbers.{numbered, IsFirstFree, search-IsFirstFree}
use agios.Trace.Session.{initial, IsTraced, trace_session_lem}
use agios.Trace.Restart.{init_trace_module-keeps, restart-fault}
use agios.Schedulers.{io_schedulers}
use agios.Config.{defaults}
use agios.Config.Values.{Values, file_of}
use agios.Agios.{Library, Start, agios_init}
use agios.Agios.Init.{agios_init-refused}
use agios.Tests.Runs.{values, misspelt}
use agios.System.{Step, add, stepped}
use agios.System.Refines.{SameBag, Allows, waiting, seen, Step-refines}
use agios.System.Conserves.{all_submitted, all_given, Reachable-balanced}
use agios.Tests.{read_at}
use agios.Tests.Queues.{fields}
use agios.Tests.Loops.{dispatch, hashed, memory}
use agios.Tests.Servers.{start_memory, first, first_reached, first-IsSound, added}

-- Numbers below ten, in one digit.
abbrev digit : ℤ → List ℕ
digit (pos n) = (48 + n) ∷ []
digit (negsuc n) = b'-' ∷ (49 + n) ∷ []

abbrev names : TraceNames
names = record { prefix = codes "t"; sufix = codes "out" }

abbrev able : Environment
able = record { readable = λ path. true; created = true; buffer = true; aux = true }

-- The first trace file is there already.
abbrev one_file : FileSystem
one_file = put_file (codes "t.1.out") (codes "old") (λ path. none)

short_names : (k : ℕ) → k ≤ 2 → length (numbered digit names able one_file k) < filename_size
unfolding trace_name
short_names k h = omega arith

search-IsFirstFree_example :
    (n : ℕ) × (search_name digit names able one_file 2 0
      ≡ ok (some (numbered digit names able one_file n)))
    × IsFirstFree digit names able one_file 0 n
    × (n ≤ 2)
unfolding found trace_name put_file strcmp
search-IsFirstFree_example =
    search-IsFirstFree digit names able one_file 2 0 2 (omega arith) (omega arith) refl short_names

trace_session_example :
    (n : ℕ) × IsFirstFree digit names able one_file 0 n
    × IsTraced digit names able one_file 2 1048576 7
        (read_at 0 4 8 10 ∷ read_at 4 4 9 11 ∷ [])
        (numbered digit names able one_file n)
unfolding found trace_name put_file strcmp
trace_session_example =
    trace_session_lem digit names able one_file 2 1048576 7 2 (read_at 0 4 8 10)
      (read_at 4 4 9 11 ∷ []) refl refl refl (omega arith) (omega arith) (omega arith) refl
      short_names

opened :
    (tr : Trace) × (init_trace_module digit names able 2 1024 7 (initial one_file)
      ≡ ok (some (tr, true)))
unfolding init_trace_module search_name found trace_name put_file strcmp open_found open_trace
    prepared
opened = (_, refl)

init_trace_module-keeps_example : opened.0.files (codes "t.1.out") ≡ some (codes "old")
unfolding put_file strcmp
init_trace_module-keeps_example =
    init_trace_module-keeps digit names able 2 1024 7 (initial one_file) (codes "t.1.out")
      (codes "old") refl refl opened.1

-- The module after `cleanup_agios_trace`.
abbrev running : Trace
running = record (initial one_file) {
  agios_tracefile_buffer = allocated 1024 none;
  aux_buf = allocated 300 none;
}

abbrev cleaned : Trace
cleaned = record (initial one_file) { agios_tracefile_buffer = released; aux_buf = released }

reopened :
    (tr : Trace) × (init_trace_module digit names able 2 1024 7 cleaned ≡ ok (some (tr, true)))
unfolding init_trace_module search_name found trace_name put_file strcmp open_found open_trace
    prepared
reopened = (_, refl)

restart-fault_example : agios_trace_add_request digit 1024 (read_at 0 4 8 10) reopened.0 ≡ fault
unfolding cleanup_agios_trace free
restart-fault_example =
    restart-fault digit names able 2 1024 7 cleaned running (read_at 0 4 8 10) 300 none refl refl
      reopened.1

abbrev addition : Step hashed first (added.0)
addition = add memory dispatch fields first (added.0) true [] (refl, refl, refl, refl) (added.1)

Step-refines_example : Allows (waiting first) (waiting added.0) (seen addition)
Step-refines_example = Step-refines hashed (refl, ground arith, omega arith) addition first-IsSound

Reachable-balanced_example :
    SameBag
      (all_submitted (stepped first (added.0) first_reached addition))
      (all_given (stepped first (added.0) first_reached addition) ++ waiting added.0)
Reachable-balanced_example =
    Reachable-balanced hashed (refl, ground arith, omega arith)
      (stepped first (added.0) first_reached addition)

abbrev library : Library
library = record { config = defaults; state = first; trace = initial one_file }

abbrev start_with : Values → Start
start_with v = record {
  process_request = true;
  settings = file_of v;
  config_file = none;
  max_queue_id = 3;
  memory = start_memory;
  trace = able;
  now = 7;
  thread = true;
}

abbrev untraced : Values
untraced = record values { trace_value = false }

agios_init-refused_example : agios_init digit 2 (start_with misspelt) library ≡ fault
unfolding io_schedulers strcmp
agios_init-refused_example =
    agios_init-refused digit 2 (start_with misspelt) library misspelt refl refl
      (refl, (refl, (refl, (refl, (refl, (refl, (refl, (refl, (refl, tt))))))))) refl refl
