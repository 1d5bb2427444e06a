-- ===== src/Agios.antt =====
-- The start of the library: `agios_init` and `cleanup_agios` of src/agios.c. The thread itself is
-- AgiosThread; whether it could be created is an argument. The clean-up frees the strings of the
-- configuration, the performance entries and the data structures, which the model does not show, and
-- closes the trace.
pub mod Init
use agios.Common.{ℕ, List, Option, none, some, Bool, true, false, if◌then◌else◌}
use agios.Common.Int.{ℤ, pos_part}
use agios.State.{State, Outcome, ok, fault, ◌>>=◌}
use agios.DataStructures.{StartMemory, allocate_data_structures}
use agios.Config.{Settings, Config, Progress, going, returned, undefined}
use agios.Config.Steps.{read_configuration_file}
use agios.Trace.{Trace, required, close_agios_trace, cleanup_agios_trace}
use agios.Trace.Init.{Environment, TraceNames, init_trace_module}

-- What the parts of the library hold.
pub record Library : Type 0 where
  pub config : Config
  pub state : State
  pub trace : Trace

-- What the user and the environment give to a call. `process_request` says whether the callback is not
-- NULL, and `thread` whether `pthread_create` succeeds.
pub record Start : Type 0 where
  pub process_request : Bool
  pub settings : Settings
  pub config_file : Option (List ℕ)
  pub max_queue_id : ℕ
  pub memory : StartMemory
  pub trace : Environment
  pub now : ℕ
  pub thread : Bool

unfoldable pub cleanup_agios : Library → Outcome Library
unfolding close_agios_trace cleanup_agios_trace
cleanup_agios l =
    if (l.config).config_trace_agios
    then (do
      t1 ← close_agios_trace l.trace
      t2 ← cleanup_agios_trace t1
      ok (record l { trace = t2 }))
    else ok l

-- `cleanup_on_error`
unfoldable pub fail_init : Library → Outcome (Option (Bool × Library))
unfolding cleanup_agios
fail_init l = do l' ← cleanup_agios l; ok (some (false, l'))

-- The names of the trace files, which must have been set.
unfoldable pub trace_names : Config → Outcome TraceNames
unfolding required
trace_names c = do
  prefix ← required c.config_trace_agios_file_prefix
  sufix ← required c.config_trace_agios_file_sufix
  ok (record { prefix = prefix; sufix = sufix })

unfoldable pub start_thread : (created : Bool) → Library → Outcome (Option (Bool × Library))
unfolding fail_init
start_thread true l = ok (some (true, l))
start_thread false l = fail_init l

abbrev pub after_trace : Start → Library → Option (Trace × Bool) → Outcome (Option (Bool × Library))
after_trace start l none = ok none
after_trace start l (some (t, true)) = start_thread start.thread (record l { trace = t })
after_trace start l (some (t, false)) = fail_init (record l { trace = t })

module _ (ld : ℤ → List ℕ) (fuel : ℕ) where
  -- Traces are opened only if the configuration asks for them.
  unfoldable pub start_trace : Start → Library → Outcome (Option (Bool × Library))
  unfolding trace_names init_trace_module start_thread fail_init
  start_trace start l =
      if (l.config).config_trace_agios
      then (do
        names ← trace_names l.config
        t ←
            init_trace_module ld names start.trace fuel
              (pos_part (l.config).config_agios_max_trace_buffer_size) start.now l.trace
        after_trace start l t)
      else start_thread start.thread l

  abbrev pub after_structures : Start → Library → Bool × State → Outcome (Option (Bool × Library))
  after_structures start l (true, s) = start_trace start (record l { state = s })
  after_structures start l (false, s) = fail_init (record l { state = s })

  abbrev pub after_configuration : Start → Library → Progress → Outcome (Option (Bool × Library))
  after_configuration start l (going r) = fault
  after_configuration start l undefined = fault
  after_configuration start l (returned c false) = fail_init (record l { config = c })
  after_configuration start l (returned c true) =
      after_structures start (record l { config = c })
        (allocate_data_structures start.memory start.max_queue_id l.state)

  -- `none` means that the fuel of the search for a trace file ran out.
  unfoldable pub agios_init : Start → Library → Outcome (Option (Bool × Library))
  agios_init start l =
      if start.process_request
      then after_configuration start l
          (read_configuration_file start.settings start.config_file l.config)
      else ok (some (false, l))
