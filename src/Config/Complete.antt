-- ===== src/Config/Complete.antt =====
-- src/agios_config.c: `read_configuration_file` on a file with every option.
use agios.Common.{
  ℕ, ◌*◌, ◌≤◌, ◌≡◌, ◌==◌, refl, ap, ◌∙◌, List, Option, some, Bool, true, false, if◌then◌else◌,
  arith, All, ◌++◌, [], ◌∷◌, Bool-cases, inl, inr,
}
use agios.Common.Int.{ℤ, pos, ◌*ℤ◌, ltb_ℤ}
use agios.Common.Text.{same_string}
use agios.Schedulers.{Scheduler, get_algorithm_from_string, sjf_scheduler, enable_sw, wfq_scheduler}
use agios.Schedulers.Rows.{get_algorithm_from_string_unknown}
use agios.Config.{Config, Reading, Progress, going, returned, undefined, ◌>>=◌, convert_inttobool}
use agios.Config.Steps
use agios.Config.Values.{Values, configured, file_of, flag}

pos-mul : (a b : ℕ) → pos a *ℤ pos b ≡ pos (a * b)
unfolding ◌*ℤ◌
pos-mul a b = ground arith

convert_flag : (b : Bool) → convert_inttobool (flag b) ≡ b
unfolding convert_inttobool
convert_flag true = refl
convert_flag false = refl

enabling :
    (b : Bool) (table : List Scheduler)
    → (if Steps.is_null_int (flag b) then table else enable_sw table)
      ≡ (if b then enable_sw table else table)
unfolding Steps.is_null_int
enabling true table = refl
enabling false table = refl

not_negative : (n : ℕ) → ltb_ℤ (pos n) (pos 0) ≡ false
not_negative n = ground arith

in_int32 : (n : ℕ) → n ≤ 2097151 → Steps.is_int32 (pos (n * 1024)) ≡ true
unfolding Steps.is_int32
in_int32 n h = ground arith

bind_assoc :
    (p : Progress) (f g : Reading → Progress) {h : Reading → Progress}
    → ((r : Reading) → h r ≡ (f r >>= g))
    → (p >>= h) ≡ ((p >>= f) >>= g)
bind_assoc (going r) f g e = e r
bind_assoc (returned c b) f g e = refl
bind_assoc undefined f g e = refl

run-append :
    (first rest : List (Reading → Progress)) (r : Reading)
    → Steps.run (first ++ rest) r ≡ (Steps.run first r >>= Steps.run rest)
unfolding Steps.run
run-append [] rest r = refl
run-append (f ∷ fs) rest r = bind_assoc (f r) (Steps.run fs) (Steps.run rest) (run-append fs rest)

-- The steps in three parts.
module _ (v : Values) where
  names_steps : List (Reading → Progress)
  names_steps =
      Steps.read_trace (file_of v)
      ∷ Steps.read_prefix (file_of v)
      ∷ Steps.read_sufix (file_of v)
      ∷ Steps.read_default_algorithm (file_of v)
      ∷ []

  number_steps : List (Reading → Progress)
  number_steps =
      Steps.read_waiting_time (file_of v)
      ∷ Steps.read_quanta (file_of v)
      ∷ Steps.read_period (file_of v)
      ∷ Steps.read_starting_algorithm (file_of v)
      ∷ []

  size_steps : List (Reading → Progress)
  size_steps =
      Steps.read_wfq_conf (file_of v)
      ∷ Steps.read_performance_values (file_of v)
      ∷ Steps.read_enable_sw (file_of v)
      ∷ Steps.read_windows (file_of v)
      ∷ Steps.read_buffer_size (file_of v)
      ∷ []

  abbrev pub named : (default : ℕ) → Config → Config
  named default c = record c {
    config_trace_agios = v.trace_value;
    config_trace_agios_file_prefix = some v.prefix;
    config_trace_agios_file_sufix = some v.sufix;
    config_agios_default_algorithm = default;
  }

  numbered : (starting : ℕ) → Config → Config
  numbered starting c = record c {
    config_waiting_time = v.waiting;
    config_aioli_quantum = v.aioli;
    config_mlf_quantum = v.mlf;
    config_agios_select_algorithm_period = v.period_ms *ℤ pos 1000000;
    config_agios_select_algorithm_min_reqnumber = v.min_reqnumber;
    config_agios_starting_algorithm = starting;
  }

  sized : Config → Config
  sized c = record c {
    config_wfq_conf_file =
        if c.config_agios_default_algorithm == wfq_scheduler
        then some v.conf_file
        else c.config_wfq_conf_file;
    config_agios_performance_values = v.performance;
    schedulers = if v.enable then enable_sw c.schedulers else c.schedulers;
    config_sw_size = pos (v.sw_window_ms * 1000000);
    config_twins_window = pos (v.twins_window_us * 1000);
    config_agios_max_trace_buffer_size = pos (v.buffer_kb * 1024);
  }

  run-named :
      (c : Config) {default : ℕ}
      → get_algorithm_from_string c.schedulers v.default_name ≡ (true, default)
      → Steps.run names_steps (Steps.start c)
        ≡ going (record {
          config = named default c;
          ret = flag v.trace_value;
          ret_str = some v.default_name;
        })
  unfolding Steps.run Steps.read_trace Steps.read_prefix Steps.read_sufix
      Steps.read_default_algorithm names_steps
  run-named c known = rw (known, convert_flag v.trace_value) refl

  run-numbered :
      (c : Config) (ret : ℤ) (ret_str : Option (List ℕ)) {starting : ℕ}
      → get_algorithm_from_string c.schedulers v.starting_name ≡ (true, starting)
      → Steps.run number_steps (record { config = c; ret = ret; ret_str = ret_str })
        ≡ going (record {
          config = numbered starting c;
          ret = v.period_ms;
          ret_str = some v.starting_name;
        })
  unfolding Steps.run Steps.read_waiting_time Steps.read_quanta Steps.read_period
      Steps.read_starting_algorithm number_steps numbered
  run-numbered c ret ret_str known = rw known refl

  run-sized :
      (c : Config) (ret : ℤ) (ret_str : Option (List ℕ))
      → v.buffer_kb ≤ 2097151
      → (Steps.run size_steps (record { config = c; ret = ret; ret_str = ret_str })
          >>= Steps.finish)
        ≡ returned (sized c) true
  unfolding Steps.run Steps.read_wfq_conf Steps.read_performance_values Steps.read_enable_sw
      Steps.read_windows Steps.read_buffer_size size_steps sized
  run-sized c ret ret_str size =
      elim (Bool-cases (c.config_agios_default_algorithm == wfq_scheduler)) [
        | inl e ↦
            rw
              (
                e,
                pos-mul v.sw_window_ms 1000000,
                pos-mul v.twins_window_us 1000,
                pos-mul v.buffer_kb 1024,
                not_negative (v.sw_window_ms * 1000000),
                not_negative (v.twins_window_us * 1000),
                in_int32 v.buffer_kb size,
                enabling v.enable c.schedulers,
              )
              refl
        | inr e ↦
            rw
              (
                e,
                pos-mul v.sw_window_ms 1000000,
                pos-mul v.twins_window_us 1000,
                pos-mul v.buffer_kb 1024,
                not_negative (v.sw_window_ms * 1000000),
                not_negative (v.twins_window_us * 1000),
                in_int32 v.buffer_kb size,
                enabling v.enable c.schedulers,
              )
              refl
      ]

-- A file with every option whose algorithms are in the table, and whose buffer fits an `int32_t` in
-- bytes: the call succeeds, and every parameter is the one of the file in the units of the library.
-- The WFQ file is read if WFQ is the default algorithm, and kept otherwise; `enable_SW` changes the
-- table.
pub read_configuration_file-configured :
    (v : Values) (config_file : Option (List ℕ)) (c : Config) (default starting : ℕ)
    → get_algorithm_from_string c.schedulers v.default_name ≡ (true, default)
    → get_algorithm_from_string c.schedulers v.starting_name ≡ (true, starting)
    → v.buffer_kb ≤ 2097151
    → Steps.read_configuration_file (file_of v) config_file c
      ≡ returned (configured v default starting c) true
unfolding Steps.library_options names_steps number_steps size_steps numbered sized
read_configuration_file-configured v config_file c default starting known_default known_starting
      size =
    let rest = number_steps v ++ size_steps v in
    Steps.readable-run (file_of v) config_file c refl
    ∙ ap (λ (p : Progress). p >>= Steps.finish)
        (run-append (names_steps v) rest (Steps.start c)
          ∙ ap (λ (p : Progress). p >>= Steps.run rest) (run-named v c known_default)
          ∙ run-append (number_steps v) (size_steps v) _
          ∙ ap (λ (p : Progress). p >>= Steps.run (size_steps v))
              (run-numbered v (named v default c) (flag v.trace_value) (some v.default_name)
                known_starting))
    ∙ run-sized v (numbered v starting (named v default c)) v.period_ms (some v.starting_name) size

-- A file with every option whose default algorithm is not in the table: the call fails, with the
-- options before that one taken over (tracing among them) and SJF as the algorithm.
pub read_configuration_file-refused :
    (v : Values) (config_file : Option (List ℕ)) (c : Config)
    → All (λ a. same_string v.default_name a.name ≡ false) c.schedulers
    → Steps.read_configuration_file (file_of v) config_file c
      ≡ returned (named v sjf_scheduler c) false
unfolding Steps.library_options Steps.run Steps.read_trace Steps.read_prefix Steps.read_sufix
    Steps.read_default_algorithm
read_configuration_file-refused v config_file c unknown =
    Steps.readable-run (file_of v) config_file c refl
    ∙ rw
        (
          get_algorithm_from_string_unknown v.default_name c.schedulers unknown,
          convert_flag v.trace_value,
        )
        refl
