-- ===== src/Config/Values.antt =====
-- src/agios_config.c: a configuration file with every option, and the parameters that it asks for.
use agios.Common.{ℕ, ◌*◌, ◌==◌, List, Option, none, some, Bool, true, false, if◌then◌else◌}
use agios.Common.Int.{ℤ, pos, ◌*ℤ◌}
use agios.Schedulers.{enable_sw, wfq_scheduler}
use agios.Config.{
  Settings, Config, Name, trace, trace_file_prefix, trace_file_sufix, default_algorithm,
  waiting_time, aioli_quantum, mlf_quantum, select_algorithm_period, select_algorithm_min_reqnumber,
  starting_algorithm, wfq_conf, performance_values, sw_enabled, sw_window, twins_window,
  max_trace_buffer_size,
}

-- The values of a file that has every option, in the units of the file.
pub record Values : Type 0 where
  pub trace_value : Bool
  pub prefix : List ℕ
  pub sufix : List ℕ
  pub default_name : List ℕ
  pub waiting : ℤ
  pub aioli : ℤ
  pub mlf : ℤ
  pub period_ms : ℤ
  pub min_reqnumber : ℤ
  pub starting_name : List ℕ
  pub conf_file : List ℕ
  pub performance : ℤ
  pub enable : Bool
  pub sw_window_ms : ℕ
  pub twins_window_us : ℕ
  pub buffer_kb : ℕ

abbrev pub flag : Bool → ℤ
flag true = pos 1
flag false = pos 0

-- A file that holds the values, read where every `malloc` succeeds.
abbrev pub ints : Values → Name → Option ℤ
ints v waiting_time = some v.waiting
ints v aioli_quantum = some v.aioli
ints v mlf_quantum = some v.mlf
ints v select_algorithm_period = some v.period_ms
ints v select_algorithm_min_reqnumber = some v.min_reqnumber
ints v performance_values = some v.performance
ints v sw_window = some (pos v.sw_window_ms)
ints v twins_window = some (pos v.twins_window_us)
ints v max_trace_buffer_size = some (pos v.buffer_kb)
ints v _ = none

abbrev pub bools : Values → Name → Option ℤ
bools v trace = some (flag v.trace_value)
bools v sw_enabled = some (flag v.enable)
bools v _ = none

abbrev pub strings : Values → Name → Option (List ℕ)
strings v trace_file_prefix = some v.prefix
strings v trace_file_sufix = some v.sufix
strings v default_algorithm = some v.default_name
strings v starting_algorithm = some v.starting_name
strings v wfq_conf = some v.conf_file
strings v _ = none

abbrev pub file_of : Values → Settings
file_of v = record {
  readable = λ path. true;
  lookup_bool = bools v;
  lookup_int = ints v;
  lookup_string = strings v;
  malloc = λ name. true;
}

-- The parameters that the file asks for, with the indices of its algorithms.
abbrev pub configured : Values → (default starting : ℕ) → Config → Config
configured v default starting c = record {
  config_agios_default_algorithm = default;
  config_agios_max_trace_buffer_size = pos (v.buffer_kb * 1024);
  config_agios_performance_values = v.performance;
  config_agios_select_algorithm_period = v.period_ms *ℤ pos 1000000;
  config_agios_select_algorithm_min_reqnumber = v.min_reqnumber;
  config_agios_starting_algorithm = starting;
  config_aioli_quantum = v.aioli;
  config_mlf_quantum = v.mlf;
  config_sw_size = pos (v.sw_window_ms * 1000000);
  config_trace_agios = v.trace_value;
  config_trace_agios_file_prefix = some v.prefix;
  config_trace_agios_file_sufix = some v.sufix;
  config_twins_window = pos (v.twins_window_us * 1000);
  config_waiting_time = v.waiting;
  config_wfq_conf_file =
      if default == wfq_scheduler then some v.conf_file else c.config_wfq_conf_file;
  schedulers = if v.enable then enable_sw c.schedulers else c.schedulers;
}
