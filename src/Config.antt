-- ===== src/Config.antt =====
-- src/agios_config.c: the configuration parameters and `read_configuration_file`. libconfig is a
-- parameter: what a file says under each name. As its manual has it, a look-up of a name that is not
-- there (or has another type) leaves the variable as it is. The two variables `ret` and `ret_str` that
-- the look-ups share are part of the state, with the result of `config_read_file` in `ret`.
pub mod Steps
pub mod Values
pub mod Complete
pub mod Missing
use agios.Common.{
  ℕ, ◌≡◌, ◌==◌, ◌&&◌, leb, List, Option, none, some, Bool, true, false, if◌then◌else◌, length,
}
use agios.Common.Int.{ℤ, pos, negsuc, ◌*ℤ◌, ltb_ℤ}
use agios.Schedulers.{
  Scheduler, io_schedulers, sjf_scheduler, wfq_scheduler, get_algorithm_from_string, enable_sw,
}

-- The settings of the group `library_options`, by their names (`sw_enabled` is `enable_SW`).
pub data Name : Type 0 where
  trace trace_file_prefix trace_file_sufix default_algorithm waiting_time aioli_quantum
        mlf_quantum :
      Name
  select_algorithm_period select_algorithm_min_reqnumber starting_algorithm wfq_conf : Name
  performance_values sw_enabled sw_window twins_window max_trace_buffer_size : Name

-- The configuration file, as libconfig shows it, and the outcomes of `malloc`.
pub record Settings : Type 0 where
  pub readable : (path : List ℕ) → Bool
  pub lookup_bool : Name → Option ℤ
  pub lookup_int : Name → Option ℤ
  pub lookup_string : Name → Option (List ℕ)
  pub malloc : Name → Bool

-- The global variables, and the table of algorithms. A string that is not set is NULL.
pub record Config : Type 0 where
  pub config_agios_default_algorithm : ℕ
  pub config_agios_max_trace_buffer_size : ℤ
  pub config_agios_performance_values : ℤ
  pub config_agios_select_algorithm_period : ℤ
  pub config_agios_select_algorithm_min_reqnumber : ℤ
  pub config_agios_starting_algorithm : ℕ
  pub config_aioli_quantum : ℤ
  pub config_mlf_quantum : ℤ
  pub config_sw_size : ℤ
  pub config_trace_agios : Bool
  pub config_trace_agios_file_prefix : Option (List ℕ)
  pub config_trace_agios_file_sufix : Option (List ℕ)
  pub config_twins_window : ℤ
  pub config_waiting_time : ℤ
  pub config_wfq_conf_file : Option (List ℕ)
  pub schedulers : List Scheduler

abbrev pub defaults : Config
defaults = record {
  config_agios_default_algorithm = sjf_scheduler;
  config_agios_max_trace_buffer_size = pos 1048576;
  config_agios_performance_values = pos 5;
  config_agios_select_algorithm_period = negsuc 0;
  config_agios_select_algorithm_min_reqnumber = pos 1;
  config_agios_starting_algorithm = sjf_scheduler;
  config_aioli_quantum = pos 8192;
  config_mlf_quantum = pos 8192;
  config_sw_size = pos 1000000000;
  config_trace_agios = false;
  config_trace_agios_file_prefix = none;
  config_trace_agios_file_sufix = none;
  config_twins_window = pos 1000000;
  config_waiting_time = pos 900000;
  config_wfq_conf_file = none;
  schedulers = io_schedulers;
}

-- The variables of one call.
pub record Reading : Type 0 where
  pub config : Config
  pub ret : ℤ
  pub ret_str : Option (List ℕ)

-- A call goes on, has returned, or does what C leaves undefined.
pub data Progress : Type 0 where
  going : Reading → Progress
  returned : Config → Bool → Progress
  undefined : Progress

infixl 5 ◌>>=◌
abbrev pub ◌>>=◌ : Progress → (Reading → Progress) → Progress
going r >>= f = f r
returned c b >>= f = returned c b
undefined >>= f = undefined

unfoldable pub convert_inttobool : ℤ → Bool
convert_inttobool (pos n) = if n == 0 then false else true
convert_inttobool (negsuc n) = true

abbrev pub kept {ℓ} : {A : Type ℓ} → A → Option A → A
kept old none = old
kept old (some new) = new

module _ (s : Settings) where
  unfoldable pub lookup_bool : Name → Reading → Reading
  lookup_bool name r = record r { ret = kept r.ret (s.lookup_bool name) }

  unfoldable pub lookup_int : Name → Reading → Reading
  lookup_int name r = record r { ret = kept r.ret (s.lookup_int name) }

  -- The pointer keeps its value too; before the first string it was never set.
  unfoldable pub lookup_string : Name → Reading → Reading
  lookup_string name r = record r {
    ret_str = elim (s.lookup_string name) [ none ↦ r.ret_str | some text ↦ some text ];
  }
