-- ===== src/Config/Steps.antt =====
-- src/agios_config.c: `read_configuration_file`, in the order of its look-ups.
use agios.Common.{
  ℕ, refl, [], ◌∷◌, ◌≡◌, ◌==◌, ◌||◌, leb, List, Option, none, some, Bool, true, false,
  if◌then◌else◌, length,
}
use agios.Common.Int.{ℤ, pos, negsuc, ◌*ℤ◌, ltb_ℤ}
use agios.Common.Text.{codes}
use agios.Schedulers.{wfq_scheduler, get_algorithm_from_string, enable_sw}
use agios.Config.{
  Settings, Config, Reading, Progress, going, returned, undefined, ◌>>=◌, convert_inttobool,
  lookup_bool, lookup_int, lookup_string, trace, trace_file_prefix, trace_file_sufix,
  default_algorithm, waiting_time, aioli_quantum, mlf_quantum, select_algorithm_period,
  select_algorithm_min_reqnumber, starting_algorithm, wfq_conf, performance_values, sw_enabled,
  sw_window, twins_window, max_trace_buffer_size, kept,
}

-- A new value of one parameter.
abbrev pub update : (Config → Config) → Reading → Reading
update change r = record r { config = change r.config }

-- `strlen` and `strcpy` of a pointer that was never set are undefined.
unfoldable pub with_string : Reading → (List ℕ → Progress) → Progress
with_string r use_string = elim r.ret_str [ none ↦ undefined | some text ↦ use_string text ]

unfoldable pub is_null_int : ℤ → Bool
is_null_int (pos n) = n == 0
is_null_int (negsuc n) = false

-- `ret*1024` is an `int32_t`.
unfoldable pub is_int32 : ℤ → Bool
is_int32 (pos n) = leb n 2147483647
is_int32 (negsuc n) = leb n 2147483647

module _ (s : Settings) where
  unfoldable pub read_trace : Reading → Progress
  unfolding lookup_bool convert_inttobool
  read_trace r =
      let r1 = lookup_bool s trace r in
      going (update (λ c. record c { config_trace_agios = convert_inttobool r1.ret }) r1)

  -- Where `malloc` fails the pointer is NULL, and the call returns.
  unfoldable pub read_prefix : Reading → Progress
  unfolding lookup_string with_string
  read_prefix r =
      let r1 = lookup_string s trace_file_prefix r in
      with_string r1 (λ text.
        if s.malloc trace_file_prefix
        then going (update (λ c. record c { config_trace_agios_file_prefix = some text }) r1)
        else returned (record (r1.config) { config_trace_agios_file_prefix = none }) false)

  unfoldable pub read_sufix : Reading → Progress
  unfolding lookup_string with_string
  read_sufix r =
      let r1 = lookup_string s trace_file_sufix r in
      with_string r1 (λ text.
        if s.malloc trace_file_sufix
        then going (update (λ c. record c { config_trace_agios_file_sufix = some text }) r1)
        else returned (record (r1.config) { config_trace_agios_file_sufix = none }) false)

  -- An unknown name leaves SJF in the variable, and the call returns.
  unfoldable pub read_default_algorithm : Reading → Progress
  unfolding lookup_string with_string
  read_default_algorithm r =
      let r1 = lookup_string s default_algorithm r in
      with_string r1 (λ text.
        let (known, index) = get_algorithm_from_string r1.config.schedulers text in
        if known
        then going (update (λ c. record c { config_agios_default_algorithm = index }) r1)
        else returned (record (r1.config) { config_agios_default_algorithm = index }) false)

  unfoldable pub read_starting_algorithm : Reading → Progress
  unfolding lookup_string with_string
  read_starting_algorithm r =
      let r1 = lookup_string s starting_algorithm r in
      with_string r1 (λ text.
        let (known, index) = get_algorithm_from_string r1.config.schedulers text in
        if known
        then going (update (λ c. record c { config_agios_starting_algorithm = index }) r1)
        else returned (record (r1.config) { config_agios_starting_algorithm = index }) false)

  unfoldable pub read_waiting_time : Reading → Progress
  unfolding lookup_int
  read_waiting_time r =
      let r1 = lookup_int s waiting_time r in
      going (update (λ c. record c { config_waiting_time = r1.ret }) r1)

  unfoldable pub read_quanta : Reading → Progress
  unfolding lookup_int
  read_quanta r =
      let r1 = lookup_int s aioli_quantum r in
      let r2 =
        lookup_int s mlf_quantum (update (λ c. record c { config_aioli_quantum = r1.ret }) r1) in
      going (update (λ c. record c { config_mlf_quantum = r2.ret }) r2)

  -- The least number of requests is read into its variable, not through `ret`.
  unfoldable pub read_period : Reading → Progress
  unfolding lookup_int
  read_period r =
      let r1 = lookup_int s select_algorithm_period r in
      going (
        update
          (λ c. record c {
            config_agios_select_algorithm_period = r1.ret *ℤ pos 1000000;
            config_agios_select_algorithm_min_reqnumber =
                kept c.config_agios_select_algorithm_min_reqnumber
                  (s.lookup_int select_algorithm_min_reqnumber);
          })
          r1)

  -- Only with WFQ. The copy is made before the test of the pointer.
  unfoldable pub read_wfq_conf : Reading → Progress
  unfolding lookup_string with_string
  read_wfq_conf r =
      if r.config.config_agios_default_algorithm == wfq_scheduler
      then (let r1 = lookup_string s wfq_conf r in
          with_string r1 (λ text.
            if s.malloc wfq_conf
            then going (update (λ c. record c { config_wfq_conf_file = some text }) r1)
            else undefined))
      else going r

  unfoldable pub read_performance_values : Reading → Progress
  read_performance_values r = going (
      update
        (λ c. record c {
          config_agios_performance_values =
              kept c.config_agios_performance_values (s.lookup_int performance_values);
        })
        r)

  unfoldable pub read_enable_sw : Reading → Progress
  unfolding lookup_bool is_null_int
  read_enable_sw r =
      let r1 = lookup_bool s sw_enabled r in
      going (
        update
          (λ c. record c {
            schedulers = if is_null_int r1.ret then c.schedulers else enable_sw c.schedulers;
          })
          r1)

  -- The two sizes are asserted not to be negative.
  unfoldable pub read_windows : Reading → Progress
  unfolding lookup_int
  read_windows r =
      let r1 = lookup_int s sw_window r in
      let size = r1.ret *ℤ pos 1000000 in
      let r2 = lookup_int s twins_window (update (λ c. record c { config_sw_size = size }) r1) in
      let window = r2.ret *ℤ pos 1000 in
      if ltb_ℤ size (pos 0) || ltb_ℤ window (pos 0)
      then undefined
      else going (update (λ c. record c { config_twins_window = window }) r2)

  unfoldable pub read_buffer_size : Reading → Progress
  unfolding lookup_int is_int32
  read_buffer_size r =
      let r1 = lookup_int s max_trace_buffer_size r in
      let size = r1.ret *ℤ pos 1024 in
      if is_int32 size
      then going (update (λ c. record c { config_agios_max_trace_buffer_size = size }) r1)
      else undefined

  -- The look-ups, in their order.
  unfoldable pub library_options : List (Reading → Progress)
  library_options =
      read_trace ∷ read_prefix ∷ read_sufix ∷ read_default_algorithm ∷ read_waiting_time
      ∷ read_quanta ∷ read_period ∷ read_starting_algorithm ∷ read_wfq_conf
      ∷ read_performance_values ∷ read_enable_sw ∷ read_windows ∷ read_buffer_size ∷ []

-- One step after the other, until one ends the call.
unfoldable pub run : List (Reading → Progress) → Reading → Progress
run [] r = going r
run (step ∷ steps) r = step r >>= run steps

unfoldable pub config_path : Option (List ℕ) → List ℕ
config_path none = codes "/etc/agios.conf"
config_path (some path) = if length path == 0 then codes "/etc/agios.conf" else path

abbrev pub finish : Reading → Progress
finish r = returned r.config true

-- What is left in `ret` after the file was read is `CONFIG_TRUE`.
abbrev pub start : Config → Reading
start c = record { config = c; ret = pos 1; ret_str = none }

unfoldable pub read_configuration_file : Settings → Option (List ℕ) → Config → Progress
read_configuration_file s config_file c =
    if s.readable (config_path config_file)
    then run (library_options s) (start c) >>= finish
    else returned c true

pub readable-run :
    (s : Settings) (config_file : Option (List ℕ)) (c : Config)
    → s.readable (config_path config_file) ≡ true
    → read_configuration_file s config_file c ≡ (run (library_options s) (start c) >>= finish)
unfolding read_configuration_file
readable-run s config_file c readable = rw readable refl
