-- ===== src/Config/Missing.antt =====
-- src/agios_config.c: what `read_configuration_file` makes of a file that leaves options out.
use agios.Common.{
  ℕ, ◌≡◌, refl, sym, ◌∙◌, List, Option, none, true, false, arith, All, [], ◌∷◌, ◌++◌,
}
use mathlib.Core.Path.{subst}
use agios.Config.{
  Settings, Config, Reading, Progress, going, returned, undefined, ◌>>=◌, trace, aioli_quantum,
  mlf_quantum,
}
use agios.Config.Steps

-- What holds of the parameters after a step that does not end the call with success.
abbrev Goes : (Config → Type 0) → Progress → Type 0
Goes P (going r) = P r.config
Goes P (returned c b) = b ≡ false
Goes P undefined = Unit

abbrev StepKeeps : (Config → Type 0) → (Reading → Progress) → Type 0
StepKeeps P f = (r : Reading) → P r.config → Goes P (f r)

Goes-bind :
    (P Q : Config → Type 0) (p : Progress) (f : Reading → Progress)
    → Goes P p
    → ((r : Reading) → P r.config → Goes Q (f r))
    → Goes Q (p >>= f)
Goes-bind P Q (going r) f h k = k r h
Goes-bind P Q (returned c b) f h k = h
Goes-bind P Q undefined f h k = tt

-- A run whose first steps keep one fact, and whose others lead from it to another.
run-Goes :
    (P Q : Config → Type 0) (first rest : List (Reading → Progress))
    → All (StepKeeps P) first
    → ((r : Reading) → P r.config → Goes Q (Steps.run rest r))
    → (r : Reading) → P r.config
    → Goes Q (Steps.run (first ++ rest) r)
unfolding Steps.run
run-Goes P Q [] rest keeps then_rest r h = then_rest r h
run-Goes P Q (f ∷ fs) rest keeps then_rest r h =
    Goes-bind P Q (f r) (Steps.run (fs ++ rest)) (keeps.0 r h)
      (run-Goes P Q fs rest keeps.1 then_rest)

finish-Goes :
    (P : Config → Type 0) (p : Progress) {c : Config}
    → Goes P p
    → (p >>= Steps.finish) ≡ returned c true
    → P c
finish-Goes P (going r) h e = subst P (ground arith) h
finish-Goes P (returned c b) h e = cc
finish-Goes P undefined h e = cc

abbrev IsOn : Config → Type 0
IsOn c = c.config_trace_agios ≡ true

abbrev pub IsLeftOut : Config → Type 0
IsLeftOut c =
    (c.config_trace_agios ≡ true)
    × (c.config_aioli_quantum ≡ c.config_waiting_time)
    × (c.config_mlf_quantum ≡ c.config_waiting_time)

module _ (s : Settings) where
  read_prefix-IsOn : StepKeeps IsOn (Steps.read_prefix s)
  unfolding Steps.read_prefix
  read_prefix-IsOn r h = ground arith

  read_sufix-IsOn : StepKeeps IsOn (Steps.read_sufix s)
  unfolding Steps.read_sufix
  read_sufix-IsOn r h = ground arith

  read_default_algorithm-IsOn : StepKeeps IsOn (Steps.read_default_algorithm s)
  unfolding Steps.read_default_algorithm
  read_default_algorithm-IsOn r h = ground arith

  read_period-IsLeftOut : StepKeeps IsLeftOut (Steps.read_period s)
  unfolding Steps.read_period
  read_period-IsLeftOut r h = ground arith

  read_starting_algorithm-IsLeftOut : StepKeeps IsLeftOut (Steps.read_starting_algorithm s)
  unfolding Steps.read_starting_algorithm
  read_starting_algorithm-IsLeftOut r h = ground arith

  read_wfq_conf-IsLeftOut : StepKeeps IsLeftOut (Steps.read_wfq_conf s)
  unfolding Steps.read_wfq_conf
  read_wfq_conf-IsLeftOut r h = ground arith

  read_performance_values-IsLeftOut : StepKeeps IsLeftOut (Steps.read_performance_values s)
  unfolding Steps.read_performance_values
  read_performance_values-IsLeftOut r h = ground arith

  read_enable_sw-IsLeftOut : StepKeeps IsLeftOut (Steps.read_enable_sw s)
  unfolding Steps.read_enable_sw
  read_enable_sw-IsLeftOut r h = ground arith

  read_windows-IsLeftOut : StepKeeps IsLeftOut (Steps.read_windows s)
  unfolding Steps.read_windows
  read_windows-IsLeftOut r h = ground arith

  read_buffer_size-IsLeftOut : StepKeeps IsLeftOut (Steps.read_buffer_size s)
  unfolding Steps.read_buffer_size
  read_buffer_size-IsLeftOut r h = ground arith

abbrev first_options : Settings → List (Reading → Progress)
first_options s = Steps.read_prefix s ∷ Steps.read_sufix s ∷ Steps.read_default_algorithm s ∷ []

abbrev last_options : Settings → List (Reading → Progress)
last_options s =
    Steps.read_period s
    ∷ Steps.read_starting_algorithm s
    ∷ Steps.read_wfq_conf s
    ∷ Steps.read_performance_values s
    ∷ Steps.read_enable_sw s
    ∷ Steps.read_windows s
    ∷ Steps.read_buffer_size s
    ∷ []

module _ (s : Settings) where
  last_options-IsLeftOut :
      (r : Reading) → IsLeftOut r.config → Goes IsLeftOut (Steps.run (last_options s) r)
  unfolding Steps.run
  last_options-IsLeftOut =
      run-Goes IsLeftOut IsLeftOut (last_options s) []
        (
          read_period-IsLeftOut s,
          (
            read_starting_algorithm-IsLeftOut s,
            (
              read_wfq_conf-IsLeftOut s,
              (
                read_performance_values-IsLeftOut s,
                (
                  read_enable_sw-IsLeftOut s,
                  (read_windows-IsLeftOut s, (read_buffer_size-IsLeftOut s, tt)),
                ),
              ),
            ),
          ),
        )
        (λ r h. h)

module _ (s : Settings) (no_aioli : s.lookup_int aioli_quantum ≡ none)
    (no_mlf : s.lookup_int mlf_quantum ≡ none) where
  quanta-IsLeftOut :
      (r : Reading)
      → IsOn r.config
      → Goes IsLeftOut
          (Steps.run (Steps.read_waiting_time s ∷ Steps.read_quanta s ∷ last_options s) r)
  unfolding Steps.run Steps.read_waiting_time Steps.read_quanta
  quanta-IsLeftOut r h =
      last_options-IsLeftOut s _ (h, rw no_aioli refl, rw (no_aioli, no_mlf) refl)

  -- A readable file without `trace`, `aioli_quantum` and `mlf_quantum`: whenever the call succeeds,
  -- tracing is on, and both quanta are the waiting time, whatever they were before.
  pub read_configuration_file-IsLeftOut :
      (config_file : Option (List ℕ)) (c : Config) {c' : Config}
      → s.readable (Steps.config_path config_file) ≡ true
      → s.lookup_bool trace ≡ none
      → Steps.read_configuration_file s config_file c ≡ returned c' true
      → IsLeftOut c'
  unfolding Steps.run Steps.library_options Steps.read_trace
  read_configuration_file-IsLeftOut config_file c readable no_trace e =
      finish-Goes IsLeftOut (Steps.run (Steps.library_options s) (Steps.start c))
        (run-Goes IsOn IsLeftOut (first_options s)
          (Steps.read_waiting_time s ∷ Steps.read_quanta s ∷ last_options s)
          (read_prefix-IsOn s, (read_sufix-IsOn s, (read_default_algorithm-IsOn s, tt)))
          quanta-IsLeftOut _ (rw no_trace refl))
        (sym (Steps.readable-run s config_file c readable) ∙ e)
