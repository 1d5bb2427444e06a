-- ===== src/Agios/Init.antt =====
-- What `agios_init` (src/agios.c) gives its user, with all its parts.
use agios.Common.{if-true, ℕ, ◌≡◌, refl, ap, ◌∙◌, List, none, Bool, true, false, All}
use agios.Common.Int.{ℤ}
use agios.Common.Text.{same_string}
use agios.State.{State, fault}
use agios.Config.{Config, returned}
use agios.Config.Complete.{read_configuration_file-refused}
use agios.Config.Values.{Values, file_of}
use agios.Config.Steps.{read_configuration_file}
use agios.Trace.Restart.{no_file}
use agios.Agios.{Library, Start, agios_init, after_configuration, fail_init, cleanup_agios}

-- The clean-up closes the trace, which was never opened.
fail-fault :
    (l : Library)
    → (l.config).config_trace_agios ≡ true
    → (l.trace).agios_tracefile_fd ≡ none
    → fail_init l ≡ fault
unfolding fail_init cleanup_agios
fail-fault l traced closed = rw (traced, no_file l.trace closed) refl

module _ (ld : ℤ → List ℕ) (fuel : ℕ) (start : Start) (l : Library) (v : Values) where
  init-read :
      {c : Config} {b : Bool}
      → start.process_request ≡ true
      → start.settings ≡ file_of v
      → read_configuration_file (file_of v) start.config_file l.config ≡ returned c b
      → agios_init ld fuel start l ≡ after_configuration ld fuel start l (returned c b)
  unfolding agios_init
  init-read callback same e =
      if-true _ _ callback
      ∙ ap
          (λ s.
            after_configuration ld fuel start l
              (read_configuration_file s start.config_file l.config))
          same
      ∙ ap (after_configuration ld fuel start l) e

  -- A configuration file with every option whose default algorithm is not in the table, and which asks
  -- for traces, before any trace was opened: the call does not return false as it should, but closes a
  -- trace file that was never opened, which is undefined.
  pub agios_init-refused :
      start.process_request ≡ true
      → start.settings ≡ file_of v
      → All (λ a. same_string v.default_name a.name ≡ false) (l.config).schedulers
      → v.trace_value ≡ true
      → (l.trace).agios_tracefile_fd ≡ none
      → agios_init ld fuel start l ≡ fault
  agios_init-refused callback same unknown traced closed =
      init-read callback same (read_configuration_file-refused v start.config_file l.config unknown)
      ∙ fail-fault _ traced closed
