-- ===== src/Trace/Restart.antt =====
-- src/trace.c: what opening a trace does to the other files, and the calls after a failed opening and
-- after `cleanup_agios_trace`.
use agios.Common.{
  ℕ, zero, suc, ◌≡◌, refl, sym, ap, ◌∙◌, List, Option, none, some, Bool, true, false, arith,
  Bool-cases, inl, inr,
}
use agios.Common.Int.{ℤ}
use agios.Common.Text.{same_string, eq_of_same}
use agios.Request.{Request}
use agios.State.{Outcome, ok, fault, ◌>>=◌}
use agios.Trace.{
  FilePath, FileSystem, Buffer, allocated, cleanup_agios_trace, Trace, released, put_text, free,
  agios_trace_add_request, agios_tracefile_flush_buffer, required, close_agios_trace,
}
use agios.Trace.Init.{
  Environment, TraceNames, found, search_name, open_found, open_trace, init_trace_module, prepared,
  is_set,
}

-- The name that the search ends with is of no file that can be read.
search_name-free :
    (ld : ℤ → List ℕ) (names : TraceNames) (env : Environment) (files : FileSystem)
    (fuel counter : ℕ) (name : FilePath)
    → search_name ld names env files fuel counter ≡ ok (some name)
    → found files env.readable name ≡ false
unfolding search_name
search_name-free ld names env files zero counter name h = cc
search_name-free ld names env files (suc fuel) counter name h =
    ground (arith, search_name-free ld names env files fuel (suc counter) name)

found_file :
    (files : FileSystem) (readable : FilePath → Bool) (path : FilePath) (content : List ℕ)
    → files path ≡ some content
    → readable path ≡ true
    → found files readable path ≡ true
unfolding found
found_file files readable path content e h = rw (e, found) h

open_trace-keeps :
    (env : Environment) (max : ℕ) (name path : FilePath) (tr : Trace)
    → same_string name path ≡ false
    → (open_trace env max name tr).0.files path ≡ tr.files path
unfolding open_trace
open_trace-keeps env max name path tr other = elim (Bool-cases env.created) [
  | inl e ↦ rw (e, other) refl
  | inr e ↦ rw e refl
]

open_trace-released :
    (env : Environment) (max : ℕ) (name : FilePath) (tr : Trace)
    → tr.aux_buf ≡ released
    → (open_trace env max name tr).0.aux_buf ≡ released
unfolding open_trace
open_trace-released env max name tr gone = elim (Bool-cases env.created) [
  | inl e ↦ elim (Bool-cases (is_set (prepared tr.agios_tracefile_buffer env.buffer max))) [
    | inl made ↦ rw (e, made, gone) refl
    | inr missing ↦ rw (e, missing) gone
  ]
  | inr e ↦ rw e gone
]

open_trace-failed :
    (env : Environment) (max : ℕ) (name : FilePath) (tr : Trace)
    → env.created ≡ false
    → open_trace env max name tr ≡ (record tr { agios_tracefile_fd = none }, false)
unfolding open_trace
open_trace-failed env max name tr failed = rw failed refl

pub no_file : (tr : Trace) → tr.agios_tracefile_fd ≡ none → close_agios_trace tr ≡ fault
unfolding close_agios_trace agios_tracefile_flush_buffer required
no_file tr e = rw e refl

no_line :
    (ld : ℤ → List ℕ) (max : ℕ) (req : Request) (tr : Trace)
    → tr.aux_buf ≡ released
    → agios_trace_add_request ld max req tr ≡ fault
unfolding agios_trace_add_request put_text
no_line ld max req tr e = rw e refl

-- The paths differ if one can be read and the other cannot.
other_path :
    (files : FileSystem) (readable : FilePath → Bool) (name path : FilePath)
    → found files readable name ≡ false
    → found files readable path ≡ true
    → same_string name path ≡ false
other_path files readable name path free here = elim (Bool-cases (same_string name path)) [
  | inl e ↦
      let clash : false ≡ true =
        sym free ∙ ap (found files readable) (eq_of_same name path e) ∙ here in
      cc
  | inr e ↦ e
]

cleaned_line :
    (before after : Trace) (capacity : ℕ) (content : Option (List ℕ))
    → before.aux_buf ≡ allocated capacity content
    → cleanup_agios_trace before ≡ ok after
    → after.aux_buf ≡ released
unfolding cleanup_agios_trace free
cleaned_line before after capacity content set e = go (free before.agios_tracefile_buffer) refl
  where
    go : (o : Outcome Buffer) → free before.agios_tracefile_buffer ≡ o → after.aux_buf ≡ released
    go fault h = cc
    go (ok b) h =
        let done : ok (record before { agios_tracefile_buffer = b; aux_buf = released })
            ≡ ok after =
          sym (rw (h, set) refl) ∙ e in
        cc

module _ (ld : ℤ → List ℕ) (names : TraceNames) (env : Environment) (fuel max now : ℕ)
    (tr : Trace) where
  -- What a call of `init_trace_module` that returns has done.
  abbrev OpenedUnder : Trace → Bool → Type 0
  OpenedUnder opened done =
      (name : FilePath) × (found tr.files env.readable name ≡ false)
      × (open_trace env max name (record tr { agios_trace_t0 = now }) ≡ (opened, done))

  opened_after :
      {opened : Trace} {done : Bool} (out : Outcome (Option FilePath))
      → search_name ld names env tr.files fuel 0 ≡ out
      → (out >>= λ name. ok (open_found env max (record tr { agios_trace_t0 = now }) name))
        ≡ ok (some (opened, done))
      → OpenedUnder opened done
  unfolding open_found
  opened_after fault e h = cc
  opened_after (ok none) e h = cc
  opened_after (ok (some name)) e h =
      (name, search_name-free ld names env tr.files fuel 0 name e, cc)

  opened_lem :
      {opened : Trace} {done : Bool}
      → init_trace_module ld names env fuel max now tr ≡ ok (some (opened, done))
      → OpenedUnder opened done
  unfolding init_trace_module open_found
  opened_lem h = opened_after (search_name ld names env tr.files fuel 0) refl h

  -- A file that can be read is not touched, whatever else the call does.
  pub init_trace_module-keeps :
      {opened : Trace} {done : Bool} (path : FilePath) (content : List ℕ)
      → tr.files path ≡ some content
      → env.readable path ≡ true
      → init_trace_module ld names env fuel max now tr ≡ ok (some (opened, done))
      → opened.files path ≡ some content
  init_trace_module-keeps path content here readable h =
      let (name, free, eq) = opened_lem h in
      let other =
        other_path tr.files env.readable name path free
          (found_file tr.files env.readable path content here readable) in
      let started = record tr { agios_trace_t0 = now } in
      ap (λ (p : Trace × Bool). p.0.files path) (sym eq)
      ∙ open_trace-keeps env max name path started other
      ∙ here

  -- If the file cannot be created the call reports it, and closing the trace is undefined.
  pub failed_open-fault :
      {opened : Trace} {done : Bool}
      → env.created ≡ false
      → init_trace_module ld names env fuel max now tr ≡ ok (some (opened, done))
      → (done ≡ false) × (close_agios_trace opened ≡ fault)
  failed_open-fault failed h =
      let (name, free, eq) = opened_lem h in
      let e = sym eq ∙ open_trace-failed env max name (record tr { agios_trace_t0 = now }) failed in
      (
        ap (λ (p : Trace × Bool). p.1) e,
        no_file _ (ap (λ (p : Trace × Bool). p.0.agios_tracefile_fd) e),
      )

  -- After a `cleanup_agios_trace` that found the line buffer allocated and returned, and a call of
  -- `init_trace_module` that returns, the next call that traces a request is undefined: the
  -- pointer to the freed line buffer stayed set, and the request is written there.
  pub restart-fault :
      {opened : Trace} {done : Bool} (before : Trace) (req : Request) (capacity : ℕ)
      (content : Option (List ℕ))
      → cleanup_agios_trace before ≡ ok tr
      → before.aux_buf ≡ allocated capacity content
      → init_trace_module ld names env fuel max now tr ≡ ok (some (opened, done))
      → agios_trace_add_request ld max req opened ≡ fault
  restart-fault before req capacity content e set h =
      let (name, free, eq) = opened_lem h in
      no_line ld max req _ (
        ap (λ (p : Trace × Bool). p.0.aux_buf) (sym eq)
        ∙ open_trace-released env max name (record tr { agios_trace_t0 = now })
            (cleaned_line before tr capacity content set e))
