-- ===== src/Trace/Session.antt =====
-- src/trace.c: a whole trace, from `init_trace_module` to `close_agios_trace`.
use agios.Common.{
  ℕ, ◌≤◌, ◌<◌, ◌≡◌, refl, ap, ◌∙◌, List, [], ◌∷◌, ◌++◌, none, some, true, false, arith, length,
}
use mathlib.Core.List.{append-nil, append_assoc}
use agios.Common.Int.{ℤ}
use agios.Request.{Request}
use agios.State.{Outcome, ok, ◌>>=◌}
use agios.Trace.{
  FilePath, FileSystem, Trace, unset, aux_buf_size, put_file, text_of, grown, required,
  agios_trace_add_request, agios_tracefile_flush_buffer, close_agios_trace,
}
use agios.Trace.Init.{Environment, TraceNames, filename_size, open_trace, init_trace_module}
use agios.Trace.Numbers.{numbered, is_taken, IsFirstFree, search-IsFirstFree}
use agios.Trace.Writing.{tracing, traced_line, add_request_lem, put_file_self, put_file_twice}

-- The arrivals of a run, in their order.
unfoldable pub trace_all : (ℤ → List ℕ) → (max : ℕ) → List Request → Trace → Outcome Trace
trace_all ld max [] tr = ok tr
trace_all ld max (r ∷ rs) tr = agios_trace_add_request ld max r tr >>= trace_all ld max rs

-- The lines of the requests, one after the other.
unfoldable pub trace_text : (ℤ → List ℕ) → (t0 : ℕ) → List Request → List ℕ
trace_text ld t0 [] = []
trace_text ld t0 (r ∷ rs) = traced_line ld t0 r ++ trace_text ld t0 rs

module _ (files : FileSystem) (name : FilePath) (t0 max : ℕ) (ld : ℤ → List ℕ)
    (large : aux_buf_size ≤ max) where
  trace_all_lem :
      (reqs : List Request) (written text : List ℕ)
      → (w : List ℕ) × (p : List ℕ) × (trace_all ld max reqs
            (tracing files name t0 max written (some text) (some []))
          ≡ ok (tracing files name t0 max w (some p) (some [])))
        × (w ++ p ≡ (written ++ text) ++ trace_text ld t0 reqs)
  unfolding trace_all trace_text
  trace_all_lem [] written text = (written, text, refl, rw (append-nil (written ++ text)) refl)
  trace_all_lem (r ∷ rs) written text =
      let (w, p, eq, joined, bound) =
        add_request_lem files name t0 max ld written (some text) (some []) r large in
      let (w', p', eq', joined') = trace_all_lem rs w p in
      (
        w',
        p',
        rw eq eq',
        joined'
            ∙ ap (λ (l : List ℕ). l ++ trace_text ld t0 rs) joined
            ∙ append_assoc (written ++ text) (traced_line ld t0 r) (trace_text ld t0 rs),
      )

  -- From the first request on, closing the trace leaves every line in the file.
  closing :
      (r : Request) (rs : List Request)
      → (closed : Trace) × ((trace_all ld max (r ∷ rs) (tracing files name t0 max [] none none)
            >>= close_agios_trace)
          ≡ ok closed)
        × (closed.files ≡ put_file name (trace_text ld t0 (r ∷ rs)) files)
  unfolding trace_all trace_text close_agios_trace agios_tracefile_flush_buffer required text_of
      grown
  closing r rs =
      let (w, p, eq, joined, bound) = add_request_lem files name t0 max ld [] none none r large in
      let (w', p', eq', joined') = trace_all_lem rs w p in
      let whole : w' ++ p' ≡ traced_line ld t0 r ++ trace_text ld t0 rs =
        joined' ∙ ap (λ (l : List ℕ). l ++ trace_text ld t0 rs) joined in
      (
        record (tracing files name t0 max (w' ++ p') (some p') (some [])) {
          agios_tracefile_fd = none;
          agios_tracefile_buffer_size = 0;
        },
        rw (eq, eq', put_file_self name w' files, put_file_twice name w' (w' ++ p') files) refl,
        rw whole refl,
      )

-- The module before its first use.
abbrev pub initial : FileSystem → Trace
initial files = record {
  files = files;
  agios_tracefile_fd = none;
  agios_trace_t0 = 0;
  agios_tracefile_buffer = unset;
  agios_tracefile_buffer_size = 0;
  aux_buf = unset;
}

module _ (ld : ℤ → List ℕ) (names : TraceNames) (env : Environment) (files : FileSystem) where
  opening :
      (name : FilePath) (max now : ℕ)
      → env.created ≡ true
      → env.buffer ≡ true
      → env.aux ≡ true
      → open_trace env max name (record (initial files) { agios_trace_t0 = now })
        ≡ (tracing files name now max [] none none, true)
  unfolding open_trace
  opening name max now created buffer aux = rw (created, buffer, aux) refl

  -- A session of the module, from its start to the closing of the trace.
  abbrev pub IsTraced : (fuel max now : ℕ) → List Request → FilePath → Type 0
  IsTraced fuel max now reqs name =
      (opened : Trace) × (closed : Trace) × (init_trace_module ld names env fuel max now
          (initial files)
        ≡ ok (some (opened, true)))
      × ((trace_all ld max reqs opened >>= close_agios_trace) ≡ ok closed)
      × (closed.files ≡ put_file name (trace_text ld now reqs) files)

  -- Where the file can be created and memory is found, the buffer is at least as large as the line
  -- buffer, and some number up to the fuel has no readable file (the names up to it fit the array):
  -- opening the trace succeeds, no call of a session with at least one request is undefined, and what
  -- stands in the file system afterwards is the old one with one more file, under the first number
  -- that was free, which holds the lines of the requests in the order of the calls.
  pub trace_session_lem :
      (fuel max now m : ℕ) (r : Request) (rs : List Request)
      → env.created ≡ true
      → env.buffer ≡ true
      → env.aux ≡ true
      → aux_buf_size ≤ max
      → 0 < m
      → m ≤ fuel
      → is_taken ld names env files m ≡ false
      → ((k : ℕ) → k ≤ m → length (numbered ld names env files k) < filename_size)
      → (n : ℕ) × IsFirstFree ld names env files 0 n
        × IsTraced fuel max now (r ∷ rs) (numbered ld names env files n)
  unfolding init_trace_module
  trace_session_lem fuel max now m r rs created buffer aux large above le free short =
      let (n, eq, first, _) =
        search-IsFirstFree ld names env files fuel 0 m above (omega arith) free short in
      let name = numbered ld names env files n in
      let (closed, run, same) = closing files name now max ld large r rs in
      (
        n,
        first,
        (
          tracing files name now max [] none none,
          closed,
          rw (eq, opening name max now created buffer aux) refl,
          run,
          same,
        ),
      )
