-- ===== src/Trace/Init.antt =====
-- src/trace.c: `init_trace_module`, which looks for the first number that no trace file has yet. What
-- the environment decides is an argument: which files may be read, whether the new file can be
-- created, and the outcomes of `malloc`.
use agios.Common.{
  ℕ, suc, zero, List, Option, none, some, Bool, true, false, ◌&&◌, ltb, if◌then◌else◌, length, [],
}
use agios.Common.Int.{ℤ}
use agios.State.{Outcome, ok, fault, ◌>>=◌}
use agios.Trace.{
  FilePath, FileSystem, Trace, Buffer, unset, released, allocated, aux_buf_size, put_file,
  trace_name,
}

-- The size of `filename`.
abbrev pub filename_size : ℕ
filename_size = 256

pub record Environment : Type 0 where
  pub readable : FilePath → Bool
  pub created : Bool
  pub buffer : Bool
  pub aux : Bool

pub record TraceNames : Type 0 where
  pub prefix : List ℕ
  pub sufix : List ℕ

-- Whether `fopen(name, "r")` finds a file that it may read.
unfoldable pub found : FileSystem → (readable : FilePath → Bool) → FilePath → Bool
found files readable name = elim (files name) [ none ↦ false | some content ↦ readable name ]

-- The buffer of the trace, which is allocated if it is NULL.
unfoldable pub prepared : Buffer → (malloc : Bool) (size : ℕ) → Buffer
prepared unset true size = allocated size none
prepared unset false size = unset
prepared released malloc size = released
prepared (allocated capacity content) malloc size = allocated capacity content

unfoldable pub is_set : Buffer → Bool
is_set unset = false
is_set _ = true

module _ (ld : ℤ → List ℕ) where
  -- The do-while loop, from the counter before its next round. `none` means that the fuel ran out.
  unfoldable pub search_name :
      TraceNames → Environment → FileSystem → (fuel counter : ℕ) → Outcome (Option FilePath)
  unfolding found trace_name
  search_name names env files zero counter = ok none
  search_name names env files (suc fuel) counter =
      let name = trace_name ld names.prefix names.sufix (suc counter) in
      let rest = search_name names env files fuel (suc counter) in
      if ltb (length name) filename_size
      then (if found files env.readable name then rest else ok (some name))
      else fault

-- The part of `init_trace_module` after the search.
unfoldable pub open_trace : Environment → (max : ℕ) → FilePath → Trace → Trace × Bool
unfolding prepared is_set put_file
open_trace env max name tr =
    if env.created
    then (let buffer = prepared tr.agios_tracefile_buffer env.buffer max in
        let aux = if is_set buffer then prepared tr.aux_buf env.aux aux_buf_size else tr.aux_buf in
        (
          record tr {
            files = put_file name [] tr.files;
            agios_tracefile_fd = some name;
            agios_tracefile_buffer = buffer;
            agios_tracefile_buffer_size =
                if is_set tr.agios_tracefile_buffer then 0 else tr.agios_tracefile_buffer_size;
            aux_buf = aux;
          },
          is_set buffer && is_set aux,
        ))
    else (record tr { agios_tracefile_fd = none }, false)

unfoldable pub open_found :
    Environment → (max : ℕ) → Trace → Option FilePath → Option (Trace × Bool)
unfolding open_trace
open_found env max tr none = none
open_found env max tr (some name) = some (open_trace env max name tr)

unfoldable pub init_trace_module :
    (ℤ → List ℕ)
    → TraceNames
    → Environment
    → (fuel max now : ℕ) → Trace
    → Outcome (Option (Trace × Bool))
unfolding search_name open_found
init_trace_module ld names env fuel max now tr = do
  name ← search_name ld names env tr.files fuel 0
  ok (open_found env max (record tr { agios_trace_t0 = now }) name)
