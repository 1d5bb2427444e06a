-- ===== src/Trace.antt =====
-- src/trace.c: the trace file, the buffer in front of it and the line buffer `aux_buf`. `printf`'s
-- printing of numbers (`%ld`, `%d`) is the parameter `ld`. The file system gives what `fopen` finds
-- under a name, and takes every byte that is written; the mutex makes each call one step.
pub mod Init
pub mod Writing
pub mod Session
pub mod Numbers
pub mod Restart
use agios.Common.{
  ℕ, zero, suc, ◌+◌, ◌-◌, List, [], ◌∷◌, ◌++◌, ◌&&◌, Option, none, some, Bool, true, false, ltb,
  leb, ◌==◌, if◌then◌else◌, length, take,
}
use agios.Common.Int.{ℤ, pos, ◌-ℤ◌}
use agios.Common.Text.{codes, same_string}
use agios.Request.{Request, RequestType, rt_read, rt_write}
use agios.State.{Outcome, ok, fault, ◌>>=◌}

abbrev pub FilePath : Type 0
FilePath = List ℕ

-- The contents of the files that exist.
abbrev pub FileSystem : Type 0
FileSystem = FilePath → Option (List ℕ)

unfoldable pub put_file : FilePath → List ℕ → FileSystem → FileSystem
put_file name content files path = if same_string name path then some content else files path

-- A `char *` of the module: NULL, dangling, or a block with the string that stands in it, if one was
-- written.
pub data Buffer : Type 0 where
  unset : Buffer
  released : Buffer
  allocated : (capacity : ℕ) (content : Option (List ℕ)) → Buffer

-- The static variables of the module, and the file system.
pub record Trace : Type 0 where
  pub files : FileSystem
  pub agios_tracefile_fd : Option FilePath
  pub agios_trace_t0 : ℕ
  pub agios_tracefile_buffer : Buffer
  pub agios_tracefile_buffer_size : ℕ
  pub aux_buf : Buffer

abbrev pub aux_buf_size : ℕ
aux_buf_size = 300

unfoldable pub required {ℓ} : {A : Type ℓ} → Option A → Outcome A
required none = fault
required (some a) = ok a

-- The string that a buffer holds: reading any other buffer is undefined.
unfoldable pub text_of : Buffer → Outcome (List ℕ)
text_of unset = fault
text_of released = fault
text_of (allocated capacity none) = fault
text_of (allocated capacity (some text)) = ok text

-- A string that is written at an offset of a buffer, with its end: what stood behind the offset is
-- cut off.
unfoldable pub put_text : Buffer → ℕ → List ℕ → Outcome Buffer
put_text unset offset text = fault
put_text released offset text = fault
put_text (allocated capacity none) offset text =
    if ltb (offset + length text) capacity && (offset == 0)
    then ok (allocated capacity (some text))
    else fault
put_text (allocated capacity (some old)) offset text =
    if ltb (offset + length text) capacity && leb offset (length old)
    then ok (allocated capacity (some (take offset old ++ text)))
    else fault

-- What `snprintf` with a bound leaves of a text.
abbrev pub snprintf : ℕ → List ℕ → List ℕ
snprintf bound text = take (bound - 1) text

-- The end of a file after `fprintf`.
unfoldable pub grown : Option (List ℕ) → List ℕ → List ℕ
grown none text = text
grown (some old) text = old ++ text

unfoldable pub agios_tracefile_flush_buffer : Trace → Outcome Trace
unfolding required text_of grown put_file
agios_tracefile_flush_buffer tr = do
  name ← required tr.agios_tracefile_fd
  text ← text_of tr.agios_tracefile_buffer
  ok (record tr {
    files = put_file name (grown (tr.files name) text) tr.files;
    agios_tracefile_buffer_size = 0;
  })

unfoldable pub agios_trace_write_to_buffer :
    (config_agios_max_trace_buffer_size : ℕ) → Trace → Outcome Trace
unfolding agios_tracefile_flush_buffer text_of
agios_trace_write_to_buffer max tr = do
  line ← text_of tr.aux_buf
  tr1 ←
      if leb max (tr.agios_tracefile_buffer_size + length line)
      then agios_tracefile_flush_buffer tr
      else ok tr
  buffer ← put_text tr1.agios_tracefile_buffer tr1.agios_tracefile_buffer_size line
  aux ← put_text tr1.aux_buf 0 []
  ok (record tr1 {
    agios_tracefile_buffer = buffer;
    agios_tracefile_buffer_size = tr1.agios_tracefile_buffer_size + length line;
    aux_buf = aux;
  })

module _ (ld : ℤ → List ℕ) where
  unfoldable pub type_mark : RequestType → List ℕ
  type_mark rt_read = 9 ∷ b'R' ∷ 9 ∷ []
  type_mark rt_write = 9 ∷ b'W' ∷ 9 ∷ []

  -- "%s\tR\t%ld\t%ld\n" or "%s\tW\t%ld\t%ld\n".
  unfoldable pub request_text : Request → List ℕ
  unfolding type_mark
  request_text req =
      req.file_id
      ++ (type_mark req.type ++ (ld (pos req.offset) ++ 9 ∷ (ld (pos req.len) ++ 10 ∷ [])))

  unfoldable pub agios_trace_print_request : Request → Trace → Outcome Trace
  unfolding request_text text_of
  agios_trace_print_request req tr = do
    text ← text_of tr.aux_buf
    let index = length text
    aux ← put_text tr.aux_buf index (snprintf (aux_buf_size - index) (request_text req))
    ok (record tr { aux_buf = aux })

  unfoldable pub time_text : Request → (agios_trace_t0 : ℕ) → List ℕ
  time_text req t0 = ld (pos req.arrival_time -ℤ pos t0) ++ 9 ∷ []

  unfoldable pub agios_trace_add_request : (max : ℕ) → Request → Trace → Outcome Trace
  unfolding agios_trace_print_request agios_trace_write_to_buffer time_text
  agios_trace_add_request max req tr = do
    aux ← put_text tr.aux_buf 0 (snprintf aux_buf_size (time_text req tr.agios_trace_t0))
    tr1 ← agios_trace_print_request req (record tr { aux_buf = aux })
    agios_trace_write_to_buffer max tr1

  unfoldable pub trace_name : (prefix sufix : List ℕ) → ℕ → FilePath
  trace_name prefix sufix counter = prefix ++ (b'.' ∷ (ld (pos counter) ++ (b'.' ∷ sufix)))

-- `free` of a buffer that is set: the pointer itself keeps its value.
unfoldable pub free : Buffer → Outcome Buffer
free unset = ok unset
free released = fault
free (allocated capacity content) = ok released

unfoldable pub cleanup_agios_trace : Trace → Outcome Trace
unfolding free
cleanup_agios_trace tr = do
  buffer ← free tr.agios_tracefile_buffer
  aux ← free tr.aux_buf
  ok (record tr { agios_tracefile_buffer = buffer; aux_buf = aux })

unfoldable pub close_agios_trace : Trace → Outcome Trace
unfolding agios_tracefile_flush_buffer
close_agios_trace tr = do
  tr1 ← agios_tracefile_flush_buffer tr
  ok (record tr1 { agios_tracefile_fd = none })
