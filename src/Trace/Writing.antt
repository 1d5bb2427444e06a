-- ===== src/Trace/Writing.antt =====
-- src/trace.c: what one traced request does to the file and to the buffer in front of it.
use agios.Common.{
  ℕ, zero, suc, ◌+◌, ◌-◌, ◌≤◌, ◌<◌, ◌≡◌, refl, sym, ap, ◌∙◌, inl, inr, List, [], ◌∷◌, ◌++◌, Option,
  none, some, Bool, true, false, arith, ltb, leb, ◌&&◌, length, length-append, take, take_all,
  Bool-cases,
}
use mathlib.Core.List.{append-nil, append_assoc}
use mathlib.Core.Path.{fun_ext}
use native.Mathlib.Nat.{sub-zero, zero-add}
use agios.Common.Int.{ℤ}
use agios.Common.Text.{same_string, strcmp_self}
use agios.Request.{Request}
use agios.State.{Outcome, ok}
use agios.Trace.{
  FilePath, FileSystem, put_file, grown, Buffer, allocated, Trace, aux_buf_size, text_of, put_text,
  agios_tracefile_flush_buffer, agios_trace_write_to_buffer, agios_trace_print_request,
  agios_trace_add_request, request_text, time_text, required,
}

-- The line of a request as it stands in the file: its printed text, cut off where `aux_buf` ends.
unfoldable pub traced_line : (ℤ → List ℕ) → (t0 : ℕ) → Request → List ℕ
traced_line ld t0 req = take (aux_buf_size - 1) (time_text ld req t0 ++ request_text ld req)

-- What the buffer holds that the file has not: nothing before the first line.
abbrev pub pending : Option (List ℕ) → List ℕ
pending none = []
pending (some text) = text

abbrev pub line_buffer : Option (List ℕ) → Buffer
line_buffer content = allocated aux_buf_size content

-- The module between two calls: `written` stands in the file and `content` in the buffer.
abbrev pub tracing :
    FileSystem
    → FilePath
    → (t0 max : ℕ) → (written : List ℕ) → (content aux : Option (List ℕ)) → Trace
tracing files name t0 max written content aux = record {
  files = put_file name written files;
  agios_tracefile_fd = some name;
  agios_trace_t0 = t0;
  agios_tracefile_buffer = allocated max content;
  agios_tracefile_buffer_size = length (pending content);
  aux_buf = line_buffer aux;
}

pub put_file_self :
    (name : FilePath) (content : List ℕ) (files : FileSystem)
    → put_file name content files name ≡ some content
unfolding put_file
put_file_self name content files = rw (strcmp_self name) refl

pub put_file_twice :
    (name : FilePath) (c d : List ℕ) (files : FileSystem)
    → put_file name d (put_file name c files) ≡ put_file name d files
unfolding put_file
put_file_twice name c d files =
    fun_ext
      λ path. elim (Bool-cases (same_string name path)) [ inl e ↦ rw e refl | inr e ↦ rw e refl ]

pub take-append_fit :
    (n : ℕ) (xs ys : List ℕ) → take n xs ++ take (n - length (take n xs)) ys ≡ take n (xs ++ ys)
take-append_fit zero xs ys = refl
take-append_fit (suc n) [] ys = rw (sub-zero (suc n)) refl
take-append_fit (suc n) (x ∷ xs) ys =
    ap (λ k. x ∷ (take n xs ++ take k ys)) (omega arith) ∙ ap (◌∷◌ x) (take-append_fit n xs ys)

pub length-take_le : (n : ℕ) (xs : List ℕ) → length (take n xs) ≤ n
length-take_le zero xs = omega arith
length-take_le (suc n) [] = omega arith
length-take_le (suc n) (x ∷ xs) = omega (arith, length-take_le n xs)

abbrev room : (max offset : ℕ) → (text old : List ℕ) → Bool
room max offset text old = ltb (offset + length text) max && leb offset (length old)

room_lem :
    (max : ℕ) (old text : List ℕ)
    → length old + length text < max
    → room max (length old) text old ≡ true
room_lem max old text h = ground arith

room_start : (max : ℕ) (old text : List ℕ) → length text < max → room max 0 text old ≡ true
room_start max old text h = ground arith

-- A string that fits is written at the end of the one that the buffer holds.
pub put_text_end :
    (max : ℕ) (old text : List ℕ)
    → length old + length text < max
    → put_text (allocated max (some old)) (length old) text
      ≡ ok (allocated max (some (old ++ text)))
unfolding put_text
put_text_end max old text h = rw (room_lem max old text h) (rw (take_all old) refl)

pub put_text_start :
    (max : ℕ) (content : Option (List ℕ)) (text : List ℕ)
    → length text < max
    → put_text (allocated max content) 0 text ≡ ok (allocated max (some text))
unfolding put_text
put_text_start max none text h = ground arith
put_text_start max (some old) text h = rw (room_start max old text h) refl

-- `agios_trace_write_to_buffer` with a line that is shorter than the buffer: the file and the buffer
-- together hold one line more.
module _ (files : FileSystem) (name : FilePath) (t0 max : ℕ) where
  abbrev pub Written : (before line : List ℕ) → Outcome Trace → Type 0
  Written before line out =
      (w : List ℕ) × (p : List ℕ) × (out ≡ ok (tracing files name t0 max w (some p) (some [])))
      × (w ++ p ≡ before ++ line)
      × (length p < max)

  write_lem :
      (written : List ℕ) (content : Option (List ℕ)) (line : List ℕ)
      → length line < max
      → Written
          (written ++ pending content)
          line
          (agios_trace_write_to_buffer max (tracing files name t0 max written content (some line)))
  unfolding agios_trace_write_to_buffer agios_tracefile_flush_buffer required text_of grown
  write_lem written none line h =
      let small : leb max (0 + length line) ≡ false = ground arith in
      (
        written,
        line,
        rw
            (
              small,
              zero-add,
              put_text_start max none line h,
              put_text_start aux_buf_size (some line) [] (omega arith),
            )
            refl,
        rw (append-nil written) refl,
        h,
      )
  write_lem written (some text) line h = elim (Bool-cases (leb max (length text + length line))) [
    | inl full ↦ (
      written ++ text,
      line,
      rw
          (
            full,
            put_file_self name written files,
            put_file_twice name written (written ++ text) files,
            put_text_start max (some text) line h,
            put_text_start aux_buf_size (some line) [] (omega arith),
            zero-add (length line),
          )
          refl,
      refl,
      h,
    )
    | inr small ↦ (
      written,
      text ++ line,
      rw
          (
            small,
            put_text_end max text line (ground arith),
            put_text_start aux_buf_size (some line) [] (omega arith),
            ← length-append text line,
          )
          refl,
      sym (append_assoc written text line),
      ground (arith, length-append text line),
    )
  ]

  pub add_request_lem :
      (ld : ℤ → List ℕ) (written : List ℕ) (content aux : Option (List ℕ)) (req : Request)
      → aux_buf_size ≤ max
      → Written
          (written ++ pending content)
          (traced_line ld t0 req)
          (agios_trace_add_request ld max req (tracing files name t0 max written content aux))
  unfolding agios_trace_add_request agios_trace_print_request traced_line text_of
  add_request_lem ld written content aux req h =
      let time = time_text ld req t0 in
      let text = request_text ld req in
      let start = take (aux_buf_size - 1) time in
      let end_of = take (aux_buf_size - length start - 1) text in
      let fits : length start + length end_of < aux_buf_size = omega (
        arith,
        length-take_le (aux_buf_size - 1) time,
        length-take_le (aux_buf_size - length start - 1) text,
      ) in
      let whole : start ++ end_of ≡ take (aux_buf_size - 1) (time ++ text) =
        ap (λ (k : ℕ). start ++ take k text)
          (let e : aux_buf_size - length start - 1 ≡ aux_buf_size - 1 - length start =
              omega arith in
            e)
        ∙ take-append_fit (aux_buf_size - 1) time text in
      rw
        (
          put_text_start aux_buf_size aux start (omega arith),
          put_text_end aux_buf_size start end_of fits,
          whole,
        )
        (write_lem written content (take (aux_buf_size - 1) (time ++ text))
          (omega (arith, length-take_le (aux_buf_size - 1) (time ++ text))))
