-- ===== src/Hashtable/Weight.antt =====
-- The requests that wait in the queues of the hash table, added up by a weight, and what a write
-- through a pointer to a file or a queue does to them.
use agios.Common.{
  ℕ, zero, suc, ◌+◌, ◌≡◌, refl, inl, inr, List, [], ◌∷◌, some, arith, All, Bool-cases,
}
use agios.Common.Text.{same_string}
use agios.Request.{FileId, Request, Queued, File}
use agios.Lines.{lookup_file, update_file}
use agios.State.{row, change_at}
use agios.Aggregation.Contents.{weight}

abbrev pub file_weight : (Request → ℕ) → File → ℕ
file_weight w f = weight w (f.read_queue).list + weight w (f.write_queue).list

abbrev pub line_weight : (Request → ℕ) → List File → ℕ
line_weight w [] = 0
line_weight w (f ∷ fs) = file_weight w f + line_weight w fs

abbrev pub table_weight : (Request → ℕ) → List (List File) → ℕ
table_weight w [] = 0
table_weight w (line ∷ lines) = line_weight w line + table_weight w lines

-- Every queued request of the table.
abbrev pub InFile {ℓ} : (Queued → Type ℓ) → File → Type ℓ
InFile P f = All P (f.read_queue).list × All P (f.write_queue).list

abbrev pub InTable {ℓ} : (Queued → Type ℓ) → List (List File) → Type ℓ
InTable P = All (All (InFile P))

module _ (Q : File → Type 0) (id : FileId) (change : File → File)
    (keeps : (f : File) → Q f → Q (change f)) where
  update_file-All : (line : List File) → All Q line → All Q (update_file id change line)
  unfolding update_file
  update_file-All [] h = tt
  update_file-All (f ∷ fs) h = elim (Bool-cases (same_string f.file_id id)) [
    | inl hit ↦ rw hit (keeps f h.0, h.1)
    | inr miss ↦ rw miss (h.0, update_file-All fs h.1)
  ]

  -- A property of all files survives a write that keeps it.
  pub change_at-All :
      (lines : List (List File)) (hash : ℕ)
      → All (All Q) lines
      → All (All Q) (change_at (update_file id change) lines hash)
  change_at-All [] hash h = tt
  change_at-All (line ∷ lines) zero h = (update_file-All line h.0, h.1)
  change_at-All (line ∷ lines) (suc hash) h = (h.0, change_at-All lines hash h.1)

module _ (w : Request → ℕ) (id : FileId) (change : File → File) where
  update_file-weight_same :
      ((f : File) → file_weight w (change f) ≡ file_weight w f)
      → (line : List File) → line_weight w (update_file id change line) ≡ line_weight w line
  unfolding update_file
  update_file-weight_same e [] = refl
  update_file-weight_same e (f ∷ fs) = ground (arith, e f, update_file-weight_same e fs)

  -- A write that leaves the lists of requests alone.
  pub table_weight-same :
      ((f : File) → file_weight w (change f) ≡ file_weight w f)
      → (lines : List (List File)) (hash : ℕ)
      → table_weight w (change_at (update_file id change) lines hash) ≡ table_weight w lines
  table_weight-same e [] hash = refl
  table_weight-same e (line ∷ lines) zero = omega (arith, update_file-weight_same e line)
  table_weight-same e (line ∷ lines) (suc hash) = omega (arith, table_weight-same e lines hash)

  update_file-weight :
      (line : List File) (f : File)
      → lookup_file id line ≡ some f
      → line_weight w (update_file id change line) + file_weight w f
        ≡ line_weight w line + file_weight w (change f)
  unfolding update_file lookup_file
  update_file-weight [] f e = cc
  update_file-weight (g ∷ fs) f e = elim (Bool-cases (same_string g.file_id id)) [
    | inl hit ↦ ground arith
    | inr miss ↦ ground (arith, update_file-weight fs f)
  ]

  -- A write to a file that is there replaces what it holds.
  pub table_weight-change :
      (lines : List (List File)) (hash : ℕ) (f : File)
      → lookup_file id (row lines hash) ≡ some f
      → table_weight w (change_at (update_file id change) lines hash) + file_weight w f
        ≡ table_weight w lines + file_weight w (change f)
  unfolding lookup_file
  table_weight-change [] hash f e = cc
  table_weight-change (line ∷ lines) zero f e = omega (arith, update_file-weight line f e)
  table_weight-change (line ∷ lines) (suc hash) f e =
      omega (arith, table_weight-change lines hash f e)
