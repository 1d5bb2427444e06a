-- ===== src/Hashtable/Enter.antt =====
-- `hashtable_add_req` (src/req_hashtable.c) finds or adds the file of a request.
use agios.Common.{
  ℕ, ◌<◌, ◌≡◌, refl, sym, ap, ◌∙◌, inl, inr, List, [], ◌∷◌, Option, some, true, arith, All, length,
  length-set, set, zero, suc, Bool-cases, ◌==◌,
}
use mathlib.Core.Path.{subst}
use agios.Common.Int.{ℤ}
use agios.Common.Text.{same_string}
use agios.Request.{FileId, Request, Queued, File}
use agios.Lines.{lookup_file, find_req_file, count_file, Rises}
use agios.Lines.Search.{find_req_file_lem}
use agios.State.{State, Memory, row, change_at, change_file}
use agios.Aggregation.Insertion.{Fits}
use agios.Hashtable.{first_request, enter_file}
use agios.Hashtable.Weight.{
  file_weight, line_weight, table_weight, InFile, InTable, change_at-All, table_weight-same,
}
use agios.Hashtable.Insert.{
  found_some, insert-Entered, table_weight-set, All-set_row, All-row, row-set, change_at-Rises,
  change_at-found,
}

pub length-change_at :
    {A : Type 0} (change : A → A) (xs : List A) (i : ℕ) → length (change_at change xs i) ≡ length xs
length-change_at change [] i = refl
length-change_at change (x ∷ xs) zero = refl
length-change_at change (x ∷ xs) (suc i) = ap suc (length-change_at change xs i)

-- The table is in order: its lines rise, and every queued request counts its parts and is not larger
-- than the scheduler allows.
pub record IsOrdered (max : ℕ) (lines : List (List File)) : Type 0 where
  pub rises : All Rises lines
  pub fits : InTable (Fits max) lines

first_request-weight :
    (w : Request → ℕ) (t : ℕ) (f : File) → file_weight w (first_request t f) ≡ file_weight w f
first_request-weight w t f = ground arith

first_request-same : (t : ℕ) (f : File) → (first_request t f).file_id ≡ f.file_id
first_request-same t f = ground arith

first_request-InFile :
    (P : Queued → Type 0) (t : ℕ) (f : File) → InFile P f → InFile P (first_request t f)
first_request-InFile P t f h = elim (Bool-cases (f.first_request_time == 0)) [
  | inl first ↦ rw first h
  | inr again ↦ rw again h
]

-- The state in which the file of a request is there, and the requests are as before.
abbrev HasEntered : (Request → ℕ) → ℕ → Request → ℕ → State → Option State → Type 0
HasEntered w max req hash s o =
    (s' : State) × (o ≡ some s')
    × (table_weight w s'.hashlist ≡ table_weight w s.hashlist)
    × IsOrdered max s'.hashlist
    × ((f : File) × (lookup_file req.file_id (row s'.hashlist hash) ≡ some f))
    × (s'.timeline ≡ s.timeline)
    × (s'.current_reqnb ≡ s.current_reqnb)
    × (length s'.hashlist ≡ length s.hashlist)

-- What `find_req_file` returns for a line of a table that is in order.
module _ (w : Request → ℕ) (P : Queued → Type 0) (id : FileId) (line : List File) (filenb : ℤ) where
  abbrev HasFound : List File → ℤ → Type 0
  HasFound line' filenb' =
      (find_req_file true true line id filenb ≡ some (line', filenb'))
      × Rises line'
      × ((f : File) × (lookup_file id line' ≡ some f))
      × (line_weight w line' ≡ line_weight w line)
      × (All (InFile P) line → All (InFile P) line')

  find_req_file-HasFound : Rises line → (line' : List File) × (filenb' : ℤ) × HasFound line' filenb'
  unfolding find_req_file
  find_req_file-HasFound r =
      let a = find_req_file_lem id line filenb r in
      let b = insert-Entered w P id line in
      let e : some (a.0, a.1) ≡ count_file id filenb (some b.0) =
        sym (a.2) ∙ ap (count_file id filenb) (b.1) in
      let same : a.0 ≡ b.0 = cc in
      let f = found_some id (lookup_file id line) in
      (a.0, a.1, (a.2, a.3, (f.0, a.4.here ∙ f.1), rw same (b.2), rw same (b.3)))

enter_file-eq :
    (mem : Memory) (req : Request) (hash : ℕ) (s : State) (line : List File) (filenb : ℤ)
    → find_req_file mem.file mem.file_id (row s.hashlist hash) req.file_id s.current_filenb
      ≡ some (line, filenb)
    → enter_file mem req hash s
      ≡ some (
          change_file hash req.file_id
            (first_request req.arrival_time)
            (record s { hashlist = set s.hashlist hash line; current_filenb = filenb }))
unfolding enter_file
enter_file-eq mem req hash s line filenb e = rw (e, enter_file) refl

module _ (w : Request → ℕ) (max : ℕ) (mem : Memory)
    (memory : (mem.file ≡ true) × (mem.file_id ≡ true)) where
  pub enter_file-HasEntered :
      (req : Request) (hash : ℕ) (s : State)
      → hash < length s.hashlist
      → IsOrdered max s.hashlist
      → HasEntered w max req hash s (enter_file mem req hash s)
  unfolding enter_file
  enter_file-HasEntered req hash s h o =
      let id : FileId = req.file_id in
      let found =
        find_req_file-HasFound w (Fits max) id (row s.hashlist hash) s.current_filenb
          (All-row Rises s.hashlist hash h o.rises) in
      let table : List (List File) = set s.hashlist hash found.0 in
      let change : File → File = first_request req.arrival_time in
      let same = first_request-same req.arrival_time in
      (
        change_file hash id change (record s { hashlist = table; current_filenb = found.1 }),
        enter_file-eq mem req hash s found.0 found.1 (rw (memory.0, memory.1) (found.2.0)),
        table_weight-same w id change (first_request-weight w req.arrival_time) table hash
            ∙ table_weight-set w (Fits max) s.hashlist hash found.0 h found.2.3,
        record {
          rises =
              change_at-Rises id change same table hash
                (All-set_row Rises s.hashlist hash found.0 o.rises found.2.1);
          fits =
              change_at-All (InFile (Fits max)) id change
                (first_request-InFile (Fits max) req.arrival_time) table hash
                (All-set_row (All (InFile (Fits max))) s.hashlist hash found.0 o.fits
                  (found.2.4 (All-row (All (InFile (Fits max))) s.hashlist hash h o.fits)));
        },
        (
          change found.2.2.0,
          change_at-found id change same table hash found.2.2.0
              (ap (lookup_file id) (row-set s.hashlist hash found.0 h) ∙ found.2.2.1),
        ),
        refl,
        refl,
        length-change_at _ table hash ∙ length-set s.hashlist hash found.0,
      )

pub lookup-All :
    (Q : File → Type 0) (id : FileId) (line : List File) (f : File)
    → All Q line
    → lookup_file id line ≡ some f
    → Q f
unfolding lookup_file
lookup-All Q id [] f a e = cc
lookup-All Q id (g ∷ fs) f a e = elim (Bool-cases (same_string g.file_id id)) [
  | inl hit ↦ let p : g ≡ f = ground arith in subst Q p a.0
  | inr miss ↦ lookup-All Q id fs f a.1 (ground arith)
]
