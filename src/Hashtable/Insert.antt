-- ===== src/Hashtable/Insert.antt =====
-- What a new file changes in a line of the table: nothing that waits there (src/req_hashtable.c).
use agios.Common.{
  ℕ, zero, suc, ◌<◌, ◌≡◌, refl, ap, inl, inr, List, [], ◌∷◌, Option, none, some, true, false, arith,
  All, length, set, Bool-cases,
}
use agios.Common.Text.{strcmp, same_string}
use agios.Request.{FileId, Request, Queued, File, file_init, file_constructor, init_queue}
use agios.Lines.{lookup_file, update_file, find_or_insert, Rises, RisesFrom, put_before}
use agios.Lines.Search.{or_else}
use agios.Lines.Order.{Sign-cases}
use agios.State.{row, change_at}
use agios.Hashtable.Weight.{line_weight, table_weight, InFile}

-- A file that was just made; its queues are empty.
abbrev IsFresh : File → Type 0
IsFresh f = ((f.read_queue).list ≡ []) × ((f.write_queue).list ≡ [])

constructed : (id : FileId) → (n : File) × (file_constructor true true id ≡ some n) × IsFresh n
unfolding file_constructor file_init init_queue
constructed id = (_, refl, (refl, refl))

pub found_some :
    (id : FileId) (o : Option File)
    → (f : File) × (or_else o (file_constructor true true id) ≡ some f)
found_some id none = let n = constructed id in (n.0, n.1)
found_some id (some f) = (f, refl)

module _ (w : Request → ℕ) (P : Queued → Type 0) where
  -- A call that keeps the requests of the line, and a property that all of them have.
  abbrev pub Entered : List File → Option (List File) → Type 0
  Entered line o =
      (line' : List File) × (o ≡ some line')
      × (line_weight w line' ≡ line_weight w line)
      × (All (InFile P) line → All (InFile P) line')

  pub insert-Entered :
      (id : FileId) (line : List File) → Entered line (find_or_insert true true line id)
  unfolding find_or_insert
  insert-Entered id [] =
      let n = constructed id in
      (
        n.0 ∷ [],
        ap (put_before []) (n.1),
        rw (n.2.0, n.2.1) refl,
        λ h. (rw (n.2.0, n.2.1) (tt, tt), tt),
      )
  insert-Entered id (f ∷ fs) = elim (Sign-cases (strcmp f.file_id id)) [
    | inl below ↦
        let ih = insert-Entered id fs in
        (f ∷ ih.0, rw (below, find_or_insert, ih.1) refl, omega (arith, ih.2), λ h. (h.0, ih.3 h.1))
    | inr (inl same) ↦ (f ∷ fs, rw (same, find_or_insert) refl, refl, λ h. h)
    | inr (inr above) ↦
        let n = constructed id in
        (
          n.0 ∷ f ∷ fs,
          rw (above, find_or_insert) (ap (put_before (f ∷ fs)) (n.1)),
          rw (n.2.0, n.2.1) (omega arith),
          λ h. (rw (n.2.0, n.2.1) (tt, tt), h),
        )
  ]

  pub table_weight-set :
      (lines : List (List File)) (hash : ℕ) (line : List File)
      → hash < length lines
      → line_weight w line ≡ line_weight w (row lines hash)
      → table_weight w (set lines hash line) ≡ table_weight w lines
  table_weight-set [] hash line h e = absurd (omega arith)
  table_weight-set (l ∷ lines) zero line h e = omega (arith, e)
  table_weight-set (l ∷ lines) (suc hash) line h e =
      omega (arith, table_weight-set lines hash line (omega arith) e)

module _ {ℓ} {A : Type ℓ} (P : List A → Type 0) where
  pub All-set_row :
      (lines : List (List A)) (hash : ℕ) (line : List A)
      → All P lines
      → P line
      → All P (set lines hash line)
  All-set_row [] hash line a h = tt
  All-set_row (l ∷ lines) zero line a h = (h, a.1)
  All-set_row (l ∷ lines) (suc hash) line a h = (a.0, All-set_row lines hash line a.1 h)

  pub All-row :
      (lines : List (List A)) (hash : ℕ) → hash < length lines → All P lines → P (row lines hash)
  All-row [] hash h a = absurd (omega arith)
  All-row (l ∷ lines) zero h a = a.0
  All-row (l ∷ lines) (suc hash) h a = All-row lines hash (omega arith) a.1

pub row-set :
    {A : Type 0} (lines : List (List A)) (hash : ℕ) (line : List A)
    → hash < length lines
    → row (set lines hash line) hash ≡ line
row-set [] hash line h = absurd (omega arith)
row-set (l ∷ lines) zero line h = refl
row-set (l ∷ lines) (suc hash) line h = row-set lines hash line (omega arith)

-- A write through a pointer to a file keeps the order of the lines, if it keeps the handle.
module _ (id : FileId) (change : File → File)
    (same : (f : File) → (change f).file_id ≡ f.file_id) where
  update_file-RisesFrom :
      (lo : FileId) (line : List File)
      → RisesFrom lo line
      → RisesFrom lo (update_file id change line)
  unfolding update_file
  update_file-RisesFrom lo [] r = tt
  update_file-RisesFrom lo (f ∷ fs) r = elim (Bool-cases (same_string f.file_id id)) [
    | inl hit ↦ rw (hit, same f) r
    | inr miss ↦ rw miss (r.0, update_file-RisesFrom f.file_id fs r.1)
  ]

  update_file-Rises : (line : List File) → Rises line → Rises (update_file id change line)
  unfolding update_file
  update_file-Rises [] r = tt
  update_file-Rises (f ∷ fs) r = elim (Bool-cases (same_string f.file_id id)) [
    | inl hit ↦ rw (hit, same f) r
    | inr miss ↦ rw miss (update_file-RisesFrom f.file_id fs r)
  ]

  pub change_at-Rises :
      (lines : List (List File)) (hash : ℕ)
      → All Rises lines
      → All Rises (change_at (update_file id change) lines hash)
  change_at-Rises [] hash a = tt
  change_at-Rises (l ∷ lines) zero a = (update_file-Rises l a.0, a.1)
  change_at-Rises (l ∷ lines) (suc hash) a = (a.0, change_at-Rises lines hash a.1)

  -- The file that was written to is found, with what was written.
  update_file-found :
      (line : List File) (f : File)
      → lookup_file id line ≡ some f
      → lookup_file id (update_file id change line) ≡ some (change f)
  unfolding update_file lookup_file
  update_file-found [] f e = cc
  update_file-found (g ∷ fs) f e = elim (Bool-cases (same_string g.file_id id)) [
    | inl hit ↦
        let p : g ≡ f = ground arith in
        let hit' : same_string (change g).file_id id ≡ true = rw (same g) hit in
        rw (hit, hit') (ap (λ x. some (change x)) p)
    | inr miss ↦ rw miss (rw miss (update_file-found fs f (ground arith)))
  ]

  pub change_at-found :
      (lines : List (List File)) (hash : ℕ) (f : File)
      → lookup_file id (row lines hash) ≡ some f
      → lookup_file id (row (change_at (update_file id change) lines hash) hash) ≡ some (change f)
  unfolding lookup_file
  change_at-found [] hash f e = cc
  change_at-found (l ∷ lines) zero f e = update_file-found l f e
  change_at-found (l ∷ lines) (suc hash) f e = change_at-found lines hash f e

-- A file with the handle stands in the line that the handle is given.
abbrev pub HasFile : List (List File) → ℕ → FileId → Type 0
HasFile lines hash id = (f : File) × (lookup_file id (row lines hash) ≡ some f)

module _ (id : FileId) (change : File → File)
    (same : (f : File) → (change f).file_id ≡ f.file_id) where
  update_file-lookup :
      (line : List File) (other : FileId) (f : File)
      → lookup_file other line ≡ some f
      → (f' : File) × (lookup_file other (update_file id change line) ≡ some f')
  unfolding update_file lookup_file
  update_file-lookup [] other f e = cc
  update_file-lookup (g ∷ fs) other f e = elim (Bool-cases (same_string g.file_id other)) [
    | inl here ↦
        let here' : same_string (change g).file_id other ≡ true = rw (same g) here in
        elim (Bool-cases (same_string g.file_id id)) [
          | inl hit ↦ (change g, rw (hit, here') refl)
          | inr miss ↦ (g, rw (miss, here) refl)
        ]
    | inr on ↦
        let on' : same_string (change g).file_id other ≡ false = rw (same g) on in
        let ih = update_file-lookup fs other f (ground arith) in
        elim (Bool-cases (same_string g.file_id id)) [
          | inl hit ↦ (f, rw (hit, on') (ground arith))
          | inr miss ↦ (ih.0, rw (miss, on) (ih.1))
        ]
  ]

  pub change_at-HasFile :
      (lines : List (List File)) (hash at : ℕ) (other : FileId)
      → HasFile lines at other
      → HasFile (change_at (update_file id change) lines hash) at other
  change_at-HasFile [] hash at other h = h
  change_at-HasFile (l ∷ lines) zero zero other h = update_file-lookup l other h.0 h.1
  change_at-HasFile (l ∷ lines) zero (suc at) other h = h
  change_at-HasFile (l ∷ lines) (suc hash) zero other h = h
  change_at-HasFile (l ∷ lines) (suc hash) (suc at) other h =
      change_at-HasFile lines hash at other h
