-- ===== src/Lines/Search.antt =====
-- `find_req_file` (src/agios_add_request.c) keeps a line in order, and finds or adds one file.
use mathlib.Core.Path.{subst}
use agios.Common.{
  ◌≡◌, refl, sym, ap, ◌≢◌, inl, inr, List, [], ◌∷◌, Option, none, some, Bool, true, false, arith,
  if◌then◌else◌,
}
use agios.Common.Int.{ℤ, pos, ◌+ℤ◌}
use agios.Common.Text.{
  strcmp, negative, same_string, Before, Before-of_positive, strcmp_self, eq_of_strcmp,
}
use agios.Request.{FileId, File, file_init, file_constructor}
use agios.Lines.{
  lookup_file, find_or_insert, find_req_file, idle_file, count_file, put_before, keep_first,
  RisesFrom, Rises,
}
use agios.Lines.Order.{
  Holds, Sign-cases, constructed_id, insert-Rises, lookup_below, not_same_of_Before, same_of_null,
}

not_same_of_negative : (a b : FileId) → strcmp a b ≡ negative → same_string a b ≡ false
not_same_of_negative a b h = ground arith

lookup_nil : (id : FileId) → lookup_file id [] ≡ none
unfolding lookup_file
lookup_nil id = refl

lookup_none :
    (id : FileId) (f : File) (fs : List File)
    → Before id f.file_id
    → RisesFrom f.file_id fs
    → lookup_file id (f ∷ fs) ≡ none
unfolding lookup_file
lookup_none id f fs b r = rw (not_same_of_Before f.file_id id b) (lookup_below id f.file_id fs b r)

differs : (a b : FileId) → a ≢ b → same_string a b ≡ false
differs a b h = elim (Sign-cases (strcmp a b)) [
  | inl n ↦ ground arith
  | inr (inl n) ↦ absurd (h (eq_of_strcmp a b n))
  | inr (inr n) ↦ ground arith
]

abbrev pub or_else : Option File → Option File → Option File
or_else none g = g
or_else (some f) g = some f

-- What a look-up of any handle finds in the new line: the file that was there or else the new one at
-- the handle `id`, and what was there at any other.
pub record Finds (id : FileId) (new : Option File) (line line' : List File) : Type 0 where
  pub here : lookup_file id line' ≡ or_else (lookup_file id line) new
  pub elsewhere : (other : FileId) → other ≢ id → lookup_file other line' ≡ lookup_file other line

keep_first-Finds :
    (id : FileId) (new : Option File) (f : File) (fs : List File) (o : Option (List File))
    → same_string f.file_id id ≡ false
    → Holds (Finds id new fs) o
    → Holds (Finds id new (f ∷ fs)) (keep_first f o)
unfolding lookup_file
keep_first-Finds id new f fs none miss h = tt
keep_first-Finds id new f fs (some l) miss h = record {
  here = rw miss h.here;
  elsewhere = λ other ne. ground (arith, h.elsewhere other ne);
}

put_before-Finds :
    (id : FileId) (fs : List File) (new : Option File)
    → ((n : File) → new ≡ some n → n.file_id ≡ id)
    → lookup_file id fs ≡ none
    → Holds (Finds id new fs) (put_before fs new)
unfolding lookup_file
put_before-Finds id fs none same miss = tt
put_before-Finds id fs (some n) same miss =
    let e : n.file_id ≡ id = same n refl in
    let hit : same_string n.file_id id ≡ true = rw e (same_of_null id id (strcmp_self id)) in
    record {
      here = rw (hit, miss) refl;
      elsewhere = λ other ne.
          let miss' : same_string n.file_id other ≡ false =
            rw e (differs id other (λ p. ne (sym p))) in
          rw miss' refl;
    }

Rises-of_RisesFrom : (lo : FileId) (fs : List File) → RisesFrom lo fs → Rises fs
Rises-of_RisesFrom lo [] r = tt
Rises-of_RisesFrom lo (f ∷ fs) r = r.1

found_first :
    (id : FileId) (f : File) (fs : List File) (new : Option File)
    → same_string f.file_id id ≡ true
    → lookup_file id (f ∷ fs) ≡ or_else (lookup_file id (f ∷ fs)) new
unfolding lookup_file
found_first id f fs new h = rw h refl

insert-Finds :
    (allocated copied : Bool) (id : FileId) (line : List File)
    → Rises line
    → Holds
        (Finds id (file_constructor allocated copied id) line)
        (find_or_insert allocated copied line id)
unfolding find_or_insert
insert-Finds allocated copied id [] r =
    put_before-Finds id [] (file_constructor allocated copied id)
      (constructed_id allocated copied id) (lookup_nil id)
insert-Finds allocated copied id (f ∷ fs) r = elim (Sign-cases (strcmp f.file_id id)) [
  | inl n ↦
      rw (n, find_or_insert)
        (keep_first-Finds id _ f fs (find_or_insert allocated copied fs id)
          (not_same_of_negative f.file_id id n)
          (insert-Finds allocated copied id fs (Rises-of_RisesFrom f.file_id fs r)))
  | inr (inl n) ↦
      rw (n, find_or_insert)
        (record {
          here = found_first id f fs _ (same_of_null f.file_id id n);
          elsewhere = λ other ne. refl;
        })
  | inr (inr n) ↦
      rw (n, find_or_insert)
        (put_before-Finds id (f ∷ fs) (file_constructor allocated copied id)
          (constructed_id allocated copied id)
          (lookup_none id f fs (Before-of_positive f.file_id id n) r))
]

find_req_file-kept :
    (allocated copied : Bool) (id : FileId) (line line' : List File) (filenb filenb' : ℤ)
    → Rises line
    → find_req_file allocated copied line id filenb ≡ some (line', filenb')
    → Rises line'
      × Finds id (file_constructor allocated copied id) line line'
      × (filenb' ≡ (if idle_file (lookup_file id line') then filenb +ℤ pos 1 else filenb))
unfolding find_req_file
find_req_file-kept allocated copied id line line' filenb filenb' r e =
    from (find_or_insert allocated copied line id) (insert-Rises allocated copied id line r)
      (insert-Finds allocated copied id line r) e
  where
    from :
        (o : Option (List File))
        → Holds Rises o
        → Holds (Finds id (file_constructor allocated copied id) line) o
        → count_file id filenb o ≡ some (line', filenb')
        → Rises line'
          × Finds id (file_constructor allocated copied id) line line'
          × (filenb' ≡ (if idle_file (lookup_file id line') then filenb +ℤ pos 1 else filenb))
    from none h k e = cc
    from (some l) h k e =
        let p : l ≡ line' = ground arith in
        (
          subst Rises p h,
          subst (Finds id (file_constructor allocated copied id) line) p k,
          ground arith,
        )

constructed : (id : FileId) → (n : File) × (file_constructor true true id ≡ some n)
unfolding file_constructor file_init
constructed id = (_, refl)

-- With memory the search always ends with a line.
insert-some :
    (id : FileId) (line : List File)
    → (line' : List File) × (find_or_insert true true line id ≡ some line')
unfolding find_or_insert
insert-some id [] = let n = constructed id in (n.0 ∷ [], ap (put_before []) (n.1))
insert-some id (f ∷ fs) = elim (Sign-cases (strcmp f.file_id id)) [
  | inl n ↦ let ih = insert-some id fs in (f ∷ ih.0, rw (n, find_or_insert, ih.1) refl)
  | inr (inl z) ↦ (f ∷ fs, rw (z, find_or_insert) refl)
  | inr (inr p) ↦
      let n = constructed id in
      (n.0 ∷ f ∷ fs, rw (p, find_or_insert) (ap (put_before (f ∷ fs)) (n.1)))
]

-- With memory, `find_req_file` in a line that is in order succeeds and leaves the line in order; it
-- returns the file of the handle, a new one if there was none, and changes nothing for any other
-- handle. The file counter grows by one exactly if the file has no request waiting.
pub find_req_file_lem :
    (id : FileId) (line : List File) (filenb : ℤ)
    → Rises line
    → (line' : List File) × (filenb' : ℤ) × (find_req_file true true line id filenb
        ≡ some (line', filenb'))
      × Rises line'
      × Finds id (file_constructor true true id) line line'
      × (filenb' ≡ (if idle_file (lookup_file id line') then filenb +ℤ pos 1 else filenb))
unfolding find_req_file
find_req_file_lem id line filenb r =
    let o = insert-some id line in
    let e = ap (count_file id filenb) (o.1) in
    let k = find_req_file-kept true true id line (o.0) filenb _ r e in (o.0, _, e, k.0, k.1, k.2)
