-- ===== src/Lines/Order.antt =====
-- `find_req_file` (src/agios_add_request.c) keeps a line in order.
use mathlib.Core.Path.{subst}
use agios.Common.{
  ◌≡◌, refl, ◌⊎◌, inl, inr, List, [], ◌∷◌, Option, none, some, Bool, true, false, arith,
}
use agios.Common.Text.{
  Sign, strcmp, negative, null, positive, same_string, Before, Before-trans, Before-of_positive,
  strcmp_self, eq_of_strcmp,
}
use agios.Request.{FileId, File, file_constructor}
use agios.Lines.{lookup_file, find_or_insert, put_before, keep_first, RisesFrom, Rises}

pub constructed_id :
    (allocated copied : Bool) (id : FileId) (f : File)
    → file_constructor allocated copied id ≡ some f
    → f.file_id ≡ id
unfolding file_constructor
constructed_id false copied id f e = cc
constructed_id true false id f e = cc
constructed_id true true id f e = ground arith

pub Sign-cases : (s : Sign) → (s ≡ negative) ⊎ ((s ≡ null) ⊎ (s ≡ positive))
Sign-cases negative = inl refl
Sign-cases null = inr (inl refl)
Sign-cases positive = inr (inr refl)

clash : (a b : FileId) → a ≡ b → ¬ Before b a
clash a b e h = let p : strcmp b a ≡ null = rw e (strcmp_self b) in cc

pub not_same_of_Before : (a b : FileId) → Before b a → same_string a b ≡ false
not_same_of_Before a b h = elim (Sign-cases (strcmp a b)) [
  | inl n ↦ ground arith
  | inr (inl n) ↦ absurd (clash a b (eq_of_strcmp a b n) h)
  | inr (inr n) ↦ ground arith
]

-- What holds of the line that a call returns, if it returns one.
abbrev pub Holds : (List File → Type 0) → Option (List File) → Type 0
Holds P none = Unit
Holds P (some line) = P line

holds_of_some :
    (P : List File → Type 0) (o : Option (List File)) (line : List File)
    → Holds P o
    → o ≡ some line
    → P line
holds_of_some P none line h e = cc
holds_of_some P (some l) line h e = let p : l ≡ line = cc in subst P p h

keep_first-RisesFrom :
    (lo : FileId) (f : File) (o : Option (List File))
    → Before lo f.file_id
    → Holds (RisesFrom f.file_id) o
    → Holds (RisesFrom lo) (keep_first f o)
keep_first-RisesFrom lo f none b h = tt
keep_first-RisesFrom lo f (some fs) b h = (b, h)

put_before-RisesFrom :
    (lo id : FileId) (fs : List File) (o : Option File)
    → ((n : File) → o ≡ some n → n.file_id ≡ id)
    → Before lo id
    → RisesFrom id fs
    → Holds (RisesFrom lo) (put_before fs o)
put_before-RisesFrom lo id fs none same b r = tt
put_before-RisesFrom lo id fs (some n) same b r = rw (same n refl) (b, r)

pub same_of_null : (a b : FileId) → strcmp a b ≡ null → same_string a b ≡ true
same_of_null a b h = ground arith

not_same_of_positive : (a b : FileId) → strcmp a b ≡ positive → same_string a b ≡ false
not_same_of_positive a b h = ground arith

pub lookup_below :
    (id lo : FileId) (fs : List File) → Before id lo → RisesFrom lo fs → lookup_file id fs ≡ none
unfolding lookup_file
lookup_below id lo [] b r = refl
lookup_below id lo (f ∷ fs) b r =
    let c : Before id f.file_id = Before-trans id lo f.file_id b r.0 in
    let d : same_string f.file_id id ≡ false = not_same_of_Before f.file_id id c in
    rw d (lookup_below id f.file_id fs c r.1)

module _ (allocated copied : Bool) (id : FileId) where
  insert-RisesFrom :
      (lo : FileId) (line : List File)
      → Before lo id
      → RisesFrom lo line
      → Holds (RisesFrom lo) (find_or_insert allocated copied line id)
  unfolding find_or_insert
  insert-RisesFrom lo [] b r =
      put_before-RisesFrom lo id [] (file_constructor allocated copied id)
        (constructed_id allocated copied id) b tt
  insert-RisesFrom lo (f ∷ fs) b r = elim (Sign-cases (strcmp f.file_id id)) [
    | inl n ↦
        rw (n, find_or_insert)
          (keep_first-RisesFrom lo f _ r.0 (insert-RisesFrom f.file_id fs n r.1))
    | inr (inl n) ↦ rw (n, find_or_insert) r
    | inr (inr n) ↦
        rw (n, find_or_insert)
          (put_before-RisesFrom lo id (f ∷ fs) (file_constructor allocated copied id)
            (constructed_id allocated copied id) b (Before-of_positive f.file_id id n, r.1))
  ]

  pub insert-Rises :
      (line : List File) → Rises line → Holds Rises (find_or_insert allocated copied line id)
  unfolding find_or_insert
  insert-Rises [] r = alone (file_constructor allocated copied id)
    where
      alone : (o : Option File) → Holds Rises (put_before [] o)
      alone none = tt
      alone (some n) = tt
  insert-Rises (f ∷ fs) r = elim (Sign-cases (strcmp f.file_id id)) [
    | inl n ↦
        rw (n, find_or_insert)
          (kept (find_or_insert allocated copied fs id) (insert-RisesFrom f.file_id fs n r))
    | inr (inl n) ↦ rw (n, find_or_insert) r
    | inr (inr n) ↦
        rw (n, find_or_insert)
          (put (file_constructor allocated copied id) (constructed_id allocated copied id)
            (Before-of_positive f.file_id id n))
  ]
    where
      kept : (o : Option (List File)) → Holds (RisesFrom f.file_id) o → Holds Rises (keep_first f o)
      kept none h = tt
      kept (some l) h = h

      put :
          (o : Option File)
          → ((n : File) → o ≡ some n → n.file_id ≡ id)
          → Before id f.file_id
          → Holds Rises (put_before (f ∷ fs) o)
      put none same b = tt
      put (some n) same b = rw (same n refl) (b, r)
