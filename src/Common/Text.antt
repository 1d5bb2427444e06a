-- ===== src/Common/Text.antt =====
-- C strings as lists of bytes, and `strcmp` of the C library on them.
use Prim.Native.Nat.{compare, Ordering}
use Prim.Native.Char.{code}
use Prim.Native.String.{String}
use agios.Common.{ℕ, ◌≡◌, refl, List, [], ◌∷◌, Bool, true, false, arith}

-- The bytes of an ASCII text.
abbrev pub codes : String → List ℕ
codes String.[] = []
codes (String.◌∷◌ c s) = code c ∷ codes s

pub data Sign : Type 0 where
  negative null positive : Sign

-- The sign of the result: bytes are compared one by one, and a prefix comes first.
unfoldable pub strcmp : List ℕ → List ℕ → Sign
strcmp [] [] = null
strcmp [] (y ∷ ys) = negative
strcmp (x ∷ xs) [] = positive
strcmp (x ∷ xs) (y ∷ ys) = elim (compare x y) [
  | Ordering.lt ↦ negative
  | Ordering.gt ↦ positive
  | Ordering.eq ↦ strcmp xs ys
]

abbrev pub is_null : Sign → Bool
is_null null = true
is_null _ = false

abbrev pub same_string : List ℕ → List ℕ → Bool
same_string a b = is_null (strcmp a b)

pub strcmp_self : (a : List ℕ) → strcmp a a ≡ null
unfolding strcmp
strcmp_self [] = refl
strcmp_self (x ∷ xs) = ground (arith, strcmp_self xs)

pub eq_of_strcmp : (a b : List ℕ) → strcmp a b ≡ null → a ≡ b
unfolding strcmp
eq_of_strcmp [] [] h = refl
eq_of_strcmp [] (y ∷ ys) h = cc
eq_of_strcmp (x ∷ xs) [] h = cc
eq_of_strcmp (x ∷ xs) (y ∷ ys) h = ground (arith, eq_of_strcmp xs ys)

-- The order of handles.
abbrev pub Before : List ℕ → List ℕ → Type 0
Before a b = strcmp a b ≡ negative

pub Before-of_positive : (a b : List ℕ) → strcmp a b ≡ positive → Before b a
unfolding strcmp
Before-of_positive [] [] h = cc
Before-of_positive [] (y ∷ ys) h = cc
Before-of_positive (x ∷ xs) [] h = refl
Before-of_positive (x ∷ xs) (y ∷ ys) h = ground (arith, Before-of_positive xs ys)

pub Before-trans : (a b c : List ℕ) → Before a b → Before b c → Before a c
unfolding strcmp
Before-trans [] [] [] h k = cc
Before-trans [] (y ∷ ys) [] h k = cc
Before-trans [] [] (z ∷ zs) h k = refl
Before-trans [] (y ∷ ys) (z ∷ zs) h k = refl
Before-trans (x ∷ xs) [] c h k = cc
Before-trans (x ∷ xs) (y ∷ ys) [] h k = cc
Before-trans (x ∷ xs) (y ∷ ys) (z ∷ zs) h k = ground (arith, Before-trans xs ys zs)

pub same_string_iff_false : (a b : List ℕ) → Before a b → same_string a b ≡ false
same_string_iff_false a b h = ground arith

pub eq_of_same : (a b : List ℕ) → same_string a b ≡ true → a ≡ b
eq_of_same a b h = eq_of_strcmp a b (ground arith)
