-- ===== src/Hash.antt =====
-- src/hash.c. A 64-bit value is its bit pattern, a number below 2 ^ 64: shifts, sums and differences
-- wrap. `char` is signed, as on the usual platforms: a byte from 128 on stands for itself less 256.
use agios.Common.{
  ℕ, ◌+◌, ◌-◌, ◌*◌, ◌/◌, ◌%◌, ◌^◌, ◌≤◌, ◌<◌, ◌≡◌, List, [], ◌∷◌, arith, ltb, if◌then◌else◌,
}
use agios.Common.Int.{ℤ, pos, negsuc}

abbrev pub hash_shift : ℕ
hash_shift = 6

abbrev pub hash_entries : ℕ
hash_entries = 64

abbrev word : ℕ
word = 2 ^ 64

abbrev sub64 : ℕ → ℕ → ℕ
sub64 a b = (a + (word - b)) % word

abbrev add64 : ℕ → ℕ → ℕ
add64 a b = (a + b) % word

abbrev shl64 : ℕ → ℕ → ℕ
shl64 a k = a * 2 ^ k % word

-- `hash >> k` of a signed 64-bit value: the sign is kept.
abbrev pub shr_signed : ℕ → ℕ → ℤ
shr_signed w k = if ltb w (2 ^ 63) then pos (w / 2 ^ k) else negsuc (2 ^ (64 - k) - 1 - w / 2 ^ k)

-- The bits of the hash, before the shift that keeps the high ones.
mix : ℕ → ℕ
mix val =
    let n1 = shl64 val 18 in
    let h1 = sub64 val n1 in
    let n2 = shl64 n1 33 in
    let h2 = sub64 h1 n2 in
    let n3 = shl64 n2 3 in
    let h3 = add64 h2 n3 in
    let n4 = shl64 n3 3 in
    let h4 = sub64 h3 n4 in
    let n5 = shl64 n4 4 in let h5 = add64 h4 n5 in let n6 = shl64 n5 2 in add64 h5 n6

pub calculate_hash : ℕ → ℤ
unfolding mix
calculate_hash val = shr_signed (mix val) (64 - hash_shift)

add_char : ℕ → ℕ → ℕ
add_char sum b = if ltb b 128 then add64 sum b else sub64 sum (256 - b)

sum_chars : ℕ → List ℕ → ℕ
unfolding add_char
sum_chars sum [] = sum
sum_chars sum (b ∷ bs) = sum_chars (add_char sum b) bs

-- `if (sum < 0) sum = -sum;`
abbrev magnitude : ℤ → ℕ
magnitude (pos n) = n
magnitude (negsuc n) = n + 1

unfoldable pub get_hashtable_position : List ℕ → ℕ
unfolding calculate_hash sum_chars
get_hashtable_position file_handle =
    magnitude (calculate_hash (sum_chars 0 file_handle)) % hash_entries

-- The shifts and sums multiply by one constant, modulo 2 ^ 64.
mix-eq-mul : (val : ℕ) → mix val ≡ val * 0x9e37fffffffc0001 % word
unfolding mix
mix-eq-mul val = omega arith

high_bits_bounds : (w : ℕ) → w < word → magnitude (shr_signed w 58) ≤ 32
high_bits_bounds w h = ground arith

mix-lt-word : (val : ℕ) → mix val < word
mix-lt-word val = omega (arith, mix-eq-mul val)

-- The hash of a number is its product with one constant modulo 2 ^ 64, of which the high six bits
-- are kept as a signed number.
pub calculate_hash-eq-mul :
    (val : ℕ) → calculate_hash val ≡ shr_signed (val * 0x9e37fffffffc0001 % 2 ^ 64) 58
unfolding calculate_hash
calculate_hash-eq-mul val = rw (mix-eq-mul val)

-- Every handle is given one of the lines 0 to 32 of the table: an index is always in range, and the
-- lines from 33 on are never used.
pub get_hashtable_position-le :
    (file_handle : List ℕ)
    → (get_hashtable_position file_handle < hash_entries)
      × (get_hashtable_position file_handle ≤ 32)
unfolding get_hashtable_position
get_hashtable_position-le file_handle =
    let sum = sum_chars 0 file_handle in
    let b = high_bits_bounds (mix sum) (mix-lt-word sum) in (omega arith, omega (arith, b))
