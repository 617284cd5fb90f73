-- ===== src/HashTable/Strings.antt =====
-- The defaults of src/stdlib/hashtable.c: where no functions are given, keys are C strings, hashed by
-- hst_djb2 and compared by strcmp.
use lanky.Prelude.{ℕ, ◌≡◌, refl, true, List, [], ◌∷◌, ap, arith}
use lanky.HashTable.{KeyOps, djb2, bytes_equal}

pub bytes_equal_refl : (a : List ℕ) → bytes_equal a a ≡ true
unfolding bytes_equal
bytes_equal_refl [] = refl
bytes_equal_refl (a ∷ as₁) = ground (arith, bytes_equal_refl as₁)

pub eq_of_bytes_equal : (a b : List ℕ) → bytes_equal a b ≡ true → a ≡ b
unfolding bytes_equal
eq_of_bytes_equal [] [] h = refl
eq_of_bytes_equal [] (b ∷ bs₁) h = cc
eq_of_bytes_equal (a ∷ as₁) [] h = cc
eq_of_bytes_equal (a ∷ as₁) (b ∷ bs₁) h = ground (arith, eq_of_bytes_equal as₁ bs₁)

pub bytes_equal_symm : (a b : List ℕ) → bytes_equal a b ≡ bytes_equal b a
unfolding bytes_equal
bytes_equal_symm [] [] = refl
bytes_equal_symm [] (b ∷ bs₁) = refl
bytes_equal_symm (a ∷ as₁) [] = refl
bytes_equal_symm (a ∷ as₁) (b ∷ bs₁) = ground (arith, bytes_equal_symm as₁ bs₁)

pub bytes_equal_trans :
    (a b c : List ℕ) → bytes_equal a b ≡ true → bytes_equal b c ≡ true → bytes_equal a c ≡ true
bytes_equal_trans a b c p q = rw (eq_of_bytes_equal a b p) q

pub hash-bytes_equal : (a b : List ℕ) → bytes_equal a b ≡ true → djb2 a ≡ djb2 b
hash-bytes_equal a b h = ap djb2 (eq_of_bytes_equal a b h)

instance abbrev pub c_string : KeyOps (List ℕ)
c_string = record {
  hashfunc = djb2;
  equfunc = bytes_equal;
  reflexive = bytes_equal_refl;
  symmetric = bytes_equal_symm;
  transitive = bytes_equal_trans;
  same_hash = hash-bytes_equal;
}
