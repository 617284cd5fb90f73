-- ===== src/HashTable/Chain.antt =====
-- The walk along one chain of src/stdlib/hashtable.c, as a lookup with an explicit miss.
use lanky.Prelude.{
  ℕ, ◌+◌, ◌≤◌, ◌≡◌, ◌∙◌, refl, Bool, true, false, Option, none, some, List, [], ◌∷◌, ◌++◌,
  if◌then◌else◌, length, arith,
}
use lanky.HashTable.{KeyOps, Node, find, has, overwrite, unlink}

-- What a lookup yields at the end of the walk: NULL is 0.
abbrev pub or_null : Option ℕ → ℕ
or_null none = 0
or_null (some v) = v

abbrev pub found : Option ℕ → Bool
found none = false
found (some v) = true

module _ {ℓ} {K : Type ℓ} ⦃ops : KeyOps K⦄ where
  pub equal_congr_right : (a b c : K) → ops.equfunc b c ≡ true → ops.equfunc a b ≡ ops.equfunc a c
  equal_congr_right a b c e =
      ground (arith, ops.symmetric b c, ops.transitive a b c, ops.transitive a c b)

  pub equal_congr_left : (a b c : K) → ops.equfunc a b ≡ true → ops.equfunc a c ≡ ops.equfunc b c
  equal_congr_left a b c e = ops.symmetric a c ∙ equal_congr_right c a b e ∙ ops.symmetric c b

  unfoldable pub lookup : K → List (Node K) → Option ℕ
  lookup key [] = none
  lookup key (n ∷ c) = if ops.equfunc n.key key then some n.val else lookup key c

  -- how many nodes have a key equal to `key`
  unfoldable pub occurrences : K → List (Node K) → ℕ
  occurrences key [] = 0
  occurrences key (n ∷ c) = (if ops.equfunc n.key key then 1 else 0) + occurrences key c

  pub find-lookup : (q : K) (c : List (Node K)) → find q c ≡ or_null (lookup q c)
  unfolding find lookup
  find-lookup q [] = refl
  find-lookup q (n ∷ c) = ground (arith, find-lookup q c)

  pub has-lookup : (q : K) (c : List (Node K)) → has q c ≡ found (lookup q c)
  unfolding has lookup
  has-lookup q [] = refl
  has-lookup q (n ∷ c) = ground (arith, has-lookup q c)

  pub lookup_congr :
      (k q : K) (c : List (Node K)) → ops.equfunc k q ≡ true → lookup k c ≡ lookup q c
  unfolding lookup
  lookup_congr k q [] e = refl
  lookup_congr k q (n ∷ c) e = ground (arith, equal_congr_right n.key k q, lookup_congr k q c)

  pub lookup-append :
      (q : K) (a b : List (Node K))
      → lookup q (a ++ b) ≡ (if found (lookup q a) then lookup q a else lookup q b)
  unfolding lookup
  lookup-append q [] b = refl
  lookup-append q (n ∷ a) b = ground (arith, lookup-append q a b)

  pub lookup_of_occurrences : (q : K) (c : List (Node K)) → occurrences q c ≡ 0 → lookup q c ≡ none
  unfolding lookup occurrences
  lookup_of_occurrences q [] h = refl
  lookup_of_occurrences q (n ∷ c) h = ground (arith, lookup_of_occurrences q c)

  pub occurrences_of_lookup : (q : K) (c : List (Node K)) → lookup q c ≡ none → occurrences q c ≡ 0
  unfolding lookup occurrences
  occurrences_of_lookup q [] h = refl
  occurrences_of_lookup q (n ∷ c) h = ground (arith, occurrences_of_lookup q c)

  pub occurrences-append :
      (q : K) (a b : List (Node K)) → occurrences q (a ++ b) ≡ occurrences q a + occurrences q b
  unfolding occurrences
  occurrences-append q [] b = ground arith
  occurrences-append q (n ∷ a) b = ground (arith, occurrences-append q a b)

  module _ (k q : K) where
    pub lookup-overwrite :
        (v : ℕ) (c : List (Node K))
        → lookup q (overwrite k v c)
          ≡ (if ops.equfunc k q then (if found (lookup k c) then some v else none) else lookup q c)
    unfolding lookup overwrite
    lookup-overwrite v [] = ground arith
    lookup-overwrite v (n ∷ c) =
        ground
          (arith, lookup-overwrite v c, equal_congr_right n.key k q, equal_congr_left n.key k q)

    pub occurrences-overwrite :
        (v : ℕ) (c : List (Node K)) → occurrences q (overwrite k v c) ≡ occurrences q c
    unfolding occurrences overwrite
    occurrences-overwrite v [] = refl
    occurrences-overwrite v (n ∷ c) = ground (arith, occurrences-overwrite v c)

    pub occurrences-unlink-le : (c : List (Node K)) → occurrences q (unlink k c) ≤ occurrences q c
    unfolding occurrences unlink
    occurrences-unlink-le [] = ground arith
    occurrences-unlink-le (n ∷ c) = ground (arith, occurrences-unlink-le c)

    pub lookup-unlink :
        (c : List (Node K))
        → occurrences q c ≤ 1
        → lookup q (unlink k c) ≡ (if ops.equfunc k q then none else lookup q c)
    unfolding lookup unlink occurrences
    lookup-unlink [] h = ground arith
    lookup-unlink (n ∷ c) h = ground (
      arith,
      lookup-unlink c,
      lookup_of_occurrences q c,
      equal_congr_right n.key k q,
      equal_congr_left n.key k q,
    )

  pub length-overwrite : (k : K) (v : ℕ) (c : List (Node K)) → length (overwrite k v c) ≡ length c
  unfolding overwrite
  length-overwrite k v [] = refl
  length-overwrite k v (n ∷ c) = ground (arith, length-overwrite k v c)

  pub length-unlink :
      (k : K) (c : List (Node K)) → has k c ≡ true → length (unlink k c) + 1 ≡ length c
  unfolding unlink has
  length-unlink k [] h = ground arith
  length-unlink k (n ∷ c) h = ground (arith, length-unlink k c)
