-- ===== src/HashTable/Remove.antt =====
-- hst_remove_key, hst_contains_value and hst_remove_val of src/stdlib/hashtable.c.
use lanky.Prelude.{
  ℕ, ◌+◌, ◌-◌, ◌≡◌, refl, Bool, true, none, List, [], ◌∷◌, inl, inr, if◌then◌else◌,
  length-concat-set, Bool-cases, arith,
}
use lanky.HashTable.{
  KeyOps, Node, Table, done, use_after_free, slot, chain_of, has, unlink, remove_key,
  chain_contains_value, chains_contain_value, contains_value, remove_val_chain, remove_val_chains,
  remove_val,
}
use lanky.HashTable.Chain.{
  or_null, found, lookup, find-lookup, has-lookup, lookup-unlink, occurrences-unlink-le,
  length-unlink,
}
use lanky.HashTable.Map.{Placed, IsValid, view, view_congr, view-set, set-IsValid, slot-inside}

module _ {ℓ} {K : Type ℓ} ⦃ops : KeyOps K⦄ where
  Placed-unlink :
      (size i : ℕ) (k : K) (c : List (Node K)) → Placed size i c → Placed size i (unlink k c)
  unfolding unlink
  Placed-unlink size i k [] p = p
  Placed-unlink size i k (n ∷ c) p = elim (Bool-cases (ops.equfunc n.key k)) [
    | inl e ↦ rw e p.2
    | inr e ↦ rw e (p.0, p.1, Placed-unlink size i k c p.2)
  ]

  -- The three facts about one removal.
  pub record Removes (ht : Table K) (k : K) (r : ℕ × Table K) : Type ℓ where
    pub valid : IsValid r.1
    pub returns : r.0 ≡ or_null (view ht k)
    pub reads : (q : K) → view r.1 q ≡ (if ops.equfunc k q then none else view ht q)
    pub counts : r.1.count + (if found (view ht k) then 1 else 0) ≡ ht.count

  -- `hst_remove_key` keeps a well-formed table well formed and returns the value that was stored
  -- (NULL if there was none); afterwards an equal key finds nothing, every other key finds what it
  -- found before, and `count` is one less exactly if the key was there.
  pub remove_key-Removes : {ht : Table K} → IsValid ht → (k : K) → Removes ht k (remove_key ht k)
  unfolding remove_key view
  remove_key-Removes {ht} valid k =
      let c = chain_of ht k in
      elim (Bool-cases (has k c)) [
        | inl e ↦
            let hit : found (lookup k c) ≡ true = ground (arith, has-lookup k c) in
            let shorter = length-unlink k c e in
            let inside = length-concat-set ht.buckets (slot ht k) [] (slot-inside valid k) in
            rw e (record {
              valid =
                  set-IsValid valid k (unlink k c) (ht.count - 1)
                    (omega (arith, shorter, inside, valid.counted))
                    (Placed-unlink ht.size (slot ht k) k c (valid.placed (slot ht k)))
                    (λ q. omega (arith, occurrences-unlink-le k q c, valid.unique (slot ht k) q));
              returns = find-lookup k c;
              reads =
                  view-set valid k none (unlink k c) (ht.count - 1)
                    (λ q. lookup-unlink k q c (valid.unique (slot ht k) q));
              counts = rw hit (omega (arith, shorter, inside, valid.counted));
            })
        | inr e ↦
            let miss : lookup k c ≡ none = ground (arith, has-lookup k c) in
            rw e (record {
              valid = valid;
              returns = rw miss;
              reads = λ q. ground (arith, view_congr ht k q);
              counts = rw miss (omega arith);
            })
      ]

module _ {ℓ} {K : Type ℓ} (equal : ℕ → ℕ → Bool) where
  remove_val_chain-absent :
      (c : List (Node K)) (v : ℕ)
      → remove_val_chain equal c v
        ≡ (if chain_contains_value equal c v then use_after_free else done c)
  unfolding remove_val_chain chain_contains_value
  remove_val_chain-absent [] v = refl
  remove_val_chain-absent (n ∷ c) v = ground (arith, remove_val_chain-absent c v)

  remove_val_chains-absent :
      (cs : List (List (Node K))) (v : ℕ)
      → remove_val_chains equal cs v
        ≡ (if chains_contain_value equal cs v then use_after_free else done cs)
  unfolding remove_val_chains chains_contain_value
  remove_val_chains-absent [] v = refl
  remove_val_chains-absent (c ∷ cs) v =
      ground (arith, remove_val_chain-absent c v, remove_val_chains-absent cs v)

  -- `hst_remove_val` removes nothing: where no stored value is equal to `val` it leaves the table as
  -- it is, and where one is, it reads the node that it has just freed.
  pub remove_val_lem :
      (ht : Table K) (v : ℕ)
      → remove_val equal ht v ≡ (if contains_value equal ht v then use_after_free else done ht)
  unfolding remove_val contains_value
  remove_val_lem ht v = ground (arith, remove_val_chains-absent ht.buckets v)
