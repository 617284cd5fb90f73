-- ===== src/HashTable/Each.antt =====
-- hst_for_each of src/stdlib/hashtable.c: one call for each stored pair.
use lanky.Prelude.{ℕ, ◌+◌, ◌≡◌, ◌∙◌, sym, refl, List, [], ◌∷◌, ◌++◌, length, concat, arith}
use lanky.HashTable.{KeyOps, Node, Table, each_node, each_chain, for_each}
use lanky.HashTable.Map.{IsValid}

module _ {ℓ κ} {K : Type ℓ} {S : Type κ} (func : K → ℕ → S → S) where
  -- the calls for the nodes of a list, in its order
  abbrev pub visit : List (Node K) → S → S
  visit [] s = s
  visit (n ∷ ns) s = visit ns (func n.key n.val s)

  visit-append : (a b : List (Node K)) (s : S) → visit (a ++ b) s ≡ visit b (visit a s)
  visit-append [] b s = refl
  visit-append (n ∷ a) b s = visit-append a b (func n.key n.val s)

  each_node-visit : (c : List (Node K)) (s : S) → each_node func c s ≡ visit c s
  unfolding each_node
  each_node-visit [] s = refl
  each_node-visit (n ∷ c) s = each_node-visit c (func n.key n.val s)

  each_chain-visit :
      (bs : List (List (Node K))) (s : S) → each_chain func bs s ≡ visit (concat bs) s
  unfolding each_chain
  each_chain-visit [] s = refl
  each_chain-visit (c ∷ cs) s =
      each_chain-visit cs (each_node func c s)
      ∙ rw (each_node-visit c s) (sym (visit-append c (concat cs) s))

  pub for_each-visit : (ht : Table K) (s : S) → for_each func ht s ≡ visit (concat ht.buckets) s
  unfolding for_each
  for_each-visit ht s = each_chain-visit ht.buckets s

module _ {ℓ} {K : Type ℓ} where
  visit-count : (c : List (Node K)) (n : ℕ) → visit (λ _ _ k. k + 1) c n ≡ n + length c
  visit-count [] n = omega arith
  visit-count (x ∷ c) n = omega (arith, visit-count c (n + 1))

  -- `hst_for_each` on a well-formed table calls as often as `count` says.
  pub for_each-count :
      ⦃ops : KeyOps K⦄ {ht : Table K} → IsValid ht → for_each (λ _ _ k. k + 1) ht 0 ≡ ht.count
  for_each-count {ht = ht} v =
      omega
        (arith, for_each-visit (λ _ _ k. k + 1) ht 0, visit-count (concat ht.buckets) 0, v.counted)
