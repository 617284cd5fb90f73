-- ===== src/HashSet/Remove.antt =====
-- gchs_remove and gchs_for_each of src/interpreter/gc_hashset.c.
use lanky.Prelude.{
  ℕ, ◌+◌, ◌-◌, ◌%◌, ◌≡◌, refl, false, List, [], ◌∷◌, inl, inr, ◌==◌, if◌then◌else◌, length, concat,
  length-concat-set, Bool-cases, arith,
}
use lanky.HashSet.{
  HashSet, mem, chain_of, to_list, contains, drop_node, remove, for_each_value, for_each,
}
use lanky.HashSet.Bucket.{
  mem-drop_node, occurrences-drop_node-le, length-drop_node, Placed-drop_node,
}
use lanky.HashSet.Add.{IsFormed, IsValid, slot-inside, set-IsFormed, contains-set}

pub record Removed (s : HashSet) (x : ℕ) (t : HashSet) : Type 0 where
  pub valid : IsValid t
  pub reads : (q : ℕ) → contains t q ≡ (if x == q then false else contains s q)
  pub counts : t.count + (if contains s x then 1 else 0) ≡ s.count

-- `gchs_remove` keeps a well-formed set well formed: afterwards it contains what it contained before
-- but for the address, and `count` is one less exactly if the address was there.
pub remove-Removed : {s : HashSet} → IsValid s → (x : ℕ) → Removed s x (remove s x)
unfolding remove contains
remove-Removed {s} v x =
    let i = x % s.hash_size in
    let c = chain_of s x in
    elim (Bool-cases (mem x c)) [
      | inl e ↦
          let shorter = length-drop_node x c e in
          let inside = length-concat-set s.buckets i [] (slot-inside v.formed x) in
          rw e (record {
            valid = record {
              formed =
                  set-IsFormed v.formed x (drop_node x c) (s.count - 1)
                    (omega (arith, shorter, inside, v.formed.counted))
                    (Placed-drop_node s.hash_size i x c (v.formed.placed i))
                    (λ q. omega (arith, occurrences-drop_node-le x q c, v.formed.unique i q));
              load = omega (arith, v.load);
            };
            reads =
                contains-set v.formed x false (drop_node x c) (s.count - 1)
                  (λ q. mem-drop_node x q c (v.formed.unique i q));
            counts = ground (arith, shorter, inside, v.formed.counted);
          })
      | inr e ↦ rw e (record { valid = v; reads = λ q. ground arith; counts = ground arith })
    ]

-- `gchs_for_each` calls back once for each address of the list, in its order.
pub for_each-to_list {ℓ} :
    {S : Type ℓ} (callback : ℕ → S → S) {set : HashSet} (s : S)
    → IsFormed set
    → for_each callback set s ≡ for_each_value callback (to_list set) s
unfolding for_each to_list
for_each-to_list callback {set} s v = elim (Bool-cases (set.count == 0)) [
  | inl e ↦ rw e (none_left (concat set.buckets) (ground (arith, v.counted)))
  | inr e ↦ rw e
]
  where
    none_left : (xs : List ℕ) → length xs ≡ 0 → s ≡ for_each_value callback xs s
    none_left [] h = refl
    none_left (x ∷ xs) h = absurd (omega arith)
