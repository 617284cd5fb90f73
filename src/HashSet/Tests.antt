-- ===== src/HashSet/Tests.antt =====
-- src/interpreter/gc_hashset.c on concrete sets.
use lanky.Prelude.{◌≡◌, refl, Option, some, [], ◌∷◌, arith}
use lanky.HashSet.{HashSet, create, mem, add_node, add, remove}
use lanky.HashSet.Add.{IsValid, Added, create-IsFormed, add_node-NodeAdded, add_lem}
use lanky.HashSet.Remove.{Removed, remove-Removed}

-- as crowded as a set gets before it grows
abbrev full : HashSet
full = record { count = 3; hash_size = 3; buckets = (3 ∷ []) ∷ (4 ∷ 7 ∷ []) ∷ [] ∷ [] }

full-IsValid : IsValid full
unfolding add_node create mem
full-IsValid =
    let three = add_node-NodeAdded (create-IsFormed 3 (omega arith)) 3 in
    let four = add_node-NodeAdded three.formed 4 in
    record { formed = (add_node-NodeAdded four.formed 7).formed; load = omega arith }

add-full :
    add 2 full 10
    ≡ some (record {
      count = 4;
      hash_size = 9;
      buckets = [] ∷ (10 ∷ []) ∷ [] ∷ (3 ∷ []) ∷ (4 ∷ []) ∷ [] ∷ [] ∷ (7 ∷ []) ∷ [] ∷ [];
    })
unfolding add mem
add-full = refl

-- one call deep is not enough here
add-full_shallow : add 1 full 10 ≡ Option.none
unfolding add mem
add-full_shallow = refl

add_lem_example : (t : HashSet) × (add 2 full 10 ≡ some t) × Added full 10 t
add_lem_example = add_lem 0 10 full-IsValid

remove-Removed_example : Removed full 4 (remove full 4)
remove-Removed_example = remove-Removed full-IsValid 4
