-- ===== src/HashSet.antt =====
-- src/interpreter/gc_hashset.c: the set of addresses in which the collector keeps every object. A
-- bucket is the list of its nodes from the head.
pub mod Bucket
pub mod Add
pub mod Remove
mod Tests
use lanky.Prelude.{
  ℕ, zero, suc, ◌+◌, ◌-◌, ◌*◌, ◌%◌, Bool, true, false, Option, none, some, List, [], ◌∷◌, ◌++◌, ltb,
  ◌==◌, if◌then◌else◌, get_or, set, replicate, concat, take,
}

-- `gc_hashset`
pub record HashSet : Type 0 where
  pub count : ℕ
  pub hash_size : ℕ
  pub buckets : List (List ℕ)

unfoldable pub create : ℕ → HashSet
create hash_size = record { count = 0; hash_size = hash_size; buckets = replicate hash_size [] }

-- the walk `n->value == obj`
unfoldable pub mem : ℕ → List ℕ → Bool
mem obj [] = false
mem obj (x ∷ c) = if x == obj then true else mem obj c

abbrev pub chain_of : HashSet → ℕ → List ℕ
chain_of s obj = get_or s.buckets (obj % s.hash_size) []

-- the buckets in order, each from its head
unfoldable pub to_list : HashSet → List ℕ
to_list s = concat s.buckets

unfoldable pub contains : HashSet → ℕ → Bool
contains s obj = mem obj (chain_of s obj)

-- `gchs_add` below its resizing
unfoldable pub add_node : HashSet → ℕ → HashSet
add_node s obj = if mem obj (chain_of s obj) then s else record s {
  count = s.count + 1;
  buckets = set s.buckets (obj % s.hash_size) (chain_of s obj ++ obj ∷ []);
}

-- `count > hash_size * (2. / 3)`. The double nearest to 2/3 times an `int` is within a third of the
-- exact product, and equal to it where that is whole, so the test is this one.
abbrev pub crowded : HashSet → Bool
crowded s = ltb (2 * s.hash_size) (3 * s.count)

pub add_each : (HashSet → ℕ → Option HashSet) → HashSet → List ℕ → Option HashSet
add_each insert s [] = some s
add_each insert s (x ∷ xs) = elim (insert s x) [ none ↦ none | some s' ↦ add_each insert s' xs ]

-- The calls that `gchs_add` makes of itself on the larger set nest as deep as the fuel; `none` means
-- that it ran out.
pub add : ℕ → HashSet → ℕ → Option HashSet
unfolding add_node add_each create to_list
add zero s obj = none
add (suc fuel) s obj =
    let grown = add_each (add fuel) (create (s.hash_size * 3)) (take s.count (to_list s)) in
    if crowded s
    then elim grown [ none ↦ none | some s' ↦ add fuel s' obj ]
    else some (add_node s obj)

-- the first node with the value leaves the bucket
pub drop_node : ℕ → List ℕ → List ℕ
drop_node obj [] = []
drop_node obj (x ∷ c) = if x == obj then c else x ∷ drop_node obj c

unfoldable pub remove : HashSet → ℕ → HashSet
unfolding drop_node
remove s obj =
    if mem obj (chain_of s obj)
    then record s {
      count = s.count - 1;
      buckets = set s.buckets (obj % s.hash_size) (drop_node obj (chain_of s obj));
    }
    else s

-- `callback(n->value)` on each node, where `S` is what the calls change
pub for_each_value {ℓ} : {S : Type ℓ} → (ℕ → S → S) → List ℕ → S → S
for_each_value callback [] s = s
for_each_value callback (x ∷ xs) s = for_each_value callback xs (callback x s)

pub for_each {ℓ} : {S : Type ℓ} → (ℕ → S → S) → HashSet → S → S
unfolding for_each_value
for_each callback set s =
    if set.count == 0 then s else for_each_value callback (concat set.buckets) s
