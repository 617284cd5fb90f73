-- ===== src/HashMap.antt =====
-- src/interpreter/hashmap.c: the compiler's map from names to addresses, with a fixed number of buckets.
-- Its `djb2` is the loop of hst_djb2. A bucket is the list of its nodes from the head.
mod Laws
mod Tests
use lanky.Prelude.{
  ℕ, zero, suc, ◌+◌, ◌%◌, Bool, true, false, Option, none, some, List, [], ◌∷◌, ◌++◌, if◌then◌else◌,
  length, get_or, set, replicate,
}
use lanky.HashTable.{djb2, bytes_equal}

pub record Node : Type 0 where
  pub value : List ℕ
  pub dv : ℕ

pub record HashMap : Type 0 where
  pub hash_size : ℕ
  pub buckets : List (List Node)

unfoldable pub create : ℕ → HashMap
create hash_size = record { hash_size = hash_size; buckets = replicate hash_size [] }

abbrev pub slot : HashMap → List ℕ → ℕ
slot m str = djb2 str % m.hash_size

abbrev pub chain_of : HashMap → List ℕ → List Node
chain_of m str = get_or m.buckets (slot m str) []

-- The walk ends at a node with the name, whose `dv` is written, or behind the last, where one is added.
pub put_node : List ℕ → ℕ → List Node → List Node
put_node str val [] = record { value = str; dv = val } ∷ []
put_node str val (n ∷ c) =
    if bytes_equal n.value str then record n { dv = val } ∷ c else n ∷ put_node str val c

unfoldable pub put : HashMap → List ℕ → ℕ → HashMap
unfolding put_node
put m str val = record m {
  buckets = set m.buckets (slot m str) (put_node str val (chain_of m str));
}

pub has_node : List ℕ → List Node → Bool
has_node str [] = false
has_node str (n ∷ c) = if bytes_equal n.value str then true else has_node str c

pub contains : HashMap → List ℕ → Bool
unfolding has_node
contains m str = has_node str (chain_of m str)

-- `none` is NULL with the error HM_KEY_NOT_FOUND
pub find_node : List ℕ → List Node → Option ℕ
find_node key [] = none
find_node key (n ∷ c) = if bytes_equal n.value key then some n.dv else find_node key c

unfoldable pub get : HashMap → List ℕ → Option ℕ
unfolding find_node
get m key = find_node key (chain_of m key)

pub unlink_node : List ℕ → List Node → List Node
unlink_node str [] = []
unlink_node str (n ∷ c) = if bytes_equal n.value str then c else n ∷ unlink_node str c

pub remove : HashMap → List ℕ → HashMap
unfolding unlink_node
remove m str = record m { buckets = set m.buckets (slot m str) (unlink_node str (chain_of m str)) }

count_chains : List (List Node) → ℕ
count_chains [] = 0
count_chains (c ∷ cs) = length c + count_chains cs

pub count : HashMap → ℕ
unfolding count_chains
count m = count_chains m.buckets

chain_keys : List Node → List (List ℕ)
chain_keys [] = []
chain_keys (n ∷ c) = n.value ∷ chain_keys c

keys_from : List (List Node) → List (List ℕ)
unfolding chain_keys
keys_from [] = []
keys_from (c ∷ cs) = chain_keys c ++ keys_from cs

-- the array of `hm_count` names that the loops fill
pub list_keys : HashMap → List (List ℕ)
unfolding keys_from
list_keys m = keys_from m.buckets
