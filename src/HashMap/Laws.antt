-- ===== src/HashMap/Laws.antt =====
-- src/interpreter/hashmap.c as a map from names to addresses.
use lanky.Prelude.{
  ℕ, suc, ap, ◌+◌, ◌<◌, ◌≤◌, ◌≡◌, ◌∙◌, refl, true, false, Option, none, some, List, [], ◌∷◌, ◌==◌,
  if◌then◌else◌, inl, inr, length, get_or, set, length-append, length-set, length-replicate,
  get_or-set, get_or-replicate, Bool-cases, arith,
}
use lanky.HashTable.{bytes_equal}
use lanky.HashTable.Chain.{equal_congr_left, equal_congr_right}
use lanky.HashTable.Strings.{c_string, hash-bytes_equal}
use lanky.HashMap.{
  Node, HashMap, create, slot, chain_of, put_node, put, has_node, find_node, get, unlink_node,
  remove, count_chains, count, chain_keys, keys_from, list_keys,
}

pub holders : List ℕ → List Node → ℕ
holders q [] = 0
holders q (n ∷ c) = (if bytes_equal n.value q then 1 else 0) + holders q c

-- There is a bucket for each hash, and none of them holds a name twice.
pub record IsValid (m : HashMap) : Type 0 where
  pub sized : length m.buckets ≡ m.hash_size
  pub positive : 0 < m.hash_size
  pub unique : (i : ℕ) (q : List ℕ) → holders q (get_or m.buckets i []) ≤ 1

pub create-IsValid : (size : ℕ) → 0 < size → IsValid (create size)
unfolding create holders
create-IsValid size h = record {
  sized = length-replicate size [];
  positive = h;
  unique = λ i q. rw (get_or-replicate {A = List Node} size i []) (omega arith);
}

find-put_node :
    (k q : List ℕ) (v : ℕ) (c : List Node)
    → find_node q (put_node k v c) ≡ (if bytes_equal k q then some v else find_node q c)
unfolding find_node put_node
find-put_node k q v [] = refl
find-put_node k q v (n ∷ c) =
    ground
      (arith, find-put_node k q v c, equal_congr_left n.value k q, equal_congr_right n.value k q)

holders-put_node :
    (k q : List ℕ) (v : ℕ) (c : List Node)
    → holders q (put_node k v c)
      ≡ holders q c + (if has_node k c then 0 else if bytes_equal k q then 1 else 0)
unfolding holders put_node has_node
holders-put_node k q v [] = omega arith
holders-put_node k q v (n ∷ c) = ground (arith, holders-put_node k q v c)

absent :
    (k q : List ℕ) (c : List Node) → has_node k c ≡ false → bytes_equal k q ≡ true → holders q c ≡ 0
unfolding holders has_node
absent k q [] h e = refl
absent k q (n ∷ c) h e = ground (arith, absent k q c, equal_congr_right n.value k q)

find-unlink_node :
    (k q : List ℕ) (c : List Node)
    → holders q c ≤ 1
    → find_node q (unlink_node k c) ≡ (if bytes_equal k q then none else find_node q c)
unfolding find_node unlink_node holders
find-unlink_node k q [] h = ground arith
find-unlink_node k q (n ∷ c) h = ground (
  arith,
  find-unlink_node k q c,
  gone q c,
  equal_congr_left n.value k q,
  equal_congr_right n.value k q,
)
  where
    gone : (q : List ℕ) (c : List Node) → holders q c ≡ 0 → find_node q c ≡ none
    gone q [] e = refl
    gone q (m ∷ c) e = ground (arith, gone q c)

holders-unlink_node : (k q : List ℕ) (c : List Node) → holders q (unlink_node k c) ≤ holders q c
unfolding holders unlink_node
holders-unlink_node k q [] = omega arith
holders-unlink_node k q (n ∷ c) = ground (arith, holders-unlink_node k q c)

-- one bucket is replaced
module _ {m : HashMap} (v : IsValid m) (k : List ℕ) (c : List Node) where
  written : HashMap
  written = record m { buckets = set m.buckets (slot m k) c }

  slot_inside : slot m k < length m.buckets
  slot_inside = omega (arith, v.sized, v.positive)

  written-IsValid : ((q : List ℕ) → holders q c ≤ 1) → IsValid written
  unfolding written
  written-IsValid h = record {
    sized = length-set m.buckets (slot m k) c ∙ v.sized;
    positive = v.positive;
    unique = λ i q.
        ground (arith, get_or-set m.buckets (slot m k) i c [], slot_inside, h q, v.unique i q);
  }

  written-get :
      (o : Option ℕ)
      → ((q : List ℕ) → find_node q c ≡ (if bytes_equal k q then o else find_node q (chain_of m k)))
      → (q : List ℕ) → get written q ≡ (if bytes_equal k q then o else get m q)
  unfolding written get
  written-get o h q =
      let here = get_or-set m.buckets (slot m k) (slot m q) c [] slot_inside in
      elim (Bool-cases (slot m k == slot m q)) [
        | inl e ↦ let same : slot m k ≡ slot m q = ground arith in rw (here, e) (h q ∙ rw same refl)
        | inr e ↦
            let other : bytes_equal k q ≡ false = ground (arith, hash-bytes_equal k q) in
            rw (here, e, other) refl
      ]

-- `hm_put` keeps a well-formed map well formed; afterwards the name is bound to the address, and every
-- other name is bound as before.
pub get-put :
    {m : HashMap}
    → IsValid m
    → (k : List ℕ) (val : ℕ) (q : List ℕ)
    → IsValid (put m k val)
      × (get (put m k val) q ≡ (if bytes_equal k q then some val else get m q))
unfolding put written
get-put {m} v k val q =
    let c = chain_of m k in
    (
      written-IsValid v k (put_node k val c)
          (λ p. ground (arith, holders-put_node k p val c, absent k p c, v.unique (slot m k) p)),
      written-get v k (put_node k val c) (some val) (λ p. find-put_node k p val c) q,
    )

-- `hm_remove` keeps a well-formed map well formed; afterwards the name is not bound, and every other name
-- is bound as before.
pub get-remove :
    {m : HashMap}
    → IsValid m
    → (k q : List ℕ)
    → IsValid (remove m k) × (get (remove m k) q ≡ (if bytes_equal k q then none else get m q))
unfolding remove written
get-remove {m} v k q =
    let c = chain_of m k in
    (
      written-IsValid v k (unlink_node k c)
          (λ p. omega (arith, holders-unlink_node k p c, v.unique (slot m k) p)),
      written-get v k (unlink_node k c) none (λ p. find-unlink_node k p c (v.unique (slot m k) p))
          q,
    )

length-chain_keys : (c : List Node) → length (chain_keys c) ≡ length c
unfolding chain_keys
length-chain_keys [] = refl
length-chain_keys (n ∷ c) = ap suc (length-chain_keys c)

length-keys_from : (cs : List (List Node)) → length (keys_from cs) ≡ count_chains cs
unfolding keys_from count_chains
length-keys_from [] = refl
length-keys_from (c ∷ cs) =
    omega
      (arith, length-append (chain_keys c) (keys_from cs), length-chain_keys c, length-keys_from cs)

-- `hm_list_keys` writes as many names as `hm_count` made room for.
pub length-list_keys : (m : HashMap) → length (list_keys m) ≡ count m
unfolding list_keys count
length-list_keys m = length-keys_from m.buckets
