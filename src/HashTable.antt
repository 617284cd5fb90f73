-- ===== src/HashTable.antt =====
-- src/stdlib/hashtable.c: the chained hash table under every object's members and under the tables
-- of the language. A chain is the list of its nodes from the head. A value is the address that the
-- table stores, and 0 is NULL. The function pointers `hashfunc` and `equfunc` are the instance
-- `KeyOps`; `c_string` is what the code takes where they are NULL.
pub mod Chain
pub mod Strings
pub mod Map
pub mod Rehome
pub mod Resize
pub mod Each
pub mod Remove
mod Tests
use lanky.Prelude.{
  ℕ, zero, suc, ◌+◌, ◌-◌, ◌*◌, ◌%◌, ◌^◌, ◌<◌, ◌≡◌, ◌∙◌, sym, refl, Bool, true, false, ◌&&◌, not,
  List, [], ◌∷◌, ◌++◌, ltb, ◌==◌, if◌then◌else◌, get_or, set, replicate, concat, arith,
}

-- `hst_hash_function` read as an unsigned long, and `EQU_CHECK` on keys. The laws are what a hash
-- table asks of such a pair.
pub record KeyOps {ℓ} (K : Type ℓ) : Type ℓ where
  pub hashfunc : K → ℕ
  pub equfunc : K → K → Bool
  pub reflexive : (k : K) → equfunc k k ≡ true
  pub symmetric : (k l : K) → equfunc k l ≡ equfunc l k
  pub transitive : (k l m : K) → equfunc k l ≡ true → equfunc l m ≡ true → equfunc k m ≡ true
  pub same_hash : (k l : K) → equfunc k l ≡ true → hashfunc k ≡ hashfunc l

-- `hash = ((hash << 5) + hash) + c` on 64 bits; `char` is signed, so a byte of 128 or more is
-- extended by its sign.
djb2_step : ℕ → ℕ → ℕ
djb2_step hash c =
    ((hash * 32 + hash) % 2 ^ 64 + (if ltb c 128 then c else 2 ^ 64 - 256 + c)) % 2 ^ 64

djb2_loop : ℕ → List ℕ → ℕ
unfolding djb2_step
djb2_loop hash [] = hash
djb2_loop hash (c ∷ str) = djb2_loop (djb2_step hash c) str

-- The text is the bytes before the terminating NUL.
unfoldable pub djb2 : List ℕ → ℕ
unfolding djb2_loop
djb2 = djb2_loop 5381

-- `!strcmp(a, b)`
unfoldable pub bytes_equal : List ℕ → List ℕ → Bool
bytes_equal [] [] = true
bytes_equal (a ∷ as₁) (b ∷ bs₁) = a == b && bytes_equal as₁ bs₁
bytes_equal _ _ = false

-- `hst_node` without its link
pub record Node {ℓ} (K : Type ℓ) : Type ℓ where
  pub hash : ℕ
  pub key : K
  pub val : ℕ

pub record Table {ℓ} (K : Type ℓ) : Type ℓ where
  pub count : ℕ
  pub size : ℕ
  pub buckets : List (List (Node K))

-- An address that the code may follow no further stops the run: the memory was freed.
pub data Run {ℓ} (A : Type ℓ) : Type ℓ where
  done : A → Run A
  use_after_free : Run A

unfoldable pub create {ℓ} : {K : Type ℓ} → Table K
create = record { count = 0; size = 8; buckets = replicate 8 [] }

abbrev pub next_size : ℕ → ℕ
next_size size = if ltb 1000 size then size + 1000 else size * 2

module _ {ℓ} {K : Type ℓ} where
  pub make_node : ℕ → K → ℕ → Node K
  make_node hash key val = record { hash = hash; key = key; val = val }

  abbrev pub bucket : List (List (Node K)) → ℕ → List (Node K)
  bucket bs i = get_or bs i []

  -- one node goes to the end of its new chain
  relink : ℕ → Node K → List (List (Node K)) → List (List (Node K))
  relink ns n fresh = let i = n.hash % ns in set fresh i (bucket fresh i ++ n ∷ [])

  pub relink_chain : ℕ → List (Node K) → List (List (Node K)) → List (List (Node K))
  unfolding relink
  relink_chain ns [] fresh = fresh
  relink_chain ns (n ∷ c) fresh = relink_chain ns c (relink ns n fresh)

  pub relink_all : ℕ → List (List (Node K)) → List (List (Node K)) → List (List (Node K))
  unfolding relink_chain
  relink_all ns [] fresh = fresh
  relink_all ns (c ∷ cs) fresh = relink_all ns cs (relink_chain ns c fresh)

  pub resize : Table K → Table K
  unfolding relink_all
  resize ht =
      let ns = next_size ht.size in
      record ht { buckets = relink_all ns ht.buckets (replicate ns []); size = ns }

module _ {ℓ} {K : Type ℓ} ⦃ops : KeyOps K⦄ where
  -- `n->next` is followed until a key is equal to `key`; NULL (0) at the end
  pub find : K → List (Node K) → ℕ
  find key [] = 0
  find key (n ∷ c) = if ops.equfunc n.key key then n.val else find key c

  -- whether the walk stops at a node
  pub has : K → List (Node K) → Bool
  has key [] = false
  has key (n ∷ c) = if ops.equfunc n.key key then true else has key c

  -- `last->val = val` where the walk stops
  pub overwrite : K → ℕ → List (Node K) → List (Node K)
  overwrite key val [] = []
  overwrite key val (n ∷ c) =
      if ops.equfunc n.key key then record n { val = val } ∷ c else n ∷ overwrite key val c

  -- the node where the walk stops leaves the chain
  pub unlink : K → List (Node K) → List (Node K)
  unlink key [] = []
  unlink key (n ∷ c) = if ops.equfunc n.key key then c else n ∷ unlink key c

  abbrev pub slot : Table K → K → ℕ
  slot ht key = ops.hashfunc key % ht.size

  abbrev pub chain_of : Table K → K → List (Node K)
  chain_of ht key = bucket ht.buckets (slot ht key)

  -- An empty bucket and a walk that finds no equal key both end in one more node and one more in
  -- `count`. `NO_RESIZE` is defined, so there is no resize.
  unfoldable pub put : Table K → K → ℕ → Table K
  unfolding has overwrite make_node
  put ht key val =
      let i = slot ht key in
      let c = chain_of ht key in
      if has key c
      then record ht { buckets = set ht.buckets i (overwrite key val c) }
      else record ht {
        count = ht.count + 1;
        buckets = set ht.buckets i (c ++ make_node (ops.hashfunc key) key val ∷ []);
      }

  unfoldable pub get : Table K → K → ℕ
  unfolding find
  get ht key = find key (chain_of ht key)

  -- `!!hst_get(...)`
  pub contains_key : Table K → K → Bool
  unfolding get
  contains_key ht key = not (get ht key == 0)

  put_chain : Table K → List (Node K) → Table K
  unfolding put
  put_chain ht [] = ht
  put_chain ht (n ∷ c) = put_chain (put ht n.key n.val) c

  put_chains : Table K → List (List (Node K)) → Table K
  unfolding put_chain
  put_chains ht [] = ht
  put_chains ht (c ∷ cs) = put_chains (put_chain ht c) cs

  pub add_all_from : Table K → Table K → Table K
  unfolding put_chains
  add_all_from ht ot = put_chains ht ot.buckets

  -- the returned value (NULL where there is none) and the table
  pub remove_key : Table K → K → ℕ × Table K
  unfolding find has unlink
  remove_key ht key =
      let i = slot ht key in
      let c = chain_of ht key in
      if has key c
      then (
        find key c,
        record ht { count = ht.count - 1; buckets = set ht.buckets i (unlink key c) },
      )
      else (0, ht)

module _ {ℓ} {K : Type ℓ} (equal : ℕ → ℕ → Bool) where
  chain_contains_value : List (Node K) → ℕ → Bool
  chain_contains_value [] val = false
  chain_contains_value (n ∷ c) val = if equal n.val val then true else chain_contains_value c val

  chains_contain_value : List (List (Node K)) → ℕ → Bool
  unfolding chain_contains_value
  chains_contain_value [] val = false
  chains_contain_value (c ∷ cs) val =
      if chain_contains_value c val then true else chains_contain_value cs val

  -- `equal` is `EQU_CHECK` on values
  pub contains_value : Table K → ℕ → Bool
  unfolding chains_contain_value
  contains_value ht val = chains_contain_value ht.buckets val

  -- After a match the loop frees `n` and goes on with `n = n->next`, a read of freed memory.
  remove_val_chain : List (Node K) → ℕ → Run (List (Node K))
  remove_val_chain [] val = done []
  remove_val_chain (n ∷ c) val =
      if equal n.val val then use_after_free else elim (remove_val_chain c val) [
        | done c' ↦ done (n ∷ c')
        | use_after_free ↦ use_after_free
      ]

  remove_val_chains : List (List (Node K)) → ℕ → Run (List (List (Node K)))
  unfolding remove_val_chain
  remove_val_chains [] val = done []
  remove_val_chains (c ∷ cs) val = elim (remove_val_chain c val) [
    | use_after_free ↦ use_after_free
    | done c' ↦ elim (remove_val_chains cs val) [
      | use_after_free ↦ use_after_free
      | done cs' ↦ done (c' ∷ cs')
    ]
  ]

  pub remove_val : Table K → ℕ → Run (Table K)
  unfolding remove_val_chains
  remove_val ht val = elim (remove_val_chains ht.buckets val) [
    | use_after_free ↦ use_after_free
    | done bs ↦ done (record ht { buckets = bs })
  ]

module _ {ℓ κ} {K : Type ℓ} {S : Type κ} (func : K → ℕ → S → S) where
  each_node : List (Node K) → S → S
  each_node [] s = s
  each_node (n ∷ c) s = each_node c (func n.key n.val s)

  each_chain : List (List (Node K)) → S → S
  unfolding each_node
  each_chain [] s = s
  each_chain (c ∷ cs) s = each_chain cs (each_node c s)

  -- `func(n->key, n->val, data)`, where `data` is what the calls change
  pub for_each : Table K → S → S
  unfolding each_chain
  for_each ht s = each_chain ht.buckets s
