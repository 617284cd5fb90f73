-- ===== src/HashTable/Map.antt =====
-- src/stdlib/hashtable.c as a finite map: the invariant, and what put, get and contains_key do.
use lanky.Prelude.{
  ℕ, ◌+◌, ◌%◌, ◌≤◌, ◌<◌, ◌≡◌, ◌≢◌, ◌↔◌, ◌∙◌, ap, refl, true, not, Option, none, some, List, [], ◌∷◌,
  ◌++◌, inl, inr, ◌==◌, if◌then◌else◌, length, set, concat, length-append, length-set, get_or-set,
  get_or-replicate, length-concat-set, Bool-cases, arith,
}
use lanky.HashTable.{
  KeyOps, Node, Table, create, make_node, bucket, slot, chain_of, has, overwrite, put, get,
  contains_key,
}
use lanky.HashTable.Chain.{
  or_null, found, lookup, occurrences, find-lookup, has-lookup, lookup_congr, lookup-append,
  occurrences_of_lookup, occurrences-append, lookup-overwrite, occurrences-overwrite,
  length-overwrite,
}

-- `i % 0` is no index, and a bucket is one of `size`.
pub mod-lt : (i n : ℕ) → 0 < n → i % n < n
mod-lt i n h = grind arith

module _ {ℓ} {K : Type ℓ} where
  module _ (bs : List (List (Node K))) (i : ℕ) (c : List (Node K)) (inside : i < length bs) where
    pub bucket-set : (j : ℕ) → bucket (set bs i c) j ≡ (if i == j then c else bucket bs j)
    bucket-set j = get_or-set bs i j c [] inside

    -- a property of every bucket survives a write that has it
    pub bucket-set_all {κ} :
        (P : ℕ → List (Node K) → Type κ)
        → ((j : ℕ) → P j (bucket bs j))
        → P i c
        → (j : ℕ) → P j (bucket (set bs i c) j)
    bucket-set_all P all here j = elim (Bool-cases (i == j)) [
      | inl e ↦ let e' : i ≡ j = ground arith in rw (bucket-set j, e) (rw e' at here)
      | inr e ↦ rw (bucket-set j, e) (all j)
    ]

module _ {ℓ} {K : Type ℓ} ⦃ops : KeyOps K⦄ where
  -- a node stores the hash of its key, and stands in the bucket of that hash
  abbrev pub Placed : ℕ → ℕ → List (Node K) → Type 0
  Placed size i [] = Unit
  Placed size i (n ∷ c) = (n.hash ≡ ops.hashfunc n.key) × (n.hash % size ≡ i) × Placed size i c

  pub record IsValid (ht : Table K) : Type ℓ where
    pub roomy : 0 < ht.size
    pub sized : length ht.buckets ≡ ht.size
    pub counted : ht.count ≡ length (concat ht.buckets)
    pub placed : (i : ℕ) → Placed ht.size i (bucket ht.buckets i)
    pub unique : (i : ℕ) (q : K) → occurrences q (bucket ht.buckets i) ≤ 1

  -- the abstract map
  unfoldable pub view : Table K → K → Option ℕ
  view ht q = lookup q (chain_of ht q)

  pub get-view : (ht : Table K) (q : K) → get ht q ≡ or_null (view ht q)
  unfolding get view
  get-view ht q = find-lookup q (chain_of ht q)

  pub view_congr : (ht : Table K) (k q : K) → ops.equfunc k q ≡ true → view ht k ≡ view ht q
  unfolding view
  view_congr ht k q e =
      let same : ops.hashfunc k ≡ ops.hashfunc q = ops.same_hash k q e in
      lookup_congr k q (chain_of ht k) e ∙ ap (λ h. lookup q (bucket ht.buckets (h % ht.size))) same

  pub Placed-append :
      (size i : ℕ) (a b : List (Node K))
      → Placed size i a
      → Placed size i b
      → Placed size i (a ++ b)
  Placed-append size i [] b p p' = p'
  Placed-append size i (n ∷ a) b p p' = (p.0, p.1, Placed-append size i a b p.2 p')

  Placed-overwrite :
      (size i : ℕ) (k : K) (v : ℕ) (c : List (Node K))
      → Placed size i c
      → Placed size i (overwrite k v c)
  unfolding overwrite
  Placed-overwrite size i k v [] p = p
  Placed-overwrite size i k v (n ∷ c) p = elim (Bool-cases (ops.equfunc n.key k)) [
    | inl e ↦ rw e p
    | inr e ↦ rw e (p.0, p.1, Placed-overwrite size i k v c p.2)
  ]

  module _ {ht : Table K} (valid : IsValid ht) (k : K) where
    pub slot-inside : slot ht k < length ht.buckets
    slot-inside = rw valid.sized (mod-lt (ops.hashfunc k) ht.size valid.roomy)

    -- a new chain in the bucket of `k` that differs at `k` only
    pub view-set :
        (o : Option ℕ) (c : List (Node K)) (n : ℕ)
        → ((q : K) → lookup q c ≡ (if ops.equfunc k q then o else lookup q (chain_of ht k)))
        → (q : K)
        → view (record ht { count = n; buckets = set ht.buckets (slot ht k) c }) q
          ≡ (if ops.equfunc k q then o else view ht q)
    unfolding view
    view-set o c n h q =
        ground (
          arith,
          h q,
          ops.same_hash k q,
          bucket-set ht.buckets (slot ht k) c slot-inside (slot ht q),
        )

    pub set-IsValid :
        (c : List (Node K)) (n : ℕ)
        → n + length (chain_of ht k) ≡ ht.count + length c
        → Placed ht.size (slot ht k) c
        → ((q : K) → occurrences q c ≤ 1)
        → IsValid (record ht { count = n; buckets = set ht.buckets (slot ht k) c })
    set-IsValid c n total at_home once = record {
      roomy = valid.roomy;
      sized = length-set ht.buckets (slot ht k) c ∙ valid.sized;
      counted =
          omega (arith, length-concat-set ht.buckets (slot ht k) c slot-inside, valid.counted);
      placed =
          bucket-set_all ht.buckets (slot ht k) c slot-inside (Placed ht.size) valid.placed at_home;
      unique =
          bucket-set_all ht.buckets (slot ht k) c slot-inside
            (λ _ (d : List (Node K)). (q : K) → occurrences q d ≤ 1) valid.unique once;
    }

    abbrev chain_at : List (Node K)
    chain_at = chain_of ht k

    appended-once :
        (v : ℕ)
        → lookup k chain_at ≡ none
        → (q : K) → occurrences q (chain_at ++ make_node (ops.hashfunc k) k v ∷ []) ≤ 1
    unfolding occurrences make_node
    appended-once v miss q = ground (
      arith,
      occurrences-append q chain_at (make_node (ops.hashfunc k) k v ∷ []),
      valid.unique (slot ht k) q,
      lookup_congr k q chain_at,
      occurrences_of_lookup q chain_at,
    )

    appended-lookup :
        (v : ℕ)
        → lookup k chain_at ≡ none
        → (q : K)
        → lookup q (chain_at ++ make_node (ops.hashfunc k) k v ∷ [])
          ≡ (if ops.equfunc k q then some v else lookup q chain_at)
    unfolding lookup make_node
    appended-lookup v miss q = ground (
      arith,
      lookup-append q chain_at (make_node (ops.hashfunc k) k v ∷ []),
      lookup_congr k q chain_at,
    )

    overwritten-lookup :
        (v : ℕ)
        → has k chain_at ≡ true
        → (q : K)
        → lookup q (overwrite k v chain_at)
          ≡ (if ops.equfunc k q then some v else lookup q chain_at)
    overwritten-lookup v hit q =
        ground (arith, lookup-overwrite k q v chain_at, has-lookup k chain_at)

    pub put-IsValid : (v : ℕ) → IsValid (put ht k v)
    unfolding put make_node
    put-IsValid v = elim (Bool-cases (has k chain_at)) [
      | inl e ↦ rw e (
          set-IsValid (overwrite k v chain_at) ht.count
            (omega (arith, length-overwrite k v chain_at))
            (Placed-overwrite ht.size (slot ht k) k v chain_at (valid.placed (slot ht k)))
            (λ q. omega (arith, occurrences-overwrite k q v chain_at, valid.unique (slot ht k) q)))
      | inr e ↦
          let miss : lookup k chain_at ≡ none = ground (arith, has-lookup k chain_at) in
          rw e (
            set-IsValid (chain_at ++ make_node (ops.hashfunc k) k v ∷ []) (ht.count + 1)
              (omega (arith, length-append chain_at (make_node (ops.hashfunc k) k v ∷ [])))
              (Placed-append ht.size (slot ht k) chain_at (make_node (ops.hashfunc k) k v ∷ [])
                (valid.placed (slot ht k)) (refl, refl, tt))
              (appended-once v miss))
    ]

    pub view-put :
        (v : ℕ) (q : K) → view (put ht k v) q ≡ (if ops.equfunc k q then some v else view ht q)
    unfolding put make_node
    view-put v q = elim (Bool-cases (has k chain_at)) [
      | inl e ↦
          rw e (view-set (some v) (overwrite k v chain_at) ht.count (overwritten-lookup v e) q)
      | inr e ↦
          let miss : lookup k chain_at ≡ none = ground (arith, has-lookup k chain_at) in
          rw e (
            view-set (some v) (chain_at ++ make_node (ops.hashfunc k) k v ∷ []) (ht.count + 1)
              (appended-lookup v miss) q)
    ]

    pub count-put :
        (v : ℕ) → (put ht k v).count ≡ (if found (view ht k) then ht.count else ht.count + 1)
    unfolding put view
    count-put v = ground (arith, has-lookup k chain_at)

    -- `hst_put` keeps a well-formed table well formed; afterwards an equal key finds the new value
    -- and every other key what it found before; `count` grows by one exactly if the key is new.
    pub put_lem :
        (v : ℕ)
        → IsValid (put ht k v)
          × ((q : K) → view (put ht k v) q ≡ (if ops.equfunc k q then some v else view ht q))
          × ((put ht k v).count ≡ (if found (view ht k) then ht.count else ht.count + 1))
    put_lem v = (put-IsValid v, view-put v, count-put v)

  pub create-IsValid : IsValid (create {K = K})
  unfolding create occurrences
  create-IsValid = record {
    roomy = omega arith;
    sized = refl;
    counted = refl;
    placed = λ i. rw (get_or-replicate {A = List (Node K)} 8 i []) tt;
    unique = λ i q. rw (get_or-replicate {A = List (Node K)} 8 i []) (omega arith);
  }

  -- `hst_contains_key` reads the value, so it finds a key exactly if the key is bound to an address
  -- other than NULL.
  pub contains_key-view :
      (ht : Table K) (q : K)
      → (contains_key ht q ≡ true) ↔ ((v : ℕ) × (view ht q ≡ some v) × (v ≢ 0))
  unfolding contains_key
  contains_key-view ht q = (to (view ht q) refl, λ (v, e, ne). from v e ne)
    where
      to :
          (o : Option ℕ)
          → view ht q ≡ o
          → not (get ht q == 0) ≡ true
          → (v : ℕ) × (view ht q ≡ some v) × (v ≢ 0)
      to none e h = absurd (ground (arith, get-view ht q))
      to (some v) e h = (v, e, ground (arith, get-view ht q))

      from : (v : ℕ) → view ht q ≡ some v → v ≢ 0 → not (get ht q == 0) ≡ true
      from v e ne = ground (arith, get-view ht q)
