-- ===== src/HashTable/Rehome.antt =====
-- The loops of hst_resize in src/stdlib/hashtable.c: which nodes end in which bucket.
use lanky.Prelude.{
  ℕ, zero, suc, ◌+◌, ◌%◌, ◌≤◌, ◌<◌, ◌≡◌, ◌≢◌, ◌∙◌, sym, refl, Option, none, some, List, [], ◌∷◌,
  ◌++◌, inl, inr, ◌==◌, if◌then◌else◌, length, set, concat, length-append, length-set,
  length-concat-set, Bool-cases, arith,
}
use mathlib.Core.List.{append-nil, append_assoc}
use lanky.HashTable.{KeyOps, Node, bucket, relink, relink_chain, relink_all}
use lanky.HashTable.Chain.{
  found, lookup, occurrences, lookup-append, lookup_of_occurrences, occurrences-append,
}
use lanky.HashTable.Map.{mod-lt, Placed, bucket-set}

module _ {ℓ} {K : Type ℓ} where
  -- the nodes of a chain that belong to bucket `j` of `ns`
  pub rehomed : ℕ → ℕ → List (Node K) → List (Node K)
  rehomed ns j [] = []
  rehomed ns j (n ∷ c) = if n.hash % ns == j then n ∷ rehomed ns j c else rehomed ns j c

  rehomed-append :
      (ns j : ℕ) (a b : List (Node K)) → rehomed ns j (a ++ b) ≡ rehomed ns j a ++ rehomed ns j b
  unfolding rehomed
  rehomed-append ns j [] b = refl
  rehomed-append ns j (n ∷ a) b = ground (arith, rehomed-append ns j a b)

  relink_chain-append :
      (ns : ℕ) (a b : List (Node K)) (fresh : List (List (Node K)))
      → relink_chain ns (a ++ b) fresh ≡ relink_chain ns b (relink_chain ns a fresh)
  unfolding relink_chain
  relink_chain-append ns [] b fresh = refl
  relink_chain-append ns (n ∷ a) b fresh = relink_chain-append ns a b (relink ns n fresh)

  -- the two loops of `hst_resize` are one loop over all the nodes
  pub relink_all-concat :
      (ns : ℕ) (bs fresh : List (List (Node K)))
      → relink_all ns bs fresh ≡ relink_chain ns (concat bs) fresh
  unfolding relink_all
  relink_all-concat ns [] fresh = refl
  relink_all-concat ns (c ∷ cs) fresh =
      relink_all-concat ns cs (relink_chain ns c fresh)
      ∙ sym (relink_chain-append ns c (concat cs) fresh)

  module _ (ns : ℕ) (pos : 0 < ns) where
    pub relink_chain-length :
        (c : List (Node K)) (fresh : List (List (Node K)))
        → length (relink_chain ns c fresh) ≡ length fresh
    unfolding relink_chain
    relink_chain-length [] fresh = refl
    relink_chain-length (n ∷ c) fresh =
        relink_chain-length c (relink ns n fresh) ∙ length-set fresh _ _

    pub relink_chain-bucket :
        (c : List (Node K)) (fresh : List (List (Node K))) (j : ℕ)
        → length fresh ≡ ns
        → bucket (relink_chain ns c fresh) j ≡ bucket fresh j ++ rehomed ns j c
    unfolding relink_chain rehomed
    relink_chain-bucket [] fresh j e = sym (append-nil (bucket fresh j))
    relink_chain-bucket (n ∷ c) fresh j e =
        let i = n.hash % ns in
        let moved = bucket fresh i ++ n ∷ [] in
        let inside : i < length fresh = rw e (mod-lt n.hash ns pos) in
        relink_chain-bucket c (set fresh i moved) j (length-set fresh i moved ∙ e)
        ∙ rw (bucket-set fresh i moved inside j) (step i moved inside)
      where
        step :
            (i : ℕ) (moved : List (Node K)) (inside : i < length fresh)
            → (if i == j then bucket fresh i ++ n ∷ [] else bucket fresh j) ++ rehomed ns j c
              ≡ bucket fresh j ++ (if i == j then n ∷ rehomed ns j c else rehomed ns j c)
        step i moved inside = elim (Bool-cases (i == j)) [
          | inl h ↦
              let e' : i ≡ j = ground arith in
              rw (h, e') (append_assoc (bucket fresh j) (n ∷ []) (rehomed ns j c))
          | inr h ↦ rw h
        ]

    pub relink_chain-total :
        (c : List (Node K)) (fresh : List (List (Node K)))
        → length fresh ≡ ns
        → length (concat (relink_chain ns c fresh)) ≡ length (concat fresh) + length c
    unfolding relink_chain
    relink_chain-total [] fresh e = omega arith
    relink_chain-total (n ∷ c) fresh e =
        let i = n.hash % ns in
        let moved = bucket fresh i ++ n ∷ [] in
        let inside : i < length fresh = rw e (mod-lt n.hash ns pos) in
        omega (
          arith,
          relink_chain-total c (set fresh i moved) (length-set fresh i moved ∙ e),
          length-concat-set fresh i moved inside,
          length-append (bucket fresh i) (n ∷ []),
        )

module _ {ℓ} {K : Type ℓ} ⦃ops : KeyOps K⦄ where
  abbrev pub Hashed : List (Node K) → Type 0
  Hashed [] = Unit
  Hashed (n ∷ c) = (n.hash ≡ ops.hashfunc n.key) × Hashed c

  Hashed-append : (a b : List (Node K)) → Hashed a → Hashed b → Hashed (a ++ b)
  Hashed-append [] b h k = k
  Hashed-append (n ∷ a) b h k = (h.0, Hashed-append a b h.1 k)

  Placed-Hashed : (size i : ℕ) (c : List (Node K)) → Placed size i c → Hashed c
  Placed-Hashed size i [] p = tt
  Placed-Hashed size i (n ∷ c) p = (p.0, Placed-Hashed size i c p.2)

  -- where an equal key stands, the bucket is that of the key's hash
  elsewhere :
      (size i : ℕ) (q : K) (c : List (Node K))
      → Placed size i c
      → ops.hashfunc q % size ≢ i
      → occurrences q c ≡ 0
  unfolding occurrences
  elsewhere size i q [] p ne = refl
  elsewhere size i q (n ∷ c) p ne =
      ground (arith, ops.same_hash n.key q, elsewhere size i q c p.2 ne)

  -- The buckets from number `off` on.
  abbrev pub PlacedFrom : ℕ → ℕ → List (List (Node K)) → Type 0
  PlacedFrom size off [] = Unit
  PlacedFrom size off (c ∷ cs) = Placed size off c × PlacedFrom size (suc off) cs

  pub PlacedFrom-of_all :
      (size off : ℕ) (bs : List (List (Node K)))
      → ((i : ℕ) → Placed size (i + off) (bucket bs i))
      → PlacedFrom size off bs
  PlacedFrom-of_all size off [] h = tt
  PlacedFrom-of_all size off (c ∷ cs) h =
      let here : 0 + off ≡ off = omega arith in
      (
        (rw here at (h 0)),
        PlacedFrom-of_all size (suc off) cs
            (λ i. let e : suc i + off ≡ i + suc off = omega arith in rw e at (h (suc i))),
      )

  pub PlacedFrom-Hashed :
      (size off : ℕ) (bs : List (List (Node K))) → PlacedFrom size off bs → Hashed (concat bs)
  PlacedFrom-Hashed size off [] p = tt
  PlacedFrom-Hashed size off (c ∷ cs) p =
      Hashed-append c (concat cs) (Placed-Hashed size off c p.0)
        (PlacedFrom-Hashed size (suc off) cs p.1)

  module _ (size : ℕ) (q : K) where
    abbrev pub home : ℕ
    home = ops.hashfunc q % size

    occurrences-concat_zero :
        (off : ℕ) (bs : List (List (Node K)))
        → PlacedFrom size off bs
        → home < off
        → occurrences q (concat bs) ≡ 0
    unfolding occurrences
    occurrences-concat_zero off [] p h = refl
    occurrences-concat_zero off (c ∷ cs) p h = omega (
      arith,
      occurrences-append q c (concat cs),
      elsewhere size off q c p.0 (omega arith),
      occurrences-concat_zero (suc off) cs p.1 (omega arith),
    )

    -- all the nodes with a key equal to `q` are in the bucket of `q`
    pub concat-home :
        (i off : ℕ) (bs : List (List (Node K)))
        → PlacedFrom size off bs
        → home ≡ i + off
        → (lookup q (concat bs) ≡ lookup q (bucket bs i))
          × (occurrences q (concat bs) ≡ occurrences q (bucket bs i))
    concat-home i off [] p e = (refl, refl)
    concat-home zero off (c ∷ cs) p e =
        let later = occurrences-concat_zero (suc off) cs p.1 (omega arith) in
        let missed = lookup_of_occurrences q (concat cs) later in
        (
          lookup-append q c (concat cs) ∙ rw missed (keep (lookup q c)),
          omega (arith, occurrences-append q c (concat cs), later),
        )
      where
        keep : (o : Option ℕ) → (if found o then o else none) ≡ o
        keep none = refl
        keep (some v) = refl
    concat-home (suc i) off (c ∷ cs) p e =
        let gone = elsewhere size off q c p.0 (omega arith) in
        let missed = lookup_of_occurrences q c gone in
        let ih = concat-home i (suc off) cs p.1 (omega arith) in
        (
          lookup-append q c (concat cs) ∙ rw missed ih.0,
          omega (arith, occurrences-append q c (concat cs), gone, ih.1),
        )

  module _ (ns : ℕ) where
    pub rehomed-Placed : (j : ℕ) (c : List (Node K)) → Hashed c → Placed ns j (rehomed ns j c)
    unfolding rehomed
    rehomed-Placed j [] h = tt
    rehomed-Placed j (n ∷ c) h = elim (Bool-cases (n.hash % ns == j)) [
      | inl e ↦ rw e (h.0, ground arith, rehomed-Placed j c h.1)
      | inr e ↦ rw e (rehomed-Placed j c h.1)
    ]

    pub rehomed-occurrences-le :
        (j : ℕ) (q : K) (c : List (Node K)) → occurrences q (rehomed ns j c) ≤ occurrences q c
    unfolding rehomed occurrences
    rehomed-occurrences-le j q [] = ground arith
    rehomed-occurrences-le j q (n ∷ c) = ground (arith, rehomed-occurrences-le j q c)

    pub rehomed-lookup :
        (q : K) (c : List (Node K))
        → Hashed c
        → lookup q (rehomed ns (ops.hashfunc q % ns) c) ≡ lookup q c
    unfolding rehomed lookup
    rehomed-lookup q [] h = refl
    rehomed-lookup q (n ∷ c) h = ground (arith, ops.same_hash n.key q, rehomed-lookup q c h.1)
