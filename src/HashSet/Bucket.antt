-- ===== src/HashSet/Bucket.antt =====
-- One bucket of src/interpreter/gc_hashset.c, and what all of them hold.
use mathlib.Core.Path.{subst}
use native.Mathlib.Nat.{add-zero}
use lanky.Prelude.{
  occurrences, occurrences-append, ℕ, zero, suc, ◌+◌, ◌%◌, ◌≤◌, ◌<◌, ◌≡◌, ◌≢◌, sym, refl, true,
  false, List, [], ◌∷◌, ◌++◌, inl, inr, ◌==◌, if◌then◌else◌, length, get_or, set, concat,
  get_or-set, Bool-cases, arith,
}
use lanky.HashSet.{mem, drop_node}

pub mod-lt : (i n : ℕ) → 0 < n → i % n < n
mod-lt i n h = grind arith

pub mem-append : (q : ℕ) (a b : List ℕ) → mem q (a ++ b) ≡ (if mem q a then true else mem q b)
unfolding mem
mem-append q [] b = refl
mem-append q (x ∷ a) b = ground (arith, mem-append q a b)

pub mem_of_occurrences : (q : ℕ) (c : List ℕ) → occurrences q c ≡ 0 → mem q c ≡ false
unfolding mem occurrences
mem_of_occurrences q [] h = refl
mem_of_occurrences q (x ∷ c) h = ground (arith, mem_of_occurrences q c)

pub occurrences_of_mem : (q : ℕ) (c : List ℕ) → mem q c ≡ false → occurrences q c ≡ 0
unfolding mem occurrences
occurrences_of_mem q [] h = refl
occurrences_of_mem q (x ∷ c) h = ground (arith, occurrences_of_mem q c)

pub occurrences-drop_node-le :
    (k q : ℕ) (c : List ℕ) → occurrences q (drop_node k c) ≤ occurrences q c
unfolding occurrences drop_node
occurrences-drop_node-le k q [] = ground arith
occurrences-drop_node-le k q (x ∷ c) = ground (arith, occurrences-drop_node-le k q c)

pub mem-drop_node :
    (k q : ℕ) (c : List ℕ)
    → occurrences q c ≤ 1
    → mem q (drop_node k c) ≡ (if k == q then false else mem q c)
unfolding mem drop_node occurrences
mem-drop_node k q [] h = ground arith
mem-drop_node k q (x ∷ c) h = ground (arith, mem-drop_node k q c, mem_of_occurrences q c)

pub length-drop_node : (k : ℕ) (c : List ℕ) → mem k c ≡ true → length (drop_node k c) + 1 ≡ length c
unfolding mem drop_node
length-drop_node k [] h = ground arith
length-drop_node k (x ∷ c) h = ground (arith, length-drop_node k c)

abbrev pub Placed : ℕ → ℕ → List ℕ → Type 0
Placed size i [] = Unit
Placed size i (x ∷ c) = (x % size ≡ i) × Placed size i c

pub Placed-append :
    (size i : ℕ) (a b : List ℕ) → Placed size i a → Placed size i b → Placed size i (a ++ b)
Placed-append size i [] b p p' = p'
Placed-append size i (x ∷ a) b p p' = (p.0, Placed-append size i a b p.1 p')

pub Placed-drop_node : (size i k : ℕ) (c : List ℕ) → Placed size i c → Placed size i (drop_node k c)
unfolding drop_node
Placed-drop_node size i k [] p = p
Placed-drop_node size i k (x ∷ c) p = elim (Bool-cases (x == k)) [
  | inl e ↦ rw e p.1
  | inr e ↦ rw e (p.0, Placed-drop_node size i k c p.1)
]

elsewhere : (size i q : ℕ) (c : List ℕ) → Placed size i c → q % size ≢ i → occurrences q c ≡ 0
unfolding occurrences
elsewhere size i q [] p ne = refl
elsewhere size i q (x ∷ c) p ne = ground (arith, elsewhere size i q c p.1 ne)

abbrev pub bucket : List (List ℕ) → ℕ → List ℕ
bucket bs i = get_or bs i []

module _ (bs : List (List ℕ)) (i : ℕ) (c : List ℕ) (inside : i < length bs) where
  pub bucket-set : (j : ℕ) → bucket (set bs i c) j ≡ (if i == j then c else bucket bs j)
  bucket-set j = get_or-set bs i j c [] inside

  -- a property of every bucket survives a write that has it
  pub bucket-set_all {κ} :
      (P : ℕ → List ℕ → Type κ)
      → ((j : ℕ) → P j (bucket bs j))
      → P i c
      → (j : ℕ) → P j (bucket (set bs i c) j)
  bucket-set_all P all here j = elim (Bool-cases (i == j)) [
    | inl e ↦ let e' : i ≡ j = ground arith in rw (bucket-set j, e) (rw e' at here)
    | inr e ↦ rw (bucket-set j, e) (all j)
  ]

module _ (size q : ℕ) where
  abbrev PlacedFrom : ℕ → List (List ℕ) → Type 0
  PlacedFrom off [] = Unit
  PlacedFrom off (c ∷ cs) = Placed size off c × PlacedFrom (suc off) cs

  PlacedFrom-of_all :
      (off : ℕ) (bs : List (List ℕ))
      → ((i : ℕ) → Placed size (i + off) (bucket bs i))
      → PlacedFrom off bs
  PlacedFrom-of_all off [] h = tt
  PlacedFrom-of_all off (c ∷ cs) h =
      let here : 0 + off ≡ off = omega arith in
      (
        (rw here at (h 0)),
        PlacedFrom-of_all (suc off) cs
            (λ i. let e : suc i + off ≡ i + suc off = omega arith in rw e at (h (suc i))),
      )

  occurrences-concat_zero :
      (off : ℕ) (bs : List (List ℕ))
      → PlacedFrom off bs
      → q % size < off
      → occurrences q (concat bs) ≡ 0
  unfolding occurrences
  occurrences-concat_zero off [] p h = refl
  occurrences-concat_zero off (c ∷ cs) p h = omega (
    arith,
    occurrences-append q c (concat cs),
    elsewhere size off q c p.0 (omega arith),
    occurrences-concat_zero (suc off) cs p.1 (omega arith),
  )

  concat-home_from :
      (i off : ℕ) (bs : List (List ℕ))
      → PlacedFrom off bs
      → q % size ≡ i + off
      → occurrences q (concat bs) ≡ occurrences q (bucket bs i)
  concat-home_from i off [] p e = refl
  concat-home_from zero off (c ∷ cs) p e = omega (
    arith,
    occurrences-append q c (concat cs),
    occurrences-concat_zero (suc off) cs p.1 (omega arith),
  )
  concat-home_from (suc i) off (c ∷ cs) p e = omega (
    arith,
    occurrences-append q c (concat cs),
    elsewhere size off q c p.0 (omega arith),
    concat-home_from i (suc off) cs p.1 (omega arith),
  )

  -- all the nodes with the value `q` are in the bucket of `q`
  pub concat-home :
      (bs : List (List ℕ))
      → ((i : ℕ) → Placed size i (bucket bs i))
      → (occurrences q (concat bs) ≡ occurrences q (bucket bs (q % size)))
        × (mem q (concat bs) ≡ mem q (bucket bs (q % size)))
  concat-home bs placed =
      let from =
        PlacedFrom-of_all 0 bs
          (λ i. subst (λ k. Placed size k (bucket bs i)) (sym (add-zero i)) (placed i)) in
      let same = concat-home_from (q % size) 0 bs from (omega arith) in
      (
        same,
        ground (
          arith,
          mem_of_occurrences q (concat bs),
          mem_of_occurrences q (bucket bs (q % size)),
          occurrences_of_mem q (concat bs),
          occurrences_of_mem q (bucket bs (q % size)),
        ),
      )
