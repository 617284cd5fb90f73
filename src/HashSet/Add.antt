-- ===== src/HashSet/Add.antt =====
-- gchs_add of src/interpreter/gc_hashset.c: the set grows by the address, whether or not the buckets
-- are too few, and the nesting of its calls is bounded.
use lanky.Prelude.{
  occurrences, occurrences-append, ℕ, suc, ◌+◌, ◌*◌, ◌%◌, ◌≤◌, ◌<◌, ◌≡◌, ◌∙◌, sym, ap, refl, Bool,
  true, false, some, List, [], ◌∷◌, ◌++◌, inl, inr, ◌==◌, if◌then◌else◌, length, set, concat, take,
  take-length, length-append, length-set, get_or-replicate, length-replicate, concat-replicate,
  length-concat-set, Bool-cases, arith, ltb→le,
}
use lanky.HashSet.{
  HashSet, create, mem, chain_of, to_list, contains, add_node, crowded, add_each, add,
}
use lanky.HashSet.Bucket.{
  mod-lt, mem-append, occurrences_of_mem, Placed, Placed-append, bucket, bucket-set, bucket-set_all,
  concat-home,
}

-- All but the bound on the load.
pub record IsFormed (s : HashSet) : Type 0 where
  pub roomy : 0 < s.hash_size
  pub sized : length s.buckets ≡ s.hash_size
  pub counted : s.count ≡ length (concat s.buckets)
  pub placed : (i : ℕ) → Placed s.hash_size i (bucket s.buckets i)
  pub unique : (i q : ℕ) → occurrences q (bucket s.buckets i) ≤ 1

pub record IsValid (s : HashSet) : Type 0 where
  pub formed : IsFormed s
  pub load : 3 * s.count ≤ 2 * s.hash_size + 3

pub create-IsFormed : (n : ℕ) → 0 < n → IsFormed (create n)
unfolding create occurrences
create-IsFormed n h = record {
  roomy = h;
  sized = length-replicate {A = List ℕ} n [];
  counted = sym (ap length (concat-replicate {A = ℕ} n));
  placed = λ i. rw (get_or-replicate {A = List ℕ} n i []) tt;
  unique = λ i q. rw (get_or-replicate {A = List ℕ} n i []) (omega arith);
}

pub contains-create : (n q : ℕ) → contains (create n) q ≡ false
unfolding contains create mem
contains-create n q = rw (get_or-replicate {A = List ℕ} n (q % n) [])

-- The list of a set holds what the set contains, once.
pub mem-to_list :
    {s : HashSet}
    → IsFormed s
    → (q : ℕ) → (mem q (to_list s) ≡ contains s q) × (occurrences q (to_list s) ≤ 1)
unfolding to_list contains
mem-to_list {s} v q =
    let home = concat-home s.hash_size q s.buckets v.placed in
    (home.1, omega (arith, home.0, v.unique (q % s.hash_size) q))

-- `count` is the number of nodes, so the loop over the list reads all of it.
pub take-to_list : {s : HashSet} → IsFormed s → take s.count (to_list s) ≡ to_list s
unfolding to_list
take-to_list {s} v = rw v.counted (take-length (concat s.buckets))

module _ {s : HashSet} (v : IsFormed s) (x : ℕ) where
  pub slot-inside : x % s.hash_size < length s.buckets
  slot-inside = rw v.sized (mod-lt x s.hash_size v.roomy)

  -- a new chain in the bucket of `x`
  pub set-IsFormed :
      (c : List ℕ) (n : ℕ)
      → n + length (chain_of s x) ≡ s.count + length c
      → Placed s.hash_size (x % s.hash_size) c
      → ((q : ℕ) → occurrences q c ≤ 1)
      → IsFormed (record s { count = n; buckets = set s.buckets (x % s.hash_size) c })
  set-IsFormed c n total at_home once =
      let i = x % s.hash_size in
      record {
        roomy = v.roomy;
        sized = length-set s.buckets i c ∙ v.sized;
        counted = omega (arith, length-concat-set s.buckets i c slot-inside, v.counted);
        placed = bucket-set_all s.buckets i c slot-inside (Placed s.hash_size) v.placed at_home;
        unique =
            bucket-set_all s.buckets i c slot-inside
              (λ _ (d : List ℕ). (q : ℕ) → occurrences q d ≤ 1) v.unique once;
      }

  pub contains-set :
      (b : Bool) (c : List ℕ) (n : ℕ)
      → ((q : ℕ) → mem q c ≡ (if x == q then b else mem q (chain_of s x)))
      → (q : ℕ)
      → contains (record s { count = n; buckets = set s.buckets (x % s.hash_size) c }) q
        ≡ (if x == q then b else contains s q)
  unfolding contains
  contains-set b c n h q =
      ground (arith, h q, bucket-set s.buckets (x % s.hash_size) c slot-inside (q % s.hash_size))

  -- the effect of the part of `gchs_add` below its resizing
  pub record NodeAdded (t : HashSet) : Type 0 where
    pub formed : IsFormed t
    pub wide : t.hash_size ≡ s.hash_size
    pub grown : t.count ≤ s.count + 1
    pub reads : (q : ℕ) → contains t q ≡ (if x == q then true else contains s q)

  appended-mem :
      (q : ℕ) → mem q (chain_of s x ++ x ∷ []) ≡ (if x == q then true else mem q (chain_of s x))
  unfolding mem
  appended-mem q = ground (arith, mem-append q (chain_of s x) (x ∷ []))

  appended-once :
      mem x (chain_of s x) ≡ false → (q : ℕ) → occurrences q (chain_of s x ++ x ∷ []) ≤ 1
  unfolding occurrences
  appended-once new q = ground (
    arith,
    occurrences-append q (chain_of s x) (x ∷ []),
    v.unique (x % s.hash_size) q,
    occurrences_of_mem q (chain_of s x),
  )

  present :
      mem x (chain_of s x) ≡ true → (q : ℕ) → contains s q ≡ (if x == q then true else contains s q)
  unfolding contains
  present e q = ground arith

  pub add_node-NodeAdded : NodeAdded (add_node s x)
  unfolding add_node
  add_node-NodeAdded = elim (Bool-cases (mem x (chain_of s x))) [
    | inl e ↦ rw e (record { formed = v; wide = refl; grown = omega arith; reads = present e })
    | inr e ↦ rw e (record {
      formed =
          set-IsFormed (chain_of s x ++ x ∷ []) (s.count + 1)
            (omega (arith, length-append (chain_of s x) (x ∷ [])))
            (Placed-append s.hash_size (x % s.hash_size) (chain_of s x) (x ∷ [])
              (v.placed (x % s.hash_size)) (refl, tt))
            (appended-once e);
      wide = refl;
      grown = omega arith;
      reads = contains-set true (chain_of s x ++ x ∷ []) (s.count + 1) appended-mem;
    })
  ]

-- The effect of `gchs_add`.
pub record Added (s : HashSet) (x : ℕ) (t : HashSet) : Type 0 where
  pub valid : IsValid t
  pub reads : (q : ℕ) → contains t q ≡ (if x == q then true else contains s q)

not_crowded : (s : HashSet) → 3 * s.count ≤ 2 * s.hash_size → crowded s ≡ false
not_crowded s h = ground arith

-- without too many nodes the call makes no other
add-plain :
    (f : ℕ) (s : HashSet) (x : ℕ) → crowded s ≡ false → add (suc f) s x ≡ some (add_node s x)
unfolding add
add-plain f s x e = rw e

-- A run of calls that never resizes.
record Filled (s : HashSet) (xs : List ℕ) (t : HashSet) : Type 0 where
  formed : IsFormed t
  wide : t.hash_size ≡ s.hash_size
  grown : t.count ≤ s.count + length xs
  reads : (q : ℕ) → contains t q ≡ (if mem q xs then true else contains s q)

add_each-Filled :
    (f : ℕ) (xs : List ℕ) (s : HashSet)
    → IsFormed s
    → 3 * (s.count + length xs) ≤ 2 * s.hash_size + 3
    → (t : HashSet) × (add_each (add (suc f)) s xs ≡ some t) × Filled s xs t
unfolding add_each mem
add_each-Filled f [] s v h =
    (s, refl, record { formed = v; wide = refl; grown = omega arith; reads = λ q. refl })
add_each-Filled f (x ∷ xs) s v h =
    let one = add_node-NodeAdded v x in
    let (t, run, all) =
      add_each-Filled f xs (add_node s x) one.formed (omega (arith, one.grown, one.wide)) in
    (
      t,
      rw (add-plain f s x (not_crowded s (omega arith)), add_each) run,
      record {
        formed = all.formed;
        wide = all.wide ∙ one.wide;
        grown = omega (arith, all.grown, one.grown);
        reads = λ q. ground (arith, all.reads q, one.reads q);
      },
    )

module _ (f : ℕ) {s : HashSet} (x : ℕ) (v : IsValid s) where
  all_listed : (take s.count (to_list s) ≡ to_list s) × (length (to_list s) ≡ s.count)
  unfolding to_list
  all_listed = (take-to_list v.formed, sym v.formed.counted)

  -- the larger set with the old addresses
  refilled :
      (m : HashSet) × (add_each (add (suc f)) (create (s.hash_size * 3)) (take s.count (to_list s))
        ≡ some m)
      × Filled (create (s.hash_size * 3)) (to_list s) m
      × (m.count ≤ s.count)
      × (m.hash_size ≡ s.hash_size * 3)
  unfolding create
  refilled =
      let start = create (s.hash_size * 3) in
      let fresh = create-IsFormed (s.hash_size * 3) (omega (arith, v.formed.roomy)) in
      let (m, run, filled) =
        add_each-Filled f (to_list s) start fresh
          (omega (arith, v.load, v.formed.roomy, all_listed.1)) in
      (m, rw all_listed.0 run, filled, omega (arith, filled.grown, all_listed.1), filled.wide)

  add-crowded : crowded s ≡ true → (t : HashSet) × (add (suc (suc f)) s x ≡ some t) × Added s x t
  add-crowded e =
      let (m, run, filled, small, wide) = refilled in
      let one = add_node-NodeAdded filled.formed x in
      let room : 3 * m.count ≤ 2 * m.hash_size =
        omega (arith, v.load, v.formed.roomy, small, wide) in
      (
        add_node m x,
        unfold add in rw (e, run) (add-plain f m x (not_crowded m room)),
        record {
          valid = record { formed = one.formed; load = omega (arith, one.grown, one.wide, room) };
          reads = λ q. ground (
            arith,
            one.reads q,
            filled.reads q,
            (mem-to_list v.formed q).0,
            contains-create (s.hash_size * 3) q,
          );
        },
      )

  add-roomy : crowded s ≡ false → (t : HashSet) × (add (suc (suc f)) s x ≡ some t) × Added s x t
  add-roomy e =
      let one = add_node-NodeAdded v.formed x in
      (
        add_node s x,
        add-plain (suc f) s x e,
        record {
          valid = record {
            formed = one.formed;
            load = omega (arith, one.grown, one.wide, ltb→le (2 * s.hash_size) (3 * s.count) e);
          };
          reads = one.reads;
        },
      )

  -- `gchs_add` on a well-formed set returns when its calls nest two deep, resizing included: the set
  -- is well formed again and contains the address and what it contained before.
  pub add_lem : (t : HashSet) × (add (suc (suc f)) s x ≡ some t) × Added s x t
  add_lem = elim (Bool-cases (crowded s)) [ inl e ↦ add-crowded e | inr e ↦ add-roomy e ]
