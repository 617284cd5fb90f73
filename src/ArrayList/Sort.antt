-- ===== src/ArrayList/Sort.antt =====
-- arr_sort of src/interpreter/arraylist.c: its loops end, and it permutes the items.
use lanky.Prelude.{
  ℕ, zero, suc, ◌+◌, ◌-◌, ◌*◌, ◌/◌, ◌<◌, ◌≤◌, ◌≡◌, ◌∙◌, refl, false, Option, some, List, [], ◌∷◌,
  ltb, ◌==◌, inl, inr, length, get_or, set, length-set, get_or-set, occurrences, occurrences-set,
  Bool-cases, arith,
}
use lanky.ArrayList.{
  SortResult, swap_items, choose, siftdown, heapify_from, heapify, extract, heapsort,
}

-- the same items, each as often, and the slots from `n` on as they were
pub record Permuted (n : ℕ) (a b : List ℕ) : Type 0 where
  pub long : length b ≡ length a
  pub often : (q : ℕ) → occurrences q b ≡ occurrences q a
  pub behind : (j : ℕ) → n ≤ j → get_or b j 0 ≡ get_or a j 0

Permuted-refl : (n : ℕ) (a : List ℕ) → Permuted n a a
Permuted-refl n a = record { long = refl; often = λ q. refl; behind = λ j h. refl }

Permuted-trans : {n : ℕ} {a b c : List ℕ} → Permuted n a b → Permuted n b c → Permuted n a c
Permuted-trans p r = record {
  long = r.long ∙ p.long;
  often = λ q. r.often q ∙ p.often q;
  behind = λ j h. r.behind j h ∙ p.behind j h;
}

swap_items-Permuted :
    (n : ℕ) (arr : List ℕ) (i j : ℕ)
    → i < n
    → j < n
    → n ≤ length arr
    → Permuted n arr (swap_items arr i j)
unfolding swap_items
swap_items-Permuted n arr i j hi hj h =
    let a = get_or arr i 0 in
    let b = get_or arr j 0 in
    record {
      long = omega (arith, length-set (set arr i b) j a, length-set arr i b);
      often = λ q. ground (
        arith,
        length-set arr i b,
        occurrences-set q (set arr i b) j a,
        occurrences-set q arr i b,
        get_or-set arr i j b 0,
      );
      behind = λ k hk.
          ground
            (arith, length-set arr i b, get_or-set (set arr i b) j k a 0, get_or-set arr i k b 0);
    }

-- a result, and it is a permutation
abbrev pub Permutes : ℕ → Option (List ℕ) → List ℕ → Type 0
Permutes n r arr = (b : List ℕ) × (r ≡ some b) × Permuted n arr b

module _ (sf : ℕ → ℕ → SortResult) where
  choose_cases :
      (arr : List ℕ) (root end : ℕ)
      → root * 2 + 1 < end
      → (choose sf arr root end < end) × (root ≤ choose sf arr root end)
  unfolding choose
  choose_cases arr root end h = (ground arith, ground arith)

  siftdown-Permutes :
      (n fuel : ℕ) (arr : List ℕ) (root end : ℕ)
      → end ≤ root + fuel
      → end ≤ n
      → n ≤ length arr
      → Permutes n (siftdown sf (suc fuel) arr root end) arr
  unfolding siftdown
  siftdown-Permutes n zero arr root end enough within inside =
      let e : ltb (root * 2 + 1) end ≡ false = ground arith in rw e (arr, refl, Permuted-refl n arr)
  siftdown-Permutes n (suc fuel) arr root end enough within inside =
      elim (Bool-cases (ltb (root * 2 + 1) end)) [
        | inr e ↦ rw e (arr, refl, Permuted-refl n arr)
        | inl e ↦
            let s = choose sf arr root end in
            let (below, above) = choose_cases arr root end (ground arith) in
            elim (Bool-cases (s == root)) [
              | inl e' ↦ rw (e, e') (arr, refl, Permuted-refl n arr)
              | inr e' ↦
                  let swapped =
                    swap_items-Permuted n arr root s (omega (arith, below, above))
                      (omega (arith, below)) inside in
                  let (b, run, p) =
                    siftdown-Permutes n fuel (swap_items arr root s) s end
                      (ground (arith, below, above)) within (omega (arith, swapped.long)) in
                  rw (e, e') (b, run, Permuted-trans swapped p)
            ]
      ]

  heapify_from-Permutes :
      (start : ℕ) (arr : List ℕ) (n : ℕ)
      → n ≤ length arr
      → Permutes n (heapify_from sf start arr n) arr
  unfolding heapify_from
  heapify_from-Permutes zero arr n h = (arr, refl, Permuted-refl n arr)
  heapify_from-Permutes (suc start) arr n h =
      let (b, run, p) = siftdown-Permutes n n arr start n (omega arith) (omega arith) h in
      let (c, run', p') = heapify_from-Permutes start b n (omega (arith, p.long)) in
      rw (run, heapify_from) (c, run', Permuted-trans p p')

  extract-Permutes :
      (n end : ℕ) (arr : List ℕ) → end ≤ n → n ≤ length arr → Permutes n (extract sf end arr) arr
  unfolding extract
  extract-Permutes n zero arr within h = (arr, refl, Permuted-refl n arr)
  extract-Permutes n (suc end) arr within h =
      let swapped = swap_items-Permuted n arr 0 end (omega arith) (omega arith) h in
      let (b, run, p) =
        siftdown-Permutes n end (swap_items arr 0 end) 0 end (omega arith) (omega arith)
          (omega (arith, swapped.long)) in
      let (c, run', p') =
        extract-Permutes n end b (omega arith) (omega (arith, p.long, swapped.long)) in
      rw (run, extract) (c, run', Permuted-trans swapped (Permuted-trans p p'))

  -- `arr_heapsort` of at most as many items as the array has slots ends, whatever the comparison answers,
  -- and leaves the same items in the array, each as often as before, and the slots behind them as they were.
  pub heapsort-Permutes :
      (arr : List ℕ) (n : ℕ) → n ≤ length arr → Permutes n (heapsort sf arr n) arr
  unfolding heapsort heapify
  heapsort-Permutes arr n h =
      let (b, run, p) = heapify_from-Permutes ((n - 2) / 2) arr n h in
      let (c, run', p') = extract-Permutes n n b (omega arith) (omega (arith, p.long)) in
      rw (run, heapsort) (c, run', Permuted-trans p p')

  -- `arr_heapsort` of two items exchanges them, whatever the comparison answers: `arr_heapify` leaves out
  -- the last parent.
  pub heapsort_two : (a b : ℕ) → heapsort sf (a ∷ b ∷ []) 2 ≡ some (b ∷ a ∷ [])
  unfolding heapsort heapify heapify_from extract siftdown swap_items
  heapsort_two a b = refl
