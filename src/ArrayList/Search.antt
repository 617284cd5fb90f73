-- ===== src/ArrayList/Search.antt =====
-- arr_index_of and arr_remove of src/interpreter/arraylist.c.
use lanky.Prelude.{
  ℕ, zero, suc, ◌+◌, ◌-◌, ◌<◌, ◌≤◌, ◌≡◌, ◌≢◌, ◌↔◌, Option, none, some, List, [], ◌∷◌, ltb, ◌==◌,
  inl, inr, length, get_or, Option-cases, Bool-cases, arith,
}
use lanky.ArrayList.{ArrayList, get, index_from, index_of, remove}
use lanky.ArrayList.Edit.{IsValid}

-- what the answer of a search through the items up to `count` says, where the first item has index `i`
abbrev pub Answer : List ℕ → ℕ → ℕ → ℕ → Option ℕ → Type 0
Answer items i count obj none = (j : ℕ) → j < length items → i + j < count → get_or items j 0 ≢ obj
Answer items i count obj (some k) =
    (i ≤ k)
    × (k < count)
    × (k - i < length items)
    × (get_or items (k - i) 0 ≡ obj)
    × ((j : ℕ) → i + j < k → get_or items j 0 ≢ obj)

Answer-later :
    (x : ℕ) (xs : List ℕ) (i count obj : ℕ) (o : Option ℕ)
    → x ≢ obj
    → Answer xs (suc i) count obj o
    → Answer (x ∷ xs) i count obj o
Answer-later x xs i count obj none ne h = go
  where
    go : (j : ℕ) → j < suc (length xs) → i + j < count → get_or (x ∷ xs) j 0 ≢ obj
    go zero l b = ne
    go (suc j) l b = h j (omega arith) (omega arith)
Answer-later x xs i count obj (some k) ne (low, high, inside, hit, first) =
    let step : k - i ≡ suc (k - suc i) = omega (arith, low) in
    (omega (arith, low), high, omega (arith, inside, step), rw step hit, go)
  where
    go : (j : ℕ) → i + j < k → get_or (x ∷ xs) j 0 ≢ obj
    go zero b = ne
    go (suc j) b = first j (omega arith)

index_from-Answer :
    (items : List ℕ) (i count obj : ℕ) → Answer items i count obj (index_from items i count obj)
unfolding index_from
index_from-Answer [] i count obj = λ j h. absurd (omega arith)
index_from-Answer (x ∷ xs) i count obj = elim (Bool-cases (ltb i count)) [
  | inr e ↦ rw e (λ j h h'. ground arith)
  | inl e ↦ elim (Bool-cases (obj == x)) [
    | inl e' ↦
        let here : i - i ≡ 0 = omega arith in
        let same : x ≡ obj = ground arith in
        rw (e, e')
          (omega arith, ground arith, omega arith, rw here same, λ j h. absurd (omega arith))
    | inr e' ↦
        let other : x ≢ obj = ground arith in
        rw (e, e')
          (Answer-later x xs i count obj (index_from xs (suc i) count obj) other
            (index_from-Answer xs (suc i) count obj))
  ]
]

-- `arr_index_of` answers with the first index that holds the address, and with -1 exactly if none below
-- `count` does.
pub index_of_lem : (a : ArrayList) (obj : ℕ) → Answer a.items 0 a.count obj (index_of a obj)
unfolding index_of
index_of_lem a obj = index_from-Answer a.items 0 a.count obj

-- `arr_remove` of an item (not NULL) stays inside of the array exactly if the item is there; for any
-- other item it writes before the first slot.
pub remove-none :
    {a : ArrayList}
    → IsValid a
    → (item idx : ℕ) → item ≢ 0
    → (remove a item idx ≡ none) ↔ ((j : ℕ) → j < a.count → get a j ≢ item)
unfolding remove get
remove-none {a} v item idx ne = elim (Option-cases (index_of a item)) [
  | inl e ↦
      let absent = rw e at (index_of_lem a item) in
      rw e (
        (λ h j b. absent j (omega (arith, b, v.memory, v.bound)) (omega (arith, b))),
        (λ h. ground arith),
      )
  | inr (k, e) ↦
      let (low, high, inside, hit, first) = rw e at (index_of_lem a item) in
      let zero_off : k - 0 ≡ k = omega arith in
      rw e ((λ h. ground arith), (λ h. absurd (h k high (rw zero_off at hit))))
]
