-- ===== src/Regex/Marks.antt =====
-- The marks of the states in src/stdlib/regex.c: how many states are left to visit.
use lanky.Prelude.{
  ℕ, zero, suc, ◌+◌, ◌≤◌, ◌<◌, ◌≡◌, refl, Bool, true, false, ◌==◌, if◌then◌else◌, inl, inr,
  Bool-cases, ==_refl, arith,
}
use lanky.Regex.{Store}
use lanky.Regex.Slots.{slot, needed, Inside}

-- every address that a run reads is the one of a state
pub record IsSafe (store : Store) : Type 0 where
  pub leads :
      (s : ℕ) (a : Bool)
      → Inside store.state_count s
      → needed (store.states s).c a ≡ true
      → Inside store.state_count (slot (store.states s) a)

module _ (gen : ℕ) where
  -- how many of the first states are not marked
  unfoldable pub unmarked : (ℕ → ℕ) → ℕ → ℕ
  unmarked listit zero = 0
  unmarked listit (suc n) = (if listit (suc n) == gen then 0 else 1) + unmarked listit n

  pub unmarked-le :
      (a b : ℕ → ℕ)
      → ((x : ℕ) → (a x == gen) ≡ true → (b x == gen) ≡ true)
      → (n : ℕ) → unmarked b n ≤ unmarked a n
  unfolding unmarked
  unmarked-le a b h zero = omega arith
  unmarked-le a b h (suc n) = ground (arith, h (suc n), unmarked-le a b h n)

  abbrev marking : (ℕ → ℕ) → ℕ → ℕ → ℕ
  marking listit s j = if j == s then gen else listit j

  unmarked_beyond :
      (listit : ℕ → ℕ) (s n : ℕ) → n < s → unmarked (marking listit s) n ≡ unmarked listit n
  unfolding unmarked
  unmarked_beyond listit s zero h = refl
  unmarked_beyond listit s (suc n) h =
      let e : (suc n == s) ≡ false = ground (arith, h) in
      rw (e, unmarked_beyond listit s n (omega (arith, h))) refl

  pub unmarked_mark :
      (listit : ℕ → ℕ) (s n : ℕ)
      → Inside n s
      → (listit s == gen) ≡ false
      → suc (unmarked (marking listit s) n) ≡ unmarked listit n
  unfolding unmarked
  unmarked_mark listit s zero h f = absurd (omega (arith, h))
  unmarked_mark listit s (suc n) h f = elim (Bool-cases (suc n == s)) [
    | inl e ↦
        let same : s ≡ suc n = ground (arith, e) in
        let f' : (listit (suc n) == gen) ≡ false = rw same at f in
        rw (e, f', ==_refl gen, unmarked_beyond listit s n (omega (arith, same))) (omega arith)
    | inr e ↦
        let ih = unmarked_mark listit s n (h.0, ground (arith, h, e)) f in rw e (omega (arith, ih))
  ]
