-- ===== src/Serialize/Doubles.antt =====
-- OBJ_NUM_UNWRAP of src/interpreter/lkyobj_builtin.h: which integers pass through a `double` unchanged.
use lanky.Prelude.{
  ℕ, ◌-◌, ◌^◌, ◌≤◌, ◌<◌, ◌≡◌, ◌⊎◌, inl, inr, refl, arith, true, false, ltb, ltb→le, Bool-cases,
}
use lanky.Serialize.{excess_bits, to_double, num_unwrap}

ltb_below : (a b : ℕ) → a < b → ltb a b ≡ true
ltb_below a b h = ground arith

ltb_above : (a b : ℕ) → b ≤ a → ltb a b ≡ false
ltb_above a b h = ground arith

to_double-edge : to_double (2 ^ 53) ≡ 2 ^ 53
unfolding to_double excess_bits
to_double-edge = refl

to_double_exact : (m : ℕ) → m ≤ 2 ^ 53 → to_double m ≡ m
unfolding to_double excess_bits
to_double_exact m h = elim (Bool-cases (ltb m (2 ^ 53))) [
  | inl e ↦ rw e refl
  | inr e ↦ let edge : m ≡ 2 ^ 53 = omega (arith, ltb→le m (2 ^ 53) e) in rw edge to_double-edge
]

-- A `long` from minus 2 ^ 53 to 2 ^ 53 is unchanged.
pub num_unwrap_exact :
    (n : ℕ) → n < 2 ^ 64 → (n ≤ 2 ^ 53) ⊎ (2 ^ 64 - 2 ^ 53 ≤ n) → num_unwrap n ≡ n
unfolding num_unwrap
num_unwrap_exact n fits (inl h) = rw (ltb_below n (2 ^ 63) (omega arith)) (to_double_exact n h)
num_unwrap_exact n fits (inr h) =
    rw (ltb_above n (2 ^ 63) (omega arith), to_double_exact (2 ^ 64 - n) (omega arith))
      (omega arith)
