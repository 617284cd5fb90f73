-- ===== src/Operators/Arithmetic.antt =====
-- The operators of src/interpreter/mach_binary_ops.c on integers.
use Prim.Native.String.{String}
use lanky.Prelude.{
  ℕ, ◌+◌, ◌-◌, ◌%◌, ◌^◌, ◌≤◌, ◌<◌, ◌≡◌, refl, ap, ◌∙◌, Bool, true, false, not, ◌&&◌, ◌||◌, Option,
  none, some, ◌==◌, ltb, ◌>>=◌, ◌⊎◌, inl, inr,
}
use lanky.Operators.{Doubles, Values, Answer, tagged, alloc_integer, or_else, testc, differ}
use lanky.Operators.Numbers.{
  Holds, alloc_integer-Holds, IsValues, Represents, unwrap_integer, obj_is_number_integer,
  is_singleton_integer, nil_integer, promotes_integers, check_exec_custom_impl_integers,
}
use lanky.Operators.Binary.{
  truncated, arithmetic, binary_add, binary_subtract, comparison, binary_lessthan,
  binary_greaterthan, binary_lessequal, binary_greatequal, equality, binary_equals, binary_notequal,
  as_truth, connective, binary_and, binary_or,
}

-- `<` on `long`
abbrev pub long_less : ℕ → ℕ → Bool
long_less m n = ltb ((m + 2 ^ 63) % 2 ^ 64) ((n + 2 ^ 63) % 2 ^ 64)

-- a `long` from minus 2 ^ 52 to 2 ^ 52
abbrev pub IsSmall : ℕ → Type 0
IsSmall n = (n ≤ 2 ^ 52) ⊎ ((2 ^ 64 - 2 ^ 52 ≤ n) × (n < 2 ^ 64))

-- A `double` has 53 bits of precision.
pub record IsExact (dbl : Doubles) : Type 0 where
  pub plus_exact :
      (m n : ℕ)
      → IsSmall m
      → IsSmall n
      → dbl.to_long (dbl.plus (dbl.of_long m) (dbl.of_long n)) ≡ (m + n) % 2 ^ 64
  pub minus_exact :
      (m n : ℕ)
      → IsSmall m
      → IsSmall n
      → dbl.to_long (dbl.minus (dbl.of_long m) (dbl.of_long n)) ≡ (m + (2 ^ 64 - n)) % 2 ^ 64
  pub less_exact :
      (m n : ℕ) → IsSmall m → IsSmall n → dbl.less (dbl.of_long m) (dbl.of_long n) ≡ long_less m n
  pub less_equal_exact :
      (m n : ℕ)
      → IsSmall m
      → IsSmall n
      → dbl.less_equal (dbl.of_long m) (dbl.of_long n) ≡ not (long_less n m)
  pub equal_exact :
      (m n : ℕ) → IsSmall m → IsSmall n → dbl.equal (dbl.of_long m) (dbl.of_long n) ≡ (m == n)

module _ (dbl : Doubles) (v : Values) (valid : IsValues v) where
  arithmetic_integers :
      {a b m n : ℕ} (name : String) (f : ℕ → ℕ → ℕ) (g : ℕ → ℕ → Option ℕ) (i : ℕ)
      → Represents v a m
      → Represents v b n
      → g (dbl.of_long m) (dbl.of_long n) ≡ some i
      → arithmetic dbl v name f g a b ≡ some (alloc_integer v.lobjb_uses_pointer_tags_ i)
  unfolding arithmetic or_else
  arithmetic_integers name f g i r s e =
      rw
        (
          arithmetic,
          check_exec_custom_impl_integers dbl v valid name r s,
          is_singleton_integer dbl v valid r,
          is_singleton_integer dbl v valid s,
          promotes_integers dbl v valid r s,
          unwrap_integer dbl v valid r,
          unwrap_integer dbl v valid s,
          e,
        )
        refl

  comparison_integers :
      {a b m n : ℕ} (name : String) (f : ℕ → ℕ → Bool)
      → Represents v a m
      → Represents v b n
      → comparison dbl v name f a b ≡ some (testc dbl v (f (dbl.of_long m) (dbl.of_long n)))
  unfolding comparison or_else
  comparison_integers name f r s =
      rw
        (
          comparison,
          check_exec_custom_impl_integers dbl v valid name r s,
          is_singleton_integer dbl v valid r,
          is_singleton_integer dbl v valid s,
          unwrap_integer dbl v valid r,
          unwrap_integer dbl v valid s,
        )
        refl

  equality_integers :
      {a b m n : ℕ} (name : String) (wanted : Bool)
      → Represents v a m
      → Represents v b n
      → equality dbl v name wanted a b
        ≡ some (testc dbl v (not (differ (dbl.equal (dbl.of_long m) (dbl.of_long n)) wanted)))
  unfolding equality or_else
  equality_integers name wanted r s =
      rw
        (
          equality,
          check_exec_custom_impl_integers dbl v valid name r s,
          nil_integer dbl v valid r,
          nil_integer dbl v valid s,
          obj_is_number_integer dbl v valid r,
          obj_is_number_integer dbl v valid s,
          unwrap_integer dbl v valid r,
          unwrap_integer dbl v valid s,
        )
        refl

-- The sum and the difference of two integers that are at most 2 ^ 52 away from 0, tagged or not, are the
-- integers that they are on 64 bits, tagged or not, although they are computed as `double`.
pub add_and_subtract_lem :
    (dbl : Doubles) (v : Values) (a b m n : ℕ)
    → IsExact dbl
    → IsValues v
    → Represents v a m
    → Represents v b n
    → IsSmall m
    → IsSmall n
    → ((sum : Answer) × (binary_add dbl v a b ≡ some sum) × Holds sum ((m + n) % 2 ^ 64))
      × ((difference : Answer) × (binary_subtract dbl v a b ≡ some difference)
          × Holds difference ((m + (2 ^ 64 - n)) % 2 ^ 64))
unfolding binary_add binary_subtract
add_and_subtract_lem dbl v a b m n exact valid r s small small' =
    let sum = (m + n) % 2 ^ 64 in
    let difference = (m + (2 ^ 64 - n)) % 2 ^ 64 in
    (
      (
        alloc_integer v.lobjb_uses_pointer_tags_ sum,
        arithmetic_integers dbl v valid "op_add_" dbl.plus (truncated dbl v dbl.plus) sum r s
            (ap some (exact.plus_exact m n small small')),
        alloc_integer-Holds v.lobjb_uses_pointer_tags_ sum,
      ),
      (
        alloc_integer v.lobjb_uses_pointer_tags_ difference,
        arithmetic_integers dbl v valid "op_subtract_" dbl.minus (truncated dbl v dbl.minus)
            difference r s (ap some (exact.minus_exact m n small small')),
        alloc_integer-Holds v.lobjb_uses_pointer_tags_ difference,
      ),
    )

-- On integers that are at most 2 ^ 52 away from 0, tagged or not, each of the six comparisons gives yes or
-- no as the comparison of the two as signed numbers on 64 bits does.
pub comparisons_lem :
    (dbl : Doubles) (v : Values) (a b m n : ℕ)
    → IsExact dbl
    → IsValues v
    → Represents v a m
    → Represents v b n
    → IsSmall m
    → IsSmall n
    → (binary_lessthan dbl v a b ≡ some (testc dbl v (long_less m n)))
      × (binary_greaterthan dbl v a b ≡ some (testc dbl v (long_less n m)))
      × (binary_lessequal dbl v a b ≡ some (testc dbl v (not (long_less n m))))
      × (binary_greatequal dbl v a b ≡ some (testc dbl v (not (long_less m n))))
      × (binary_equals dbl v a b ≡ some (testc dbl v (m == n)))
      × (binary_notequal dbl v a b ≡ some (testc dbl v (not (m == n))))
unfolding binary_lessthan binary_greaterthan binary_lessequal binary_greatequal binary_equals
    binary_notequal
comparisons_lem dbl v a b m n exact valid r s small small' = (
  comparison_integers dbl v valid "op_lt_" dbl.less r s
      ∙ rw (exact.less_exact m n small small') refl,
  comparison_integers dbl v valid "op_gt_" _ r s ∙ rw (exact.less_exact n m small' small) refl,
  comparison_integers dbl v valid "op_lte_" dbl.less_equal r s
      ∙ rw (exact.less_equal_exact m n small small') refl,
  comparison_integers dbl v valid "op_gte_" _ r s
      ∙ rw (exact.less_equal_exact n m small' small) refl,
  equality_integers dbl v valid "op_equals_" true r s
      ∙ rw (exact.equal_exact m n small small') (same (m == n)),
  equality_integers dbl v valid "op_notequal_" false r s
      ∙ rw (exact.equal_exact m n small small') (other (m == n)),
)
  where
    same : (x : Bool) → some (testc dbl v (not (differ x true))) ≡ some (testc dbl v x)
    same true = refl
    same false = refl

    other : (x : Bool) → some (testc dbl v (not (differ x false))) ≡ some (testc dbl v (not x))
    other true = refl
    other false = refl

-- The operators behind `&=` and `|=` read through the address of an integer that has a tag: with one on
-- either side, and integers on both, they leave the memory.
pub connectives_outside :
    (dbl : Doubles) (v : Values) (a b m n : ℕ)
    → IsValues v
    → Represents v a m
    → Represents v b n
    → (tagged a ≡ true) ⊎ (tagged b ≡ true)
    → (binary_and dbl v a b ≡ none) × (binary_or dbl v a b ≡ none)
unfolding binary_and binary_or connective or_else as_truth
connectives_outside dbl v a b m n valid r s tags =
    (outside "op_and_" (λ x y. x && y) tags, outside "op_or_" (λ x y. x || y) tags)
  where
    fails : (c : ℕ) → tagged c ≡ true → as_truth dbl v c ≡ none
    fails c t = rw (as_truth, t) refl

    no_rest : {A B : Type 0} (o : Option A) → ◌>>=◌ {B = B} o (λ x. none) ≡ none
    no_rest none = refl
    no_rest (some x) = refl

    outside :
        (name : String) (f : Bool → Bool → Bool)
        → (tagged a ≡ true) ⊎ (tagged b ≡ true)
        → connective dbl v name f a b ≡ none
    outside name f (inl t) =
        rw
          (
            connective,
            check_exec_custom_impl_integers dbl v valid name r s,
            is_singleton_integer dbl v valid r,
            is_singleton_integer dbl v valid s,
            fails a t,
          )
          refl
    outside name f (inr t) =
        rw
          (
            connective,
            check_exec_custom_impl_integers dbl v valid name r s,
            is_singleton_integer dbl v valid r,
            is_singleton_integer dbl v valid s,
            fails b t,
          )
          (no_rest (as_truth dbl v a))
