-- ===== src/Operators/Binary.antt =====
-- src/interpreter/mach_binary_ops.c and mach_unary_ops.c: each operator, and which instruction runs it.
use Prim.Native.String.{String}
use Prim.Native.Nat.{bit_and, bit_or, bit_xor}
use lanky.Prelude.{
  ℕ, Bool, true, false, not, ◌&&◌, ◌||◌, Option, none, some, ◌==◌, if◌then◌else◌, ◌>>=◌,
}
use lanky.Bytecode.{Op}
use lanky.Operators.{
  Kind, Doubles, Values, Answer, build_int, alloc_integer, modulo_long, differ, shift_left,
  shift_right, is_float, is_integer, is_custom, is_bool, object, untagged_is, obj_is_number,
  obj_is_integer, unwrap, is_singleton, testc, promotes_to_float, check_exec_custom_impl, or_else,
  call_member, un_op_exec_custom,
}

module _ (dbl : Doubles) (v : Values) where
  -- The operators that give a number: `of_floats` and `of_integers` are the two arms of the switch.
  unfoldable pub arithmetic : String → (ℕ → ℕ → ℕ) → (ℕ → ℕ → Option ℕ) → ℕ → ℕ → Option Answer
  unfolding check_exec_custom_impl or_else promotes_to_float unwrap alloc_integer
  arithmetic name of_floats of_integers a b =
      or_else dbl v (check_exec_custom_impl dbl v name a b) (
        if is_singleton dbl v a || is_singleton dbl v b
        then some (Answer.at v.lky_nil)
        else promotes_to_float dbl v a b >>= λ float. unwrap dbl v a >>= λ x.
            unwrap dbl v b >>= λ y.
            if float
            then some (Answer.new Kind.float (of_floats x y))
            else of_integers x y >>= λ i. some (alloc_integer v.lobjb_uses_pointer_tags_ i))

  abbrev pub truncated : (ℕ → ℕ → ℕ) → ℕ → ℕ → Option ℕ
  truncated f x y = some (dbl.to_long (f x y))

  unfoldable pub binary_add : ℕ → ℕ → Option Answer
  unfolding arithmetic
  binary_add = arithmetic "op_add_" dbl.plus (truncated dbl.plus)

  unfoldable pub binary_subtract : ℕ → ℕ → Option Answer
  unfolding arithmetic
  binary_subtract = arithmetic "op_subtract_" dbl.minus (truncated dbl.minus)

  unfoldable pub binary_multiply : ℕ → ℕ → Option Answer
  unfolding arithmetic
  binary_multiply = arithmetic "op_multiply_" dbl.times (truncated dbl.times)

  unfoldable pub binary_divide : ℕ → ℕ → Option Answer
  unfolding arithmetic
  binary_divide = arithmetic "op_divide_" dbl.over (truncated dbl.over)

  unfoldable pub binary_modulo : ℕ → ℕ → Option Answer
  unfolding arithmetic modulo_long
  binary_modulo =
      arithmetic "op_modulo_" dbl.remainder (λ x y. modulo_long (dbl.to_long x) (dbl.to_long y))

  unfoldable pub binary_power : ℕ → ℕ → Option Answer
  unfolding arithmetic
  binary_power = arithmetic "op_power_" dbl.pow (truncated dbl.pow)

  -- the operators that order two numbers
  unfoldable pub comparison : String → (ℕ → ℕ → Bool) → ℕ → ℕ → Option Answer
  unfolding check_exec_custom_impl or_else unwrap
  comparison name holds a b = or_else dbl v (check_exec_custom_impl dbl v name a b) (
      if is_singleton dbl v a || is_singleton dbl v b
      then some (Answer.at v.lky_nil)
      else unwrap dbl v a >>= λ x. unwrap dbl v b >>= λ y. some (testc dbl v (holds x y)))

  unfoldable pub binary_lessthan : ℕ → ℕ → Option Answer
  unfolding comparison
  binary_lessthan = comparison "op_lt_" dbl.less

  unfoldable pub binary_greaterthan : ℕ → ℕ → Option Answer
  unfolding comparison
  binary_greaterthan = comparison "op_gt_" (λ x y. dbl.less y x)

  unfoldable pub binary_lessequal : ℕ → ℕ → Option Answer
  unfolding comparison
  binary_lessequal = comparison "op_lte_" dbl.less_equal

  unfoldable pub binary_greatequal : ℕ → ℕ → Option Answer
  unfolding comparison
  binary_greatequal = comparison "op_gte_" (λ x y. dbl.less_equal y x)

  -- `LKY_CTEST_FAST`
  unfoldable pub ctest : ℕ → Option Bool
  unfolding obj_is_number unwrap untagged_is
  ctest a =
      if (a == 0) || (a == v.lky_nil)
      then some false
      else obj_is_number dbl v a >>= λ number.
          if number
          then (unwrap dbl v a >>= λ x. some (not (dbl.is_zero x)))
          else untagged_is dbl v is_bool a >>= λ bool. some (if bool then a == v.lky_yes else true)

  -- `lobjb_binary_equals` and `lobjb_binary_notequal`: whether two values are equal has to be `wanted`
  unfoldable pub equality : String → Bool → ℕ → ℕ → Option Answer
  unfolding check_exec_custom_impl or_else unwrap ctest obj_is_number untagged_is
  equality name wanted a b = or_else dbl v (check_exec_custom_impl dbl v name a b) (
      if (a == v.lky_nil) || (b == v.lky_nil)
      then some (Answer.at v.lky_nil)
      else obj_is_number dbl v a >>= λ left. obj_is_number dbl v b >>= λ right.
          if left && right
          then (unwrap dbl v a >>= λ x.
              unwrap dbl v b >>= λ y. some (testc dbl v (not (differ (dbl.equal x y) wanted))))
          else if left || right
          then some (Answer.at v.lky_nil)
          else untagged_is dbl v is_bool a >>= λ first. untagged_is dbl v is_bool b >>= λ second.
              if first || second
              then (ctest a >>= λ x.
                  ctest b >>= λ y. some (testc dbl v (not (differ (not (differ x y)) wanted))))
              else some (Answer.at v.lky_nil))

  unfoldable pub binary_equals : ℕ → ℕ → Option Answer
  unfolding equality
  binary_equals = equality "op_equals_" true

  unfoldable pub binary_notequal : ℕ → ℕ → Option Answer
  unfolding equality
  binary_notequal = equality "op_notequal_" false

  -- `vala` and `valb`: the type is read without a look at the tag
  unfoldable pub as_truth : ℕ → Option Bool
  unfolding unwrap
  as_truth a = object dbl v a >>= λ o.
      if is_integer o.type || is_float o.type
      then (unwrap dbl v a >>= λ x. some (not (dbl.to_int x == 0)))
      else some true

  unfoldable pub connective : String → (Bool → Bool → Bool) → ℕ → ℕ → Option Answer
  unfolding check_exec_custom_impl or_else as_truth build_int
  connective name f a b = or_else dbl v (check_exec_custom_impl dbl v name a b) (
      if is_singleton dbl v a || is_singleton dbl v b
      then some (build_int v.lobjb_uses_pointer_tags_ 0)
      else as_truth a >>= λ x.
          as_truth b >>= λ y. some (build_int v.lobjb_uses_pointer_tags_ (if f x y then 1 else 0)))

  unfoldable pub binary_and : ℕ → ℕ → Option Answer
  unfolding connective
  binary_and = connective "op_and_" (λ x y. x && y)

  unfoldable pub binary_or : ℕ → ℕ → Option Answer
  unfolding connective
  binary_or = connective "op_or_" (λ x y. x || y)

  -- the operators on the bits of two integers
  unfoldable pub on_bits : String → (ℕ → ℕ → Option ℕ) → ℕ → ℕ → Option Answer
  unfolding check_exec_custom_impl or_else obj_is_integer unwrap build_int
  on_bits name f a b = or_else dbl v (check_exec_custom_impl dbl v name a b) (
      obj_is_integer dbl v a >>= λ left.
      if left
      then (obj_is_integer dbl v b >>= λ right.
          if right
          then (unwrap dbl v a >>= λ x. unwrap dbl v b >>= λ y.
              f (dbl.to_long x) (dbl.to_long y) >>= λ i.
              some (build_int v.lobjb_uses_pointer_tags_ i))
          else some (Answer.at v.lky_nil))
      else some (Answer.at v.lky_nil))

  unfoldable pub binary_band : ℕ → ℕ → Option Answer
  unfolding on_bits
  binary_band = on_bits "op_bit_and_" (λ x y. some (bit_and x y))

  unfoldable pub binary_bor : ℕ → ℕ → Option Answer
  unfolding on_bits
  binary_bor = on_bits "op_bit_or_" (λ x y. some (bit_or x y))

  unfoldable pub binary_bxor : ℕ → ℕ → Option Answer
  unfolding on_bits
  binary_bxor = on_bits "op_bit_xor_" (λ x y. some (bit_xor x y))

  unfoldable pub binary_blshift : ℕ → ℕ → Option Answer
  unfolding on_bits shift_left
  binary_blshift = on_bits "op_bit_l_shift_" shift_left

  unfoldable pub binary_brshift : ℕ → ℕ → Option Answer
  unfolding on_bits shift_right
  binary_brshift = on_bits "op_bit_r_shift_" shift_right

  unfoldable pub binary_nc : ℕ → ℕ → Option Answer
  binary_nc a b = some (Answer.at (if a == v.lky_nil then b else a))

  -- `CHECK_EXEC_CUSTOM_IMPL` of mach_unary_ops.c
  unfoldable pub unary_not : ℕ → Option Answer
  unfolding call_member or_else untagged_is unwrap obj_is_number
  unary_not a =
      or_else dbl v
        (untagged_is dbl v is_custom a >>= λ own.
          if own
          then call_member dbl v (un_op_exec_custom dbl v) (λ argc. (argc == 0) || (argc == 2))
              (v.get_member a "op_not_")
          else some none)
        (obj_is_number dbl v a >>= λ number.
          if number
          then (unwrap dbl v a >>= λ x. some (testc dbl v (dbl.is_zero x)))
          else untagged_is dbl v is_bool a >>= λ bool.
              some (testc dbl v (if bool then not (a == v.lky_yes) else a == v.lky_nil)))

  -- `lobjb_unary_negative`
  unfoldable pub unary_negative : ℕ → Option Answer
  unfolding obj_is_number untagged_is unwrap build_int
  unary_negative a = obj_is_number dbl v a >>= λ number.
      if number
      then (untagged_is dbl v is_float a >>= λ float. unwrap dbl v a >>= λ x. some (
          if float
          then Answer.new Kind.float (dbl.negated x)
          else build_int v.lobjb_uses_pointer_tags_ (dbl.to_long (dbl.negated x))))
      else some (Answer.at v.lky_nil)

  -- what the instruction of mach_eval calls
  unfoldable pub binary : Op → ℕ → ℕ → Option Answer
  unfolding binary_add binary_subtract binary_multiply binary_divide binary_modulo binary_power
      binary_lessthan binary_greaterthan binary_equals binary_lessequal binary_greatequal
      binary_notequal binary_and binary_or binary_nc binary_band binary_bor binary_bxor
      binary_blshift binary_brshift
  binary Op.binary_add = binary_add
  binary Op.binary_subtract = binary_subtract
  binary Op.binary_multiply = binary_multiply
  binary Op.binary_divide = binary_divide
  binary Op.binary_modulo = binary_modulo
  binary Op.binary_power = binary_power
  binary Op.binary_lt = binary_lessthan
  binary Op.binary_gt = binary_greaterthan
  binary Op.binary_equal = binary_equals
  binary Op.binary_lte = binary_lessequal
  binary Op.binary_gte = binary_greatequal
  binary Op.binary_ne = binary_notequal
  binary Op.binary_and = binary_and
  binary Op.binary_or = binary_or
  binary Op.binary_nc = binary_nc
  binary Op.binary_band = binary_band
  binary Op.binary_bor = binary_bor
  binary Op.binary_bxor = binary_bxor
  binary Op.binary_blshift = binary_blshift
  binary Op.binary_brshift = binary_brshift
  binary op = λ a b. none
