-- ===== src/Operators/Custom.antt =====
-- CHECK_EXEC_CUSTOM_IMPL of src/interpreter/mach_binary_ops.c: the operators that objects of the language bring.
use Prim.Native.String.{String}
use lanky.Prelude.{ℕ, ◌≡◌, Bool, true, false, ◌||◌, some, ◌==◌, ◌⊎◌, not}
use lanky.Bytecode.{Op}
use lanky.Operators.{Kind, Object, Values, tagged, is_custom}
use lanky.Operators.Binary.{
  binary_add, binary_subtract, binary_multiply, binary_divide, binary_modulo, binary_power,
  binary_and, binary_or, binary_band, binary_bor, binary_bxor, binary_blshift, binary_brshift,
}

-- the member that the operator of an instruction is looked up as
pub data Looks : Op → String → Type 0 where
  for_add : Looks Op.binary_add "op_add_"
  for_subtract : Looks Op.binary_subtract "op_subtract_"
  for_multiply : Looks Op.binary_multiply "op_multiply_"
  for_divide : Looks Op.binary_divide "op_divide_"
  for_modulo : Looks Op.binary_modulo "op_modulo_"
  for_power : Looks Op.binary_power "op_power_"
  for_lt : Looks Op.binary_lt "op_lt_"
  for_gt : Looks Op.binary_gt "op_gt_"
  for_equal : Looks Op.binary_equal "op_equals_"
  for_lte : Looks Op.binary_lte "op_lte_"
  for_gte : Looks Op.binary_gte "op_gte_"
  for_ne : Looks Op.binary_ne "op_notequal_"
  for_and : Looks Op.binary_and "op_and_"
  for_or : Looks Op.binary_or "op_or_"
  for_band : Looks Op.binary_band "op_bit_and_"
  for_bor : Looks Op.binary_bor "op_bit_or_"
  for_bxor : Looks Op.binary_bxor "op_bit_xor_"
  for_blshift : Looks Op.binary_blshift "op_bit_l_shift_"
  for_brshift : Looks Op.binary_brshift "op_bit_r_shift_"

-- the object at `a` is of a kind that `p` takes
pub record IsObject (v : Values) (p : Kind → Bool) (a : ℕ) : Type 0 where
  pub content : Object
  pub untagged : tagged a ≡ false
  pub there : v.memory a ≡ some content
  pub takes : p content.type ≡ true

-- a function with one or two parameters
pub record Implements (v : Values) (func argc : ℕ) : Type 0 where
  pub not_null : (func == 0) ≡ false
  pub untagged : tagged func ≡ false
  pub content : Object
  pub there : v.memory func ≡ some content
  pub is_function_ : content.type ≡ Kind.function
  pub parameters : content.argc ≡ argc
  pub one_or_two_ : ((argc == 1) || (argc == 2)) ≡ true

-- Which operand brings the operator: the left one, or the right one beside a left one that is not custom.
pub data Brings (v : Values) (name : String) (a b func argc : ℕ) : Bool → Type 0 where
  by_left :
      IsObject v is_custom a
      → v.get_member a name ≡ func
      → Implements v func argc
      → Brings v name a b func argc true
  by_right :
      (tagged a ≡ true) ⊎ IsObject v (λ k. not (is_custom k)) a
      → IsObject v is_custom b
      → v.get_member b name ≡ func
      → Implements v func argc
      → Brings v name a b func argc false
