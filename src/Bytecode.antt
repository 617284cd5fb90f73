-- ===== src/Bytecode.antt =====
-- src/compiler/bytecode_analyzer.c: how much room the stacks of a frame need, from the bytes of the code.
mod Walk
mod Tests
use lanky.Prelude.{
  ℕ, zero, suc, ◌+◌, ◌-◌, ◌*◌, Option, none, some, List, [], ◌∷◌, ltb, ◌==◌, if◌then◌else◌, length,
  get_elem?, drop,
}

-- `lky_instruction`, in its order; the first is 50
pub data Op : Type 0 where
  binary_add : Op
  binary_subtract : Op
  binary_multiply : Op
  binary_divide : Op
  binary_modulo : Op
  binary_power : Op
  binary_lt : Op
  binary_gt : Op
  binary_equal : Op
  binary_lte : Op
  binary_gte : Op
  binary_ne : Op
  binary_and : Op
  binary_or : Op
  binary_nc : Op
  binary_band : Op
  binary_bor : Op
  binary_bxor : Op
  binary_blshift : Op
  binary_brshift : Op
  unary_not : Op
  unary_negative : Op
  load_const : Op
  print : Op
  pop : Op
  jump_false : Op
  jump_true : Op
  jump : Op
  jump_false_else_pop : Op
  jump_true_else_pop : Op
  ignore : Op
  save_local : Op
  load_local : Op
  push_nil : Op
  push_bool : Op
  push_new_object : Op
  call_func : Op
  return : Op
  load_member : Op
  save_member : Op
  make_function : Op
  make_class : Op
  save_close : Op
  load_close : Op
  make_array : Op
  make_table : Op
  make_object : Op
  load_index : Op
  save_index : Op
  sduplicate : Op
  dduplicate : Op
  flip_two : Op
  sink_first : Op
  make_iter : Op
  next_iter_or_jump : Op
  iter_index : Op
  load_module : Op
  push_catch : Op
  pop_catch : Op
  raise : Op

instruction_set : List Op
instruction_set =
    binary_add ∷ binary_subtract ∷ binary_multiply ∷ binary_divide ∷ binary_modulo ∷ binary_power
    ∷ binary_lt ∷ binary_gt ∷ binary_equal ∷ binary_lte ∷ binary_gte ∷ binary_ne ∷ binary_and
    ∷ binary_or ∷ binary_nc ∷ binary_band ∷ binary_bor ∷ binary_bxor ∷ binary_blshift
    ∷ binary_brshift ∷ unary_not ∷ unary_negative ∷ load_const ∷ print ∷ pop ∷ jump_false
    ∷ jump_true ∷ jump ∷ jump_false_else_pop ∷ jump_true_else_pop ∷ ignore ∷ save_local ∷ load_local
    ∷ push_nil ∷ push_bool ∷ push_new_object ∷ call_func ∷ return ∷ load_member ∷ save_member
    ∷ make_function ∷ make_class ∷ save_close ∷ load_close ∷ make_array ∷ make_table ∷ make_object
    ∷ load_index ∷ save_index ∷ sduplicate ∷ dduplicate ∷ flip_two ∷ sink_first ∷ make_iter
    ∷ next_iter_or_jump ∷ iter_index ∷ load_module ∷ push_catch ∷ pop_catch ∷ raise ∷ []

-- the instruction of a byte
unfoldable pub op_of : ℕ → Option Op
unfolding instruction_set
op_of n = if ltb n 50 then none else get_elem? instruction_set (n - 50)

-- -1, or a number
pub data Effect : Type 0 where
  down : Effect
  up : ℕ → Effect

-- the result and `*skip`; `rest` is the code behind the instruction, and `none` a read behind its end
unfoldable pub effect_of_op : Op → List ℕ → Option (Effect × ℕ)
effect_of_op jump_false rest = some (down, 4)
effect_of_op jump_true rest = some (down, 4)
effect_of_op save_member rest = some (down, 4)
effect_of_op binary_add rest = some (down, 0)
effect_of_op binary_subtract rest = some (down, 0)
effect_of_op binary_multiply rest = some (down, 0)
effect_of_op binary_divide rest = some (down, 0)
effect_of_op binary_modulo rest = some (down, 0)
effect_of_op binary_power rest = some (down, 0)
effect_of_op binary_lt rest = some (down, 0)
effect_of_op binary_gt rest = some (down, 0)
effect_of_op binary_equal rest = some (down, 0)
effect_of_op binary_lte rest = some (down, 0)
effect_of_op binary_gte rest = some (down, 0)
effect_of_op binary_ne rest = some (down, 0)
effect_of_op binary_and rest = some (down, 0)
effect_of_op binary_or rest = some (down, 0)
effect_of_op binary_nc rest = some (down, 0)
effect_of_op binary_band rest = some (down, 0)
effect_of_op binary_bor rest = some (down, 0)
effect_of_op binary_bxor rest = some (down, 0)
effect_of_op binary_blshift rest = some (down, 0)
effect_of_op binary_brshift rest = some (down, 0)
effect_of_op print rest = some (down, 0)
effect_of_op pop rest = some (down, 0)
effect_of_op return rest = some (down, 0)
effect_of_op load_const rest = some (up 1, 1)
effect_of_op load_local rest = some (up 1, 1)
effect_of_op load_close rest = some (up 1, 1)
effect_of_op load_index rest = some (up 1, 1)
effect_of_op make_array rest = some (up 1, 1)
effect_of_op make_table rest = some (up 1, 1)
effect_of_op push_bool rest = some (up 1, 1)
effect_of_op load_module rest = some (up 1, 1)
effect_of_op sduplicate rest = some (up 1, 0)
effect_of_op push_nil rest = some (up 1, 0)
effect_of_op push_new_object rest = some (up 1, 0)
effect_of_op iter_index rest = some (up 1, 0)
effect_of_op make_object rest = some (up 1, 0)
effect_of_op next_iter_or_jump rest = some (up 1, 4)
effect_of_op jump_true_else_pop rest = some (up 0, 1)
effect_of_op jump_false_else_pop rest = some (up 0, 1)
effect_of_op jump rest = some (up 0, 1)
effect_of_op save_local rest = some (up 0, 1)
effect_of_op save_close rest = some (up 0, 1)
effect_of_op load_member rest = some (up 0, 1)
effect_of_op ignore rest = some (up 0, 0)
effect_of_op call_func rest = some (up 0, 0)
effect_of_op make_function rest = some (up 0, 0)
effect_of_op save_index rest = some (up 0, 0)
effect_of_op unary_not rest = some (up 0, 0)
effect_of_op unary_negative rest = some (up 0, 0)
effect_of_op raise rest = some (up 0, 0)
effect_of_op pop_catch rest = some (up 0, 0)
effect_of_op make_iter rest = some (up 0, 0)
effect_of_op push_catch rest = some (up 0, 0)
effect_of_op sink_first rest = some (up 0, 0)
effect_of_op flip_two rest = some (up 0, 0)
effect_of_op dduplicate rest = some (up 2, 0)
effect_of_op make_class [] = none
effect_of_op make_class (howmany ∷ rest) = some (up howmany, howmany * 2 + 1)

pub stack_effect_for : ℕ → List ℕ → Option (Effect × ℕ)
unfolding effect_of_op op_of
stack_effect_for byte rest = elim (op_of byte) [
  | none ↦ some (up 0, 0)
  | some op ↦ effect_of_op op rest
]

-- `int current`: a number, or minus the successor of one
pub data ℤ : Type 0 where
  pos : ℕ → ℤ
  negsuc : ℕ → ℤ

pub plus : ℤ → Effect → ℤ
plus (pos n) (up k) = pos (n + k)
plus (pos zero) down = negsuc 0
plus (pos (suc n)) down = pos n
plus (negsuc n) (up k) = if ltb n k then pos (k - suc n) else negsuc (n - k)
plus (negsuc n) down = negsuc (suc n)

-- `current > max ? current : max`
pub raise_to : ℕ → ℤ → ℕ
raise_to max (pos n) = if ltb max n then n else max
raise_to max (negsuc n) = max

pub data Analysis : Type 0 where
  depth : ℕ → Analysis
  read_outside : Analysis
  no_fuel : Analysis

-- the loop, from the current position on
pub walk : ℕ → List ℕ → ℤ → ℕ → Analysis
unfolding stack_effect_for plus raise_to
walk zero code current max = no_fuel
walk (suc fuel) [] current max = depth max
walk (suc fuel) (byte ∷ rest) current max = elim (stack_effect_for byte rest) [
  | none ↦ read_outside
  | some (effect, skip) ↦
      let current' = plus current effect in
      walk fuel (drop skip rest) current' (raise_to max current')
]

unfoldable pub calculate_max_stack_depth : List ℕ → Analysis
unfolding walk
calculate_max_stack_depth code = walk (suc (length code)) code (pos 0) 0

-- LI_PUSH_CATCH is 107
unfoldable pub calculate_max_catch_depth : List ℕ → ℕ
calculate_max_catch_depth [] = 0
calculate_max_catch_depth (byte ∷ code) =
    (if byte == 107 then 1 else 0) + calculate_max_catch_depth code
