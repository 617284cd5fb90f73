-- ===== src/Operators.antt =====
-- src/interpreter/mach_binary_ops.c, mach_unary_ops.c and lobjb_unary_negative: the operators on values. A value
-- is its address, a number on 64 bits; an odd address is a tagged integer. A result none is a read outside
-- of the memory, or a signal or an undefined shift.
mod Binary
mod Numbers
mod Arithmetic
mod Custom
mod OnStack
mod Tests
use Prim.Native.String.{String}
use lanky.Prelude.{
  ℕ, zero, suc, ◌+◌, ◌-◌, ◌*◌, ◌/◌, ◌%◌, ◌^◌, Bool, true, false, not, ◌&&◌, ◌||◌, Option, none,
  some, ◌==◌, ltb, if◌then◌else◌, ◌>>=◌,
}

-- `lky_builtin_type`
pub data Kind : Type 0 where
  float : Kind
  integer : Kind
  string : Kind
  sequence : Kind
  nil : Kind
  function : Kind
  class : Kind
  code : Kind
  iterable : Kind
  custom : Kind
  custom_ex : Kind
  error : Kind
  bool : Kind
  blob : Kind

-- `word` has the bits of `value`, `argc` is that of the callable of a function
pub record Object : Type 0 where
  pub type : Kind
  pub word : ℕ
  pub argc : ℕ

-- what the C compiler makes of `double`, on the bits
pub record Doubles : Type 0 where
  pub of_long : ℕ → ℕ
  pub to_long : ℕ → ℕ
  pub to_int : ℕ → ℕ
  pub plus : ℕ → ℕ → ℕ
  pub minus : ℕ → ℕ → ℕ
  pub times : ℕ → ℕ → ℕ
  pub over : ℕ → ℕ → ℕ
  pub remainder : ℕ → ℕ → ℕ
  pub pow : ℕ → ℕ → ℕ
  pub negated : ℕ → ℕ
  pub less : ℕ → ℕ → Bool
  pub less_equal : ℕ → ℕ → Bool
  pub equal : ℕ → ℕ → Bool
  pub is_zero : ℕ → Bool

-- `get_member` is lobj_get_member, where 0 is NULL
pub record Values : Type 0 where
  pub memory : ℕ → Option Object
  pub lky_nil : ℕ
  pub lky_yes : ℕ
  pub lky_no : ℕ
  pub get_member : ℕ → String → ℕ
  pub lobjb_uses_pointer_tags_ : Bool

-- A result: a value that is there, a new object, or the call of a function with the other operand, if there
-- is one, and the integer that says which of the two it is, if the function takes it.
pub data Answer : Type 0 where
  at : ℕ → Answer
  new : Kind → ℕ → Answer
  call : ℕ → Option ℕ → Option ℕ → Answer

abbrev pub tagged : ℕ → Bool
tagged a = a % 2 == 1

-- 0 is NULL; `tags` is lobjb_uses_pointer_tags_
abbrev pub try_render_tagged_pointer : Bool → ℕ → ℕ
try_render_tagged_pointer tags value = if tags && ltb value (2 ^ 24 - 1) then value * 256 + 1 else 0

unfoldable pub alloc_integer : Bool → ℕ → Answer
alloc_integer tags v =
    let attempt = try_render_tagged_pointer tags v in
    if ltb v (2 ^ 28 - 1) && not (attempt == 0)
    then Answer.at attempt
    else Answer.new Kind.integer v

unfoldable pub build_int : Bool → ℕ → Answer
unfolding alloc_integer
build_int tags v =
    let attempt = try_render_tagged_pointer tags v in
    if attempt == 0 then alloc_integer tags v else Answer.at attempt

-- the `%` of C on two `long`
abbrev magnitude : ℕ → ℕ
magnitude v = if ltb v (2 ^ 63) then v else 2 ^ 64 - v

unfoldable pub modulo_long : ℕ → ℕ → Option ℕ
modulo_long x y =
    if y == 0 || ((x == 2 ^ 63) && (y == 2 ^ 64 - 1))
    then none
    else let r = magnitude x % magnitude y in
      some (if ltb x (2 ^ 63) || (r == 0) then r else 2 ^ 64 - r)

abbrev pub differ : Bool → Bool → Bool
differ true b = not b
differ false b = b

-- a shift by less than 0 or more than 63 is undefined
unfoldable pub shift_left : ℕ → ℕ → Option ℕ
shift_left x y = if ltb y 64 then some (x * 2 ^ y % 2 ^ 64) else none

unfoldable pub shift_right : ℕ → ℕ → Option ℕ
shift_right x y =
    if ltb y 64
    then some (if ltb x (2 ^ 63) then x / 2 ^ y else 2 ^ 64 - 1 - (2 ^ 64 - 1 - x) / 2 ^ y)
    else none

abbrev pub is_float : Kind → Bool
is_float Kind.float = true
is_float _ = false

abbrev pub is_integer : Kind → Bool
is_integer Kind.integer = true
is_integer _ = false

abbrev pub is_custom : Kind → Bool
is_custom Kind.custom = true
is_custom Kind.custom_ex = true
is_custom _ = false

abbrev pub is_function : Kind → Bool
is_function Kind.function = true
is_function _ = false

abbrev pub is_bool : Kind → Bool
is_bool Kind.bool = true
is_bool _ = false

module _ (dbl : Doubles) (v : Values) where
  -- what a pointer points to
  abbrev pub object : ℕ → Option Object
  object a = if tagged a then none else v.memory a

  -- `!IS_TAGGED(a) && a->type == ...`
  unfoldable pub untagged_is : (Kind → Bool) → ℕ → Option Bool
  untagged_is p a = if tagged a then some false else v.memory a >>= λ o. some (p o.type)

  -- `OBJ_IS_NUMBER` and `OBJ_IS_INTEGER`
  unfoldable pub obj_is_number : ℕ → Option Bool
  obj_is_number a =
      if tagged a
      then some true
      else v.memory a >>= λ o. some (is_float o.type || is_integer o.type)

  unfoldable pub obj_is_integer : ℕ → Option Bool
  obj_is_integer a = if tagged a then some true else v.memory a >>= λ o. some (is_integer o.type)

  -- `OBJ_NUM_UNWRAP`, a `double`
  unfoldable pub unwrap : ℕ → Option ℕ
  unwrap a =
      if tagged a
      then some (dbl.of_long (a / 256 % 2 ^ 28))
      else v.memory a >>= λ o. some (if is_float o.type then o.word else dbl.of_long o.word)

  abbrev pub is_singleton : ℕ → Bool
  is_singleton a = (a == v.lky_nil) || (a == v.lky_yes) || (a == v.lky_no)

  -- `LKY_TESTC_FAST`
  abbrev pub testc : Bool → Answer
  testc b = Answer.at (if b then v.lky_yes else v.lky_no)

  -- whether `OBJ_NUM_PROMO` is LBI_FLOAT
  unfoldable pub promotes_to_float : ℕ → ℕ → Option Bool
  unfolding untagged_is
  promotes_to_float a b =
      untagged_is is_float a >>= λ x. if x then some true else untagged_is is_float b

  -- `bin_op_exec_custom` and `un_op_exec_custom`, of a function with `argc` parameters
  abbrev pub bin_op_exec_custom : ℕ → ℕ → Bool → ℕ → Answer
  bin_op_exec_custom func other first argc =
      Answer.call func (some other) (if argc == 2 then some (if first then 1 else 0) else none)

  abbrev pub un_op_exec_custom : ℕ → ℕ → Answer
  un_op_exec_custom func argc = Answer.call func none none

  -- the part of CHECK_EXEC_CUSTOM_IMPL behind lobj_get_member; some none is a break
  unfoldable pub call_member : (ℕ → ℕ → Answer) → (ℕ → Bool) → ℕ → Option (Option Answer)
  call_member exec takes func =
      if func == 0
      then some none
      else object func >>= λ f.
          some (if is_function f.type && takes f.argc then some (exec func f.argc) else none)

  abbrev pub one_or_two : ℕ → Bool
  one_or_two argc = (argc == 1) || (argc == 2)

  -- `CHECK_EXEC_CUSTOM_IMPL`; some none goes on behind it
  unfoldable pub check_exec_custom_impl : String → ℕ → ℕ → Option (Option Answer)
  unfolding untagged_is call_member
  check_exec_custom_impl name a b = untagged_is is_custom a >>= λ left.
      if left
      then call_member (λ func. bin_op_exec_custom func b true) one_or_two (v.get_member a name)
      else (untagged_is is_custom b >>= λ right.
          if right
          then call_member (λ func. bin_op_exec_custom func a false) one_or_two
              (v.get_member b name)
          else some none)

  unfoldable pub or_else : Option (Option Answer) → Option Answer → Option Answer
  or_else own rest = own >>= λ r. elim r [ none ↦ rest | some answer ↦ some answer ]
