-- ===== src/Compiler/Objects.antt =====
-- The constants that src/compiler/ast_compiler.c puts into a code object, and the comparison of
-- src/interpreter/lkyobj_builtin.c that finds one again. An integer is the 64 bits of its `long`, a
-- float the eight bytes of its `double`, the lowest first. A regex and a unit keep the texts that they
-- are built from.
use lanky.Prelude.{
  ℕ, zero, suc, ◌+◌, ◌-◌, ◌*◌, ◌/◌, ◌%◌, ◌^◌, Bool, false, ◌&&◌, ◌||◌, not, Option, none, some,
  List, [], ◌∷◌, ltb, ◌==◌, if◌then◌else◌,
}
use lanky.HashTable.{bytes_equal}
use lanky.Serialize.{CodeInfo, to_double}
use lanky.Compiler.Ast.{ValueWrapper, vdouble, vint, vstring}

mutual
  pub data Object : Type 0 where
    integer : ℕ → Object
    float : List ℕ → Object
    string : List ℕ → Object
    regex_object : (pattern_text flags : List ℕ) → Object
    unit_object : (val fmt : List ℕ) → Object
    code : CodeInfo → Objects → Object

  pub data Objects : Type 0 where
    nil : Objects
    cons : Object → Objects → Objects

-- `make_cons_array`
unfoldable pub make_cons_array : List Object → Objects
make_cons_array [] = nil
make_cons_array (o ∷ os) = cons o (make_cons_array os)

-- `stlstr_escape_for`; the code gives -1 for `none`
pub escape_for : ℕ → Option ℕ
escape_for i =
    if i == 110
    then some 10
    else if i == 116
    then some 9
    else if i == 39 || i == 34 || i == 92
    then some i
    else none

escape_at : ℕ → ℕ → Option ℕ
unfolding escape_for
escape_at c next = if c == 92 then escape_for next else none

-- `stlstr_copy_and_escape`
pub copy_and_escape : List ℕ → List ℕ
unfolding escape_at
copy_and_escape [] = []
copy_and_escape (c ∷ []) = c ∷ []
copy_and_escape (c ∷ next ∷ rest) = elim (escape_at c next) [
  | some e ↦ e ∷ copy_and_escape rest
  | none ↦ c ∷ copy_and_escape (next ∷ rest)
]

-- `wrapper_to_obj`
unfoldable pub wrapper_to_obj : ValueWrapper → Object
unfolding copy_and_escape
wrapper_to_obj (vdouble d) = float d
wrapper_to_obj (vint i) = integer i
wrapper_to_obj (vstring s) = string (copy_and_escape s)

-- the position of the highest bit that is set
highest_bit : ℕ → ℕ → ℕ
highest_bit zero m = 0
highest_bit (suc fuel) m = if ltb m 2 then 0 else suc (highest_bit fuel (m / 2))

-- the bits of a `double` that holds a number of at most 64 bits, without its sign
magnitude_bits : ℕ → ℕ
unfolding to_double highest_bit
magnitude_bits m =
    let d = to_double m in
    let k = highest_bit 64 d in
    if m == 0 then 0 else (1023 + k) * 2 ^ 52 + (d * 2 ^ 52 / 2 ^ k - 2 ^ 52)

pub double_bits : ℕ → ℕ
unfolding magnitude_bits
double_bits n = if ltb n (2 ^ 63) then magnitude_bits n else 2 ^ 63 + magnitude_bits (2 ^ 64 - n)

pub from_bytes : List ℕ → ℕ
from_bytes [] = 0
from_bytes (b ∷ bs) = b + 256 * from_bytes bs

-- `==` of two doubles: a NaN is equal to nothing, and the two zeros are equal
pub same_double : ℕ → ℕ → Bool
same_double a b =
    let nan = ltb (2047 * 2 ^ 52) (a % 2 ^ 63) in
    let zeros = a % 2 ^ 63 == 0 && b % 2 ^ 63 == 0 in not nan && (a == b || zeros)

-- `lobjb_quick_compare` of a constant that is not tagged. Where the code reads a number in an object
-- that has none, the two are taken to differ.
unfoldable pub quick_compare : Object → Object → Bool
unfolding same_double double_bits from_bytes
quick_compare (string s) (string t) = bytes_equal s t
quick_compare (integer m) (integer n) = same_double (double_bits m) (double_bits n)
quick_compare (integer m) (float e) = same_double (double_bits m) (from_bytes e)
quick_compare (float d) (integer n) = same_double (from_bytes d) (double_bits n)
quick_compare (float d) (float e) = same_double (from_bytes d) (from_bytes e)
quick_compare _ _ = false
