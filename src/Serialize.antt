-- ===== src/Serialize.antt =====
-- src/interpreter/serialize.c: the binary form of compiled code. A byte is a number below 256. The
-- buffer that a function fills by consecutive writes is the concatenation of what it writes.
pub mod Load
mod Integers
mod Doubles
mod Pieces
mod Storable
mod Codes
mod RoundTrip
mod Tests
use lanky.Prelude.{
  ◌>>=◌, ℕ, zero, suc, ◌+◌, ◌-◌, ◌*◌, ◌/◌, ◌%◌, ◌^◌, Option, none, some, List, [], ◌∷◌, ◌++◌, ltb,
  leb, ◌==◌, if◌then◌else◌, length, get_elem?, set, take, drop,
}

-- `lky_object_code` without its constants. What the loader leaves as `malloc` returned it is `none`.
pub record CodeInfo : Type 0 where
  pub num_locals : ℕ
  pub names : List (List ℕ)
  pub ops : List ℕ
  pub stack_size : ℕ
  pub refname : Option (List ℕ)
  pub indices : Option (List ℕ)
  pub catch_size : Option ℕ

-- The objects that constants are. An integer is the 64 bits of its `long`, a float the eight bytes of
-- its `double` in memory; `custom` carries what `lobjb_stringify` makes of the object, and `other` is
-- an object of any other type.
mutual
  pub data Constant : Type 0 where
    integer : ℕ → Constant
    float : List ℕ → Constant
    custom : List ℕ → Constant
    code : CodeInfo → Constants → Constant
    other : Constant

  pub data Constants : Type 0 where
    nil : Constants
    cons : Constant → Constants → Constants

abbrev pub num_constants : Constants → ℕ
num_constants nil = 0
num_constants (cons c cs) = suc (num_constants cs)

abbrev pub float_type : ℕ
float_type = 0

abbrev pub integer_type : ℕ
integer_type = 1

abbrev pub string_type : ℕ
string_type = 2

abbrev pub code_type : ℕ
code_type = 7

abbrev pub custom_type : ℕ
custom_type = 9

pub int32_to_bytes : ℕ → List ℕ
int32_to_bytes i = i / 2 ^ 24 % 256 ∷ i / 2 ^ 16 % 256 ∷ i / 2 ^ 8 % 256 ∷ i % 256 ∷ []

pub int64_to_bytes : ℕ → List ℕ
int64_to_bytes i =
    i / 2 ^ 56 % 256
    ∷ i / 2 ^ 48 % 256
    ∷ i / 2 ^ 40 % 256
    ∷ i / 2 ^ 32 % 256
    ∷ i / 2 ^ 24 % 256
    ∷ i / 2 ^ 16 % 256
    ∷ i / 2 ^ 8 % 256
    ∷ i % 256
    ∷ []

pub render_shared_info : ℕ → ℕ → List ℕ
unfolding int32_to_bytes
render_shared_info type len = type ∷ int32_to_bytes len

-- `OBJ_NUM_UNWRAP` has a `double` in one arm of its conditional, so C makes the whole of it a
-- `double`: a `long` passes through 53 bits of precision, rounded to the nearest and ties to even.
excess_bits : ℕ → ℕ → ℕ
excess_bits zero m = 0
excess_bits (suc f) m = if ltb m (2 ^ 53) then 0 else suc (excess_bits f (m / 2))

unfoldable pub to_double : ℕ → ℕ
unfolding excess_bits
to_double m =
    let e = excess_bits 11 m in
    let q = m / 2 ^ e in
    let r = m % 2 ^ e in
    if e == 0
    then m
    else if ltb (r * 2) (2 ^ e)
    then q * 2 ^ e
    else if ltb (2 ^ e) (r * 2)
    then (q + 1) * 2 ^ e
    else (q + q % 2) * 2 ^ e

pub num_unwrap : ℕ → ℕ
unfolding to_double
num_unwrap n = if ltb n (2 ^ 63) then to_double n else 2 ^ 64 - to_double (2 ^ 64 - n)

-- the rendered bytes and `*len`
abbrev pub Rendered : Type 0
Rendered = List ℕ × ℕ

pub serialize_number : ℕ → List ℕ → Rendered
unfolding render_shared_info
serialize_number type buf = (render_shared_info type 13 ++ buf, 13)

pub serialize_string : List ℕ → Rendered
unfolding render_shared_info
serialize_string tex =
    let len = 5 + length tex in (set (render_shared_info custom_type len) 0 string_type ++ tex, len)

pub name_sizes : List (List ℕ) → ℕ
name_sizes [] = 0
name_sizes (n ∷ ns) = (length n + 4) + name_sizes ns

-- a length and its bytes, for each name
pub render_names : List (List ℕ) → List ℕ
unfolding int32_to_bytes
render_names [] = []
render_names (n ∷ ns) = int32_to_bytes (length n) ++ (n ++ render_names ns)

pub refname_size : Option (List ℕ) → ℕ
refname_size none = 0
refname_size (some n) = length n

pub render_refname : Option (List ℕ) → List ℕ
unfolding int32_to_bytes
render_refname none = int32_to_bytes 0
render_refname (some n) = int32_to_bytes (length n) ++ n

pub code_size : CodeInfo → ℕ → ℕ
unfolding name_sizes refname_size
code_size info accum =
    29 + accum + name_sizes info.names + refname_size info.refname + length info.ops

pub render_code : CodeInfo → ℕ → Rendered → Rendered
unfolding render_shared_info code_size render_names render_refname
render_code info count (rendered, accum) =
    let total = code_size info accum in
    let fields =
      int32_to_bytes count
      ++ (int32_to_bytes info.num_locals
          ++ (int32_to_bytes (length info.names)
              ++ (int32_to_bytes (length info.ops) ++ int32_to_bytes info.stack_size))) in
    (
      render_shared_info code_type total
          ++ (fields
              ++ (rendered
                  ++ (render_names info.names ++ (render_refname info.refname ++ info.ops)))),
      total,
    )

-- `none` where the code goes on with the NULL that an object of another type gives. Each rendered
-- constant is copied by the length that came with it.
unfoldable mutual
  unfolding serialize_number serialize_string render_code num_unwrap int64_to_bytes

  pub serialize_object : Constant → Option Rendered
  serialize_object (integer n) =
      some (serialize_number integer_type (int64_to_bytes (num_unwrap n)))
  serialize_object (float b) = some (serialize_number float_type b)
  serialize_object (custom tex) = some (serialize_string tex)
  serialize_object (code info cs) = do
    constants ← serialize_constants cs
    some (render_code info (num_constants cs) constants)
  serialize_object other = none

  pub serialize_constants : Constants → Option Rendered
  serialize_constants nil = some ([], 0)
  serialize_constants (cons c cs) = do
    (rendered, len) ← serialize_object c
    (rest, accum) ← serialize_constants cs
    some (take len rendered ++ rest, len + accum)

-- `exp_send_to_binary_file` of src/compiler/exporter.c: the bytes of the file
pub send_to_binary_file : Rendered → List ℕ
send_to_binary_file (rendered, len) = take len rendered
