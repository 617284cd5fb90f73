-- ===== src/Serialize/Load.antt =====
-- The loader of src/interpreter/serialize.c. A read behind the end of the bytes, and a size that is read
-- as negative, are `none`.
use lanky.Prelude.{
  ◌>>=◌, ℕ, zero, suc, ◌+◌, ◌-◌, ◌*◌, ◌^◌, Option, none, some, List, [], ◌∷◌, ltb, leb, ◌==◌,
  if◌then◌else◌, length, get_elem?, take, drop,
}
use lanky.Serialize.{
  Constant, Constants, integer, float, custom, code, nil, cons, integer_type, float_type,
  string_type, code_type,
}

-- The loop of `n` steps that shifts each byte to its place; the places are disjoint, so `|` adds.
unfoldable pub or_bytes : ℕ → List ℕ → Option ℕ
or_bytes zero buf = some 0
or_bytes (suc n) [] = none
or_bytes (suc n) (c ∷ buf) = do bd ← or_bytes n buf; some (c * 2 ^ (8 * n) + bd)

unfoldable pub bytes_to_int32 : List ℕ → ℕ → Option ℕ
unfolding or_bytes
bytes_to_int32 buf offset = or_bytes 4 (drop offset buf)

unfoldable pub bytes_to_int64 : List ℕ → ℕ → Option ℕ
unfolding or_bytes
bytes_to_int64 buf offset = or_bytes 8 (drop offset buf)

-- `int` widened to a size
unfoldable pub read_size : List ℕ → ℕ → Option ℕ
unfolding bytes_to_int32
read_size buf offset = do n ← bytes_to_int32 buf offset; if ltb n (2 ^ 31) then some n else none

-- what a C string holds of a buffer: the bytes before the first NUL
unfoldable pub c_text : List ℕ → List ℕ
c_text [] = []
c_text (c ∷ buf) = if c == 0 then [] else c ∷ c_text buf

-- `memcpy(..., bytes, len)` and `bytes += len`
unfoldable pub read_bytes : ℕ → List ℕ → Option (List ℕ × List ℕ)
read_bytes len bytes =
    if leb len (length bytes) then some (take len bytes, drop len bytes) else none

unfoldable pub deserialize_number : ℕ → List ℕ → Option Constant
unfolding bytes_to_int64 read_bytes
deserialize_number type bytes =
    if type == integer_type
    then (do n ← bytes_to_int64 bytes 5; some (integer n))
    else (do (b, _) ← read_bytes 8 (drop 5 bytes); some (float b))

unfoldable pub deserialize_string : List ℕ → Option Constant
unfolding read_size read_bytes c_text
deserialize_string bytes = do
  n ← read_size bytes 1
  if ltb n 5
      then none
      else (do (tex, _) ← read_bytes (n - 5) (drop 5 bytes); some (custom (c_text tex)))

unfoldable pub read_constants :
    (List ℕ → Option Constant) → ℕ → List ℕ → Option (Constants × List ℕ)
unfolding read_size
read_constants object zero bytes = some (nil, bytes)
read_constants object (suc n) bytes = do
  len ← read_size bytes 1
  c ← object bytes
  (cs, rest) ← read_constants object n (drop len bytes)
  some (cons c cs, rest)

-- a length and as many bytes
unfoldable pub read_text : List ℕ → Option (List ℕ × List ℕ)
unfolding read_size read_bytes
read_text bytes = do len ← read_size bytes 0; read_bytes len (drop 4 bytes)

unfoldable pub read_names : ℕ → List ℕ → Option (List (List ℕ) × List ℕ)
unfolding read_text c_text
read_names zero bytes = some ([], bytes)
read_names (suc n) bytes = do
  (name, rest) ← read_text bytes
  (names, end) ← read_names n rest
  some (c_text name ∷ names, end)

-- `if(reflen)`
unfoldable pub to_refname : List ℕ → Option (List ℕ)
unfolding c_text
to_refname [] = none
to_refname (c ∷ buf) = some (c_text (c ∷ buf))

unfoldable pub deserialize_code : (List ℕ → Option Constant) → List ℕ → Option Constant
unfolding read_size bytes_to_int32 read_constants read_names read_text to_refname read_bytes
deserialize_code object bytes = do
  ncs ← read_size bytes 5
  nlc ← read_size bytes 9
  nnm ← read_size bytes 13
  nop ← read_size bytes 17
  sss ← bytes_to_int32 bytes 21
  (constants, b) ← read_constants object ncs (drop 25 bytes)
  (names, b') ← read_names nnm b
  (ref, b'') ← read_text b'
  (ops, _) ← read_bytes nop b''
  some (
      code
        (record {
          num_locals = nlc;
          names = names;
          ops = ops;
          stack_size = sss;
          refname = to_refname ref;
          indices = none;
          catch_size = none;
        })
        constants)

-- the `switch` on the first byte
unfoldable pub deserialize_as : (List ℕ → Option Constant) → ℕ → List ℕ → Option Constant
unfolding deserialize_number deserialize_code deserialize_string
deserialize_as object type bytes =
    if type == integer_type
    then deserialize_number type bytes
    else if type == float_type
    then deserialize_number type bytes
    else if type == code_type
    then deserialize_code object bytes
    else if type == string_type
    then deserialize_string bytes
    else none

-- The fuel is how deeply code objects may be nested in each other.
unfoldable pub deserialize_object : ℕ → List ℕ → Option Constant
unfolding deserialize_as
deserialize_object zero bytes = none
deserialize_object (suc fuel) bytes = do
  type ← get_elem? bytes 0
  deserialize_as (deserialize_object fuel) type bytes

unfoldable pub deserialize_from_file : ℕ → List ℕ → Option Constant
unfolding read_size read_bytes deserialize_object
deserialize_from_file fuel file = do
  c ← read_size file 1
  (bytes, _) ← read_bytes c file
  deserialize_object fuel bytes
