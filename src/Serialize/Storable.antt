-- ===== src/Serialize/Storable.antt =====
-- What the format of src/interpreter/serialize.c can hold, and the facts about numbers and strings.
use lanky.Prelude.{
  ℕ, suc, max, ap, ◌+◌, ◌-◌, ◌^◌, ◌<◌, ◌≤◌, ◌≡◌, ◌∙◌, ◌⊎◌, refl, some, none, List, ◌++◌, length,
  arith,
}
use lanky.Serialize.{
  Constant, Constants, integer, float, custom, code, other, nil, cons, num_constants, code_size,
  serialize_object, serialize_constants, serialize_number, serialize_string, render_shared_info,
  int32_to_bytes, int64_to_bytes, integer_type, float_type, string_type,
}
use lanky.Serialize.Load.{
  deserialize_object, deserialize_as, deserialize_number, deserialize_string, read_constants,
  read_size, read_bytes, bytes_to_int32, bytes_to_int64, or_bytes,
}
use lanky.Serialize.Integers.{read_size-int32_to_bytes}
use lanky.Serialize.Doubles.{num_unwrap_exact}
use lanky.Serialize.Pieces.{
  IsText, AreTexts, c_text-IsText, read_bytes-append, kept_refname, refname_text,
}

-- how many bytes an object takes
unfoldable mutual
  pub object_size : Constant → ℕ
  object_size (integer n) = 13
  object_size (float b) = 13
  object_size (custom tex) = 5 + length tex
  object_size (code info cs) = code_size info (object_sizes cs)
  object_size other = 0

  pub object_sizes : Constants → ℕ
  object_sizes nil = 0
  object_sizes (cons c cs) = object_size c + object_sizes cs

-- how deeply code objects are nested
unfoldable mutual
  pub depth : Constant → ℕ
  depth (integer n) = 1
  depth (float b) = 1
  depth (custom tex) = 1
  depth (code info cs) = suc (depths cs)
  depth other = 1

  pub depths : Constants → ℕ
  depths nil = 0
  depths (cons c cs) = max (depth c) (depths cs)

-- What the format can hold: integers that a `double` holds, texts without NUL, sizes that fit an
-- `int`, and no object of another type.
unfoldable mutual
  unfolding object_size

  pub IsStorable : Constant → Type 0
  IsStorable (integer n) = (n < 2 ^ 64) × ((n ≤ 2 ^ 53) ⊎ (2 ^ 64 - 2 ^ 53 ≤ n))
  IsStorable (float b) = length b ≡ 8
  IsStorable (custom tex) = IsText tex × (5 + length tex < 2 ^ 31)
  IsStorable (code info cs) =
      (info.num_locals < 2 ^ 31)
      × (info.stack_size < 2 ^ 32)
      × AreTexts info.names
      × IsText (refname_text info.refname)
      × (code_size info (object_sizes cs) < 2 ^ 31)
      × AreStorable cs
  IsStorable other = ⊥

  pub AreStorable : Constants → Type 0
  AreStorable nil = Unit
  AreStorable (cons c cs) = IsStorable c × AreStorable cs

-- What is there after loading: `indices` and `catch_size` are not set, an empty `refname` is NULL.
unfoldable mutual
  pub reload : Constant → Constant
  reload (integer n) = integer n
  reload (float b) = float b
  reload (custom tex) = custom tex
  reload (code info cs) =
      code (record info { refname = kept_refname info.refname; indices = none; catch_size = none })
        (reload_all cs)
  reload other = other

  pub reload_all : Constants → Constants
  reload_all nil = nil
  reload_all (cons c cs) = cons (reload c) (reload_all cs)

-- The facts about the bytes `r` of one object.
pub record IsStored (c : Constant) (r : List ℕ) : Type 0 where
  pub rendered : serialize_object c ≡ some (r, length r)
  pub sized : length r ≡ object_size c
  pub starts : (rest : List ℕ) → read_size (r ++ rest) 1 ≡ some (length r)
  pub loaded :
      (fuel : ℕ) (rest : List ℕ)
      → depth c ≤ suc fuel
      → deserialize_object (suc fuel) (r ++ rest) ≡ some (reload c)

pub record AreStored (cs : Constants) (r : List ℕ) : Type 0 where
  pub rendered : serialize_constants cs ≡ some (r, length r)
  pub sized : length r ≡ object_sizes cs
  pub loaded :
      (fuel : ℕ) (rest : List ℕ)
      → depths cs ≤ fuel
      → read_constants (deserialize_object fuel) (num_constants cs) (r ++ rest)
        ≡ some (reload_all cs, rest)

pub shared_info-starts :
    (type len : ℕ) (tail : List ℕ)
    → len < 2 ^ 31
    → read_size (render_shared_info type len ++ tail) 1 ≡ some len
unfolding render_shared_info read_size bytes_to_int32 int32_to_bytes
shared_info-starts type len tail h = read_size-int32_to_bytes len tail h

pub integer-IsStored :
    (n : ℕ)
    → IsStorable (integer n)
    → IsStored (integer n) (render_shared_info integer_type 13 ++ int64_to_bytes n)
unfolding IsStorable serialize_object object_size depth serialize_number render_shared_info
    int32_to_bytes int64_to_bytes reload deserialize_object deserialize_as deserialize_number
    read_size bytes_to_int32 bytes_to_int64 or_bytes
integer-IsStored n (fits, range) = record {
  rendered = rw (num_unwrap_exact n fits range) refl;
  sized = refl;
  starts = λ rest. refl;
  loaded = λ fuel rest d. ap (λ k. some (integer k)) (omega arith);
}

pub float-IsStored :
    (b : List ℕ) → IsStorable (float b) → IsStored (float b) (render_shared_info float_type 13 ++ b)
unfolding IsStorable serialize_object object_size depth serialize_number render_shared_info
    int32_to_bytes reload deserialize_object deserialize_as deserialize_number read_size
    bytes_to_int32 or_bytes
float-IsStored b long = record {
  rendered = ap (λ k. some (render_shared_info float_type 13 ++ b, k)) (omega (arith, long));
  sized = omega (arith, long);
  starts = λ rest. ap some (omega (arith, long));
  loaded = λ fuel rest d. rw (eight rest) refl;
}
  where
    eight : (rest : List ℕ) → read_bytes 8 (b ++ rest) ≡ some (b, rest)
    eight rest = rw long at (read_bytes-append b rest)

deserialize_string-render :
    (tex rest : List ℕ)
    → IsText tex
    → 5 + length tex < 2 ^ 31
    → deserialize_string (render_shared_info string_type (5 + length tex) ++ (tex ++ rest))
      ≡ some (custom tex)
unfolding deserialize_string render_shared_info int32_to_bytes
deserialize_string-render tex rest clean small =
    rw (shared_info-starts string_type (5 + length tex) (tex ++ rest) small)
      (ground (arith, read_bytes-append tex rest, c_text-IsText tex clean))

pub custom-IsStored :
    (tex : List ℕ)
    → IsStorable (custom tex)
    → IsStored (custom tex) (render_shared_info string_type (5 + length tex) ++ tex)
unfolding IsStorable serialize_object object_size depth serialize_string render_shared_info
    int32_to_bytes reload deserialize_object deserialize_as
custom-IsStored tex (clean, small) = record {
  rendered =
      ap (λ k. some (render_shared_info string_type (5 + length tex) ++ tex, k)) (omega arith);
  sized = omega arith;
  starts = λ rest.
      shared_info-starts string_type (5 + length tex) (tex ++ rest) small ∙ ap some (omega arith);
  loaded = λ fuel rest d. deserialize_string-render tex rest clean small;
}
