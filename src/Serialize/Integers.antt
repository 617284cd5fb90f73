-- ===== src/Serialize/Integers.antt =====
-- The integers of src/interpreter/serialize.c: four and eight bytes, the most significant first.
use lanky.Prelude.{ℕ, ap, ◌%◌, ◌^◌, ◌<◌, ◌≡◌, ◌∙◌, some, List, ◌++◌, arith}
use lanky.Serialize.{int32_to_bytes, int64_to_bytes}
use lanky.Serialize.Load.{or_bytes, bytes_to_int32, bytes_to_int64, read_size}

-- `srl_bytes_to_int32` reads back the low 32 bits of what `srl_int32_to_bytes` wrote, whatever
-- follows.
pub bytes_to_int32-int32_to_bytes :
    (i : ℕ) (rest : List ℕ) → bytes_to_int32 (int32_to_bytes i ++ rest) 0 ≡ some (i % 2 ^ 32)
unfolding bytes_to_int32 int32_to_bytes or_bytes
bytes_to_int32-int32_to_bytes i rest = ap some (omega arith)

pub bytes_to_int64-int64_to_bytes :
    (i : ℕ) (rest : List ℕ) → bytes_to_int64 (int64_to_bytes i ++ rest) 0 ≡ some (i % 2 ^ 64)
unfolding bytes_to_int64 int64_to_bytes or_bytes
bytes_to_int64-int64_to_bytes i rest = ap some (omega arith)

-- a size that fits an `int` is read back
pub read_size-int32_to_bytes :
    (i : ℕ) (rest : List ℕ) → i < 2 ^ 31 → read_size (int32_to_bytes i ++ rest) 0 ≡ some i
unfolding read_size
read_size-int32_to_bytes i rest h = ground (arith, bytes_to_int32-int32_to_bytes i rest)

-- as 32 bits it is read back in any case
pub bytes_to_int32_fits :
    (i : ℕ) (rest : List ℕ) → i < 2 ^ 32 → bytes_to_int32 (int32_to_bytes i ++ rest) 0 ≡ some i
bytes_to_int32_fits i rest h = bytes_to_int32-int32_to_bytes i rest ∙ ap some (omega arith)
