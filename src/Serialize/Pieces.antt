-- ===== src/Serialize/Pieces.antt =====
-- The parts of a serialized code object of src/interpreter/serialize.c: texts, names and sizes.
use lanky.Prelude.{
  ℕ, ap, ◌+◌, ◌*◌, ◌^◌, ◌<◌, ◌≤◌, ◌≡◌, ◌≢◌, refl, some, none, Option, List, [], ◌∷◌, ◌++◌, length,
  append_assoc, length-append, take_all-append, drop_all-append, arith,
}
use lanky.Serialize.{int32_to_bytes, name_sizes, render_names, refname_size, render_refname}
use lanky.Serialize.Load.{c_text, read_bytes, read_text, read_names, to_refname}
use lanky.Serialize.Integers.{read_size-int32_to_bytes}

-- a C string holds no NUL
abbrev pub IsText : List ℕ → Type 0
IsText [] = Unit
IsText (c ∷ t) = (c ≢ 0) × IsText t

abbrev pub AreTexts : List (List ℕ) → Type 0
AreTexts [] = Unit
AreTexts (t ∷ ts) = IsText t × AreTexts ts

pub c_text-IsText : (t : List ℕ) → IsText t → c_text t ≡ t
unfolding c_text
c_text-IsText [] h = refl
c_text-IsText (c ∷ t) h = ground (arith, h.0, c_text-IsText t h.1)

pub read_bytes-append : (xs ys : List ℕ) → read_bytes (length xs) (xs ++ ys) ≡ some (xs, ys)
unfolding read_bytes
read_bytes-append xs ys =
    ground (arith, length-append xs ys, take_all-append xs ys, drop_all-append xs ys)

pub read_text-render :
    (t rest : List ℕ)
    → length t < 2 ^ 31
    → read_text (int32_to_bytes (length t) ++ (t ++ rest)) ≡ some (t, rest)
unfolding read_text int32_to_bytes
read_text-render t rest h =
    rw (read_size-int32_to_bytes (length t) (t ++ rest) h) (read_bytes-append t rest)

pub read_names-render :
    (ns : List (List ℕ)) (rest : List ℕ)
    → AreTexts ns
    → name_sizes ns < 2 ^ 31
    → read_names (length ns) (render_names ns ++ rest) ≡ some (ns, rest)
unfolding read_names render_names name_sizes int32_to_bytes
read_names-render [] rest h small = refl
read_names-render (n ∷ ns) rest h small =
    rw
      (
        append_assoc n (render_names ns) rest,
        read_text-render n (render_names ns ++ rest) (omega arith),
        read_names-render ns rest h.1 (omega arith),
        c_text-IsText n h.0,
      )
      refl

pub length-render_names : (ns : List (List ℕ)) → length (render_names ns) ≡ name_sizes ns
unfolding render_names name_sizes int32_to_bytes
length-render_names [] = refl
length-render_names (n ∷ ns) =
    omega (arith, length-append n (render_names ns), length-render_names ns)

pub count-name_sizes : (ns : List (List ℕ)) → length ns * 4 ≤ name_sizes ns
unfolding name_sizes
count-name_sizes [] = omega arith
count-name_sizes (n ∷ ns) = omega (arith, count-name_sizes ns)

-- An empty `refname` comes back as NULL.
abbrev pub kept_refname : Option (List ℕ) → Option (List ℕ)
kept_refname none = none
kept_refname (some []) = none
kept_refname (some (c ∷ t)) = some (c ∷ t)

abbrev pub refname_text : Option (List ℕ) → List ℕ
refname_text none = []
refname_text (some t) = t

pub to_refname-kept :
    (r : Option (List ℕ)) → IsText (refname_text r) → to_refname (refname_text r) ≡ kept_refname r
unfolding to_refname
to_refname-kept none h = refl
to_refname-kept (some []) h = refl
to_refname-kept (some (c ∷ t)) h = ap some (c_text-IsText (c ∷ t) h)

pub read_text-render_refname :
    (r : Option (List ℕ)) (rest : List ℕ)
    → refname_size r < 2 ^ 31
    → read_text (render_refname r ++ rest) ≡ some (refname_text r, rest)
unfolding render_refname refname_size int32_to_bytes
read_text-render_refname none rest h = read_text-render [] rest (omega arith)
read_text-render_refname (some t) rest h = read_text-render t rest h

pub length-render_refname : (r : Option (List ℕ)) → length (render_refname r) ≡ 4 + refname_size r
unfolding render_refname refname_size int32_to_bytes
length-render_refname none = refl
length-render_refname (some t) = omega arith
