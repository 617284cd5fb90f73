-- ===== src/Prelude/Lists.antt =====
-- Lists measured and indexed by native numbers, under the library's names.
use Prim.Native.Nat.{ℕ, zero, suc, ◌+◌, ◌<◌}
use mathlib.Core.Path.{◌≡◌, refl, ap}
use mathlib.Core.List.{List, [], ◌∷◌, ◌++◌}
use mathlib.Core.Option.{Option, none, some}
use native.Mathlib.Omega.{arith}
use lanky.Prelude.Tests.{◌==◌, if◌then◌else◌}

module _ {ℓ} {A : Type ℓ} where
  abbrev pub length : List A → ℕ
  length [] = 0
  length (x ∷ xs) = suc (length xs)

  abbrev pub get_elem? : List A → ℕ → Option A
  get_elem? [] i = none
  get_elem? (x ∷ xs) zero = some x
  get_elem? (x ∷ xs) (suc i) = get_elem? xs i

  abbrev pub get_or : List A → ℕ → A → A
  get_or [] i d = d
  get_or (x ∷ xs) zero d = x
  get_or (x ∷ xs) (suc i) d = get_or xs i d

  -- A write out of bounds changes nothing.
  abbrev pub set : List A → ℕ → A → List A
  set [] i v = []
  set (x ∷ xs) zero v = v ∷ xs
  set (x ∷ xs) (suc i) v = x ∷ set xs i v

  abbrev pub replicate : ℕ → A → List A
  replicate zero a = []
  replicate (suc n) a = a ∷ replicate n a

  abbrev pub take : ℕ → List A → List A
  take zero xs = []
  take (suc n) [] = []
  take (suc n) (x ∷ xs) = x ∷ take n xs

  abbrev pub drop : ℕ → List A → List A
  drop zero xs = xs
  drop (suc n) [] = []
  drop (suc n) (x ∷ xs) = drop n xs

  abbrev pub concat : List (List A) → List A
  concat [] = []
  concat (xs ∷ xss) = xs ++ concat xss

  pub length-append : (xs ys : List A) → length (xs ++ ys) ≡ length xs + length ys
  length-append [] ys = omega arith
  length-append (x ∷ xs) ys = omega (arith, length-append xs ys)

  pub length-set : (xs : List A) (i : ℕ) (v : A) → length (set xs i v) ≡ length xs
  length-set [] i v = refl
  length-set (x ∷ xs) zero v = refl
  length-set (x ∷ xs) (suc i) v = ap suc (length-set xs i v)

  pub length-replicate : (n : ℕ) (a : A) → length (replicate n a) ≡ n
  length-replicate zero a = refl
  length-replicate (suc n) a = ap suc (length-replicate n a)

  pub get_or-set :
      (xs : List A) (i j : ℕ) (v d : A)
      → i < length xs
      → get_or (set xs i v) j d ≡ (if i == j then v else get_or xs j d)
  get_or-set [] i j v d h = absurd (omega arith)
  get_or-set (x ∷ xs) zero zero v d h = refl
  get_or-set (x ∷ xs) zero (suc j) v d h = ground arith
  get_or-set (x ∷ xs) (suc i) zero v d h = ground arith
  get_or-set (x ∷ xs) (suc i) (suc j) v d h = ground (arith, get_or-set xs i j v d)

  pub get_or-replicate : (n i : ℕ) (a : A) → get_or (replicate n a) i a ≡ a
  get_or-replicate zero i a = refl
  get_or-replicate (suc n) zero a = refl
  get_or-replicate (suc n) (suc i) a = get_or-replicate n i a

  pub take-length : (xs : List A) → take (length xs) xs ≡ xs
  take-length [] = refl
  take-length (x ∷ xs) = ap (◌∷◌ x) (take-length xs)

  pub take_all-append : (xs ys : List A) → take (length xs) (xs ++ ys) ≡ xs
  take_all-append [] ys = refl
  take_all-append (x ∷ xs) ys = ap (◌∷◌ x) (take_all-append xs ys)

  pub drop_all-append : (xs ys : List A) → drop (length xs) (xs ++ ys) ≡ ys
  drop_all-append [] ys = refl
  drop_all-append (x ∷ xs) ys = drop_all-append xs ys

module _ {ℓ} {A : Type ℓ} where
  -- a write to one of several lists changes the total by the difference
  pub length-concat-set :
      (xss : List (List A)) (i : ℕ) (v : List A)
      → i < length xss
      → length (concat (set xss i v)) + length (get_or xss i []) ≡ length (concat xss) + length v
  length-concat-set [] i v h = absurd (omega arith)
  length-concat-set (xs ∷ xss) zero v h =
      omega (arith, length-append v (concat xss), length-append xs (concat xss))
  length-concat-set (xs ∷ xss) (suc i) v h = omega (
    arith,
    length-append xs (concat xss),
    length-append xs (concat (set xss i v)),
    length-concat-set xss i v (omega arith),
  )

  pub concat-replicate : (n : ℕ) → concat {A = A} (replicate n []) ≡ []
  concat-replicate zero = refl
  concat-replicate (suc n) = concat-replicate n

unfoldable pub occurrences : ℕ → List ℕ → ℕ
occurrences q [] = 0
occurrences q (x ∷ c) = (if x == q then 1 else 0) + occurrences q c

pub occurrences-append :
    (q : ℕ) (a b : List ℕ) → occurrences q (a ++ b) ≡ occurrences q a + occurrences q b
unfolding occurrences
occurrences-append q [] b = ground arith
occurrences-append q (x ∷ a) b = ground (arith, occurrences-append q a b)

pub occurrences-set :
    (q : ℕ) (xs : List ℕ) (i v : ℕ)
    → i < length xs
    → occurrences q (set xs i v) + (if get_or xs i 0 == q then 1 else 0)
      ≡ occurrences q xs + (if v == q then 1 else 0)
unfolding occurrences
occurrences-set q [] i v h = absurd (omega arith)
occurrences-set q (x ∷ xs) zero v h = omega arith
occurrences-set q (x ∷ xs) (suc i) v h = omega (arith, occurrences-set q xs i v (omega arith))
