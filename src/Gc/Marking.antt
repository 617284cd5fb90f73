-- ===== src/Gc/Marking.antt =====
-- gc_mark_object of src/interpreter/lky_gc.c: its recursion ends, and what it has marked is closed
-- under the references of the objects.
use lanky.Prelude.{
  ℕ, zero, suc, ◌+◌, ◌≤◌, ◌<◌, ◌≡◌, ◌≢◌, refl, true, false, ◌⊎◌, inl, inr, List, [], ◌∷◌, ◌++◌,
  ◌==◌, if◌then◌else◌, Bool-cases, arith,
}
use lanky.HashSet.{mem}
use lanky.Gc.Objects.{Heap, tagged, refs}
use lanky.Gc.{Marks, write_mark, Outcome, done, mark_list, mark_object}

abbrev pub All {ℓ} : (ℕ → Type ℓ) → List ℕ → Type ℓ
All P [] = Unit
All P (x ∷ xs) = P x × All P xs

pub All-mem {ℓ} : (P : ℕ → Type ℓ) (q : ℕ) (xs : List ℕ) → All P xs → mem q xs ≡ true → P q
unfolding mem
All-mem P q [] h e = absurd (cc)
All-mem P q (x ∷ xs) h e = elim (Bool-cases (x == q)) [
  | inl same ↦ let e' : x ≡ q = ground arith in rw e' at h.0
  | inr other ↦ All-mem P q xs h.1 (rw other at e)
]

pub All-map {ℓ κ} :
    (P : ℕ → Type ℓ) (Q : ℕ → Type κ) → ((x : ℕ) → P x → Q x) → (xs : List ℕ) → All P xs → All Q xs
All-map P Q f [] h = tt
All-map P Q f (x ∷ xs) h = (f x h.0, All-map P Q f xs h.1)

pub All-append {ℓ} : (P : ℕ → Type ℓ) (xs ys : List ℕ) → All P xs → All P ys → All P (xs ++ ys)
All-append P [] ys h k = k
All-append P (x ∷ xs) ys h k = (h.0, All-append P xs ys h.1 k)

-- how many of the addresses are not marked
unfoldable pub unmarked : Marks → List ℕ → ℕ
unmarked m [] = 0
unmarked m (x ∷ xs) = (if m x then 0 else 1) + unmarked m xs

abbrev pub Extends : Marks → Marks → Type 0
Extends m m' = (x : ℕ) → m x ≡ true → m' x ≡ true

pub unmarked-le : (m m' : Marks) (xs : List ℕ) → Extends m m' → unmarked m' xs ≤ unmarked m xs
unfolding unmarked
unmarked-le m m' [] e = omega arith
unmarked-le m m' (x ∷ xs) e = ground (arith, e x, unmarked-le m m' xs e)

write_mark-Extends : (m : Marks) (o : ℕ) → Extends m (write_mark m o true)
write_mark-Extends m o x h = ground arith

unmarked-lt :
    (m : Marks) (o : ℕ) (xs : List ℕ)
    → mem o xs ≡ true
    → m o ≡ false
    → unmarked (write_mark m o true) xs < unmarked m xs
unfolding unmarked mem
unmarked-lt m o [] h e = absurd (cc)
unmarked-lt m o (x ∷ xs) h e =
    ground
      (arith, unmarked-lt m o xs, unmarked-le m (write_mark m o true) xs (write_mark-Extends m o))

-- An address that may be marked: not NULL, and a tagged integer or one of the objects.
abbrev pub IsFine : List ℕ → ℕ → Type 0
IsFine objects o = (o ≢ 0) × ((tagged o ≡ true) ⊎ (mem o objects ≡ true))

abbrev pub IsSettled : Marks → ℕ → Type 0
IsSettled m o = (tagged o ≡ true) ⊎ (m o ≡ true)

abbrev pub IsWanted : (ℕ → Type 0) → ℕ → Type 0
IsWanted P o = tagged o ≡ false → P o

-- `objects` are the addresses of all objects. `P` is what the marked ones are to satisfy.
module _ (heap : Heap) (objects : List ℕ) (P : ℕ → Type 0) where
  -- The effect of marking the addresses `xs`.
  pub record Marked (m : Marks) (xs : List ℕ) (m' : Marks) : Type 0 where
    pub grows : Extends m m'
    pub covers : All (IsSettled m') xs
    pub closed : (x : ℕ) → m x ≡ false → m' x ≡ true → All (IsSettled m') (refs (heap x))
    pub sound : ((x : ℕ) → m x ≡ true → P x) → All (IsWanted P) xs → (x : ℕ) → m' x ≡ true → P x

  abbrev pub MarksFully : (Marks → Outcome Marks) → List ℕ → Marks → Type 0
  MarksFully run xs m = (m' : Marks) × (run m ≡ done m') × Marked m xs m'

  -- What one call on one address achieves if fewer than `n` objects are unmarked.
  abbrev pub Works : ℕ → (ℕ → Marks → Outcome Marks) → Type 0
  Works n mark =
      (o : ℕ) (m : Marks)
      → IsFine objects o
      → unmarked m objects < n
      → MarksFully (mark o) (o ∷ []) m

  IsSettled-grows :
      (m m' : Marks) → Extends m m' → (xs : List ℕ) → All (IsSettled m) xs → All (IsSettled m') xs
  IsSettled-grows m m' e = All-map (IsSettled m) (IsSettled m') step
    where
      step : (x : ℕ) → IsSettled m x → IsSettled m' x
      step x (inl t) = inl t
      step x (inr h) = inr (e x h)

  pub Marked-append :
      (m m₁ m₂ : Marks) (xs ys : List ℕ) → Marked m xs m₁ → Marked m₁ ys m₂ → Marked m (xs ++ ys) m₂
  Marked-append m m₁ m₂ xs ys a b = record {
    grows = λ x h. b.grows x (a.grows x h);
    covers = All-append (IsSettled m₂) xs ys (IsSettled-grows m₁ m₂ b.grows xs a.covers) b.covers;
    closed = λ x old new. elim (Bool-cases (m₁ x)) [
      | inl h ↦ IsSettled-grows m₁ m₂ b.grows (refs (heap x)) (a.closed x old h)
      | inr h ↦ b.closed x h new
    ];
    sound = λ before wanted. let (wx, wy) = split xs wanted in b.sound (a.sound before wx) wy;
  }
    where
      split :
          (zs : List ℕ) → All (IsWanted P) (zs ++ ys) → All (IsWanted P) zs × All (IsWanted P) ys
      split [] h = (tt, h)
      split (z ∷ zs) h = let (p, q) = split zs h.1 in ((h.0, p), q)

  pub Marked-nil : (m : Marks) → Marked m [] m
  Marked-nil m = record {
    grows = λ x h. h;
    covers = tt;
    closed = λ x old new. absurd (ground arith);
    sound = λ before wanted. before;
  }

  pub mark_list-Marked :
      (n : ℕ) (mark : ℕ → Marks → Outcome Marks)
      → Works n mark
      → (xs : List ℕ) (m : Marks) → All (IsFine objects) xs
      → unmarked m objects < n
      → MarksFully (mark_list mark xs) xs m
  unfolding mark_list
  mark_list-Marked n mark works [] m fine few = (m, refl, Marked-nil m)
  mark_list-Marked n mark works (x ∷ xs) m fine few =
      let (m₁, run₁, one) = works x m fine.0 few in
      let (m₂, run₂, rest) =
        mark_list-Marked n mark works xs m₁ fine.1
          (omega (arith, unmarked-le m m₁ objects one.grows)) in
      (m₂, rw (run₁, mark_list) run₂, Marked-append m m₁ m₂ (x ∷ []) xs one rest)

  -- The references of every object may be marked, and what satisfies `P` refers to no other.
  module _ (fine : (o : ℕ) → mem o objects ≡ true → All (IsFine objects) (refs (heap o)))
      (steps : (o : ℕ) → P o → All (IsWanted P) (refs (heap o))) where
    already : (o : ℕ) (m : Marks) → IsSettled m o → Marked m (o ∷ []) m
    already o m h = record {
      grows = λ x h. h;
      covers = (h, tt);
      closed = λ x old new. absurd (ground arith);
      sound = λ before wanted. before;
    }

    around :
        (o : ℕ) (m m' : Marks)
        → m o ≡ false
        → tagged o ≡ false
        → Marked (write_mark m o true) (refs (heap o)) m'
        → Marked m (o ∷ []) m'
    around o m m' new untagged inner =
        let here : m' o ≡ true = inner.grows o (ground arith) in
        record {
          grows = λ x h. inner.grows x (write_mark-Extends m o x h);
          covers = (inr here, tt);
          closed = λ x old now. elim (Bool-cases (x == o)) [
            | inl e ↦ let e' : x ≡ o = ground arith in rw e' inner.covers
            | inr e ↦ inner.closed x (ground arith) now
          ];
          sound = λ before wanted.
              let po : P o = wanted.0 untagged in inner.sound (with_o before po) (steps o po);
        }
      where
        with_o : ((x : ℕ) → m x ≡ true → P x) → P o → (x : ℕ) → write_mark m o true x ≡ true → P x
        with_o before po x h = elim (Bool-cases (x == o)) [
          | inl e ↦ let e' : x ≡ o = ground arith in rw e' po
          | inr e ↦ before x (rw e at h)
        ]

    -- the two ways through the function
    skips : (n o : ℕ) (m : Marks) → o ≢ 0 → IsSettled m o → mark_object heap (suc n) o m ≡ done m
    unfolding mark_object
    skips n o m ne (inl t) = ground arith
    skips n o m ne (inr h) = ground arith

    enters :
        (n o : ℕ) (m m' : Marks)
        → o ≢ 0
        → tagged o ≡ false
        → m o ≡ false
        → mark_list (mark_object heap n) (refs (heap o)) (write_mark m o true) ≡ done m'
        → mark_object heap (suc n) o m ≡ done m'
    unfolding mark_object
    enters n o m m' ne t new run =
        let zero_test : (o == 0) ≡ false = ground arith in rw (zero_test, t, new) run

    an_object : (o : ℕ) → IsFine objects o → tagged o ≡ false → mem o objects ≡ true
    an_object o (ne, inl t) u = cc
    an_object o (ne, inr h) u = h

    -- `gc_mark_object` returns if its calls may nest deeper than there are unmarked objects.
    pub mark_object-Works : (n : ℕ) → Works n (mark_object heap n)
    mark_object-Works zero o m fo few = absurd (omega arith)
    mark_object-Works (suc n) o m fo few = elim (Bool-cases (tagged o)) [
      | inl t ↦ (m, skips n o m fo.0 (inl t), already o m (inl t))
      | inr t ↦ elim (Bool-cases (m o)) [
        | inl old ↦ (m, skips n o m fo.0 (inr old), already o m (inr old))
        | inr new ↦
            let known = an_object o fo t in
            let (m', run, inner) =
              mark_list-Marked n (mark_object heap n) (mark_object-Works n) (refs (heap o))
                (write_mark m o true) (fine o known)
                (omega (arith, unmarked-lt m o objects known new)) in
            (m', enters n o m m' fo.0 t new run, around o m m' new t inner)
      ]
    ]
