-- ===== src/Regex/Parses.antt =====
-- The parser of src/stdlib/regex.c returns.
use lanky.Prelude.{
  ℕ, zero, suc, ◌+◌, ◌*◌, ◌≤◌, ◌≡◌, refl, Bool, true, false, not, ◌&&◌, some, List, [], ◌∷◌, ◌==◌,
  inl, inr, Bool-cases, Option-cases, length, arith,
}
use lanky.Regex.{Ast}
use lanky.Regex.Parse.{
  Compiler, Parsed, eat, postfix, repeated, regex, alternative, term, base, parse, plain,
}

-- no backslash and no opening bracket
abbrev pub IsSimple : List ℕ → Type 0
IsSimple [] = Unit {0}
IsSimple (x ∷ xs) = ((x == 92) ≡ false) × ((x == b'[') ≡ false) × IsSimple xs

-- a result that leaves at most `n` characters
abbrev pub Leaves : ℕ → Parsed Ast → Type 0
Leaves n r =
    (p : Ast) × (c : Compiler) × (r ≡ some (p, c)) × IsSimple c.input × (length c.input ≤ n)

abbrev state : List ℕ → Bool → Compiler
state input error = record { input = input; error = error }

repeated-IsSimple :
    (p : Ast) (xs : List ℕ)
    → IsSimple xs
    → IsSimple (repeated p xs).1 × (length (repeated p xs).1 ≤ length xs)
unfolding repeated
repeated-IsSimple p [] h = (tt, omega arith)
repeated-IsSimple p (x ∷ xs) h = elim (Option-cases (postfix x p)) [
  | inl e ↦ rw (repeated, e) (h, omega arith)
  | inr (p', e) ↦ let (a, b) = repeated-IsSimple p' xs h.2 in rw (repeated, e) (a, omega (arith, b))
]

eat-IsSimple :
    (x : ℕ) (xs : List ℕ) (error : Bool)
    → IsSimple xs
    → (x == 0) ≡ false
    → (c : Compiler) × (eat x (state xs error) ≡ some c)
      × IsSimple c.input
      × (length c.input ≤ length xs)
eat-IsSimple x [] error h f =
    let other : (0 == x) ≡ false = ground (arith, f) in
    rw other (state [] true, refl, tt, omega arith)
eat-IsSimple x (y ∷ ys) error h f = elim (Bool-cases (y == x)) [
  | inl e ↦ rw e (state ys error, refl, h.2, omega arith)
  | inr e ↦ rw e (state (y ∷ ys) true, refl, h, omega arith)
]

record Parses (n : ℕ) : Type 0 where
  of_regex :
      (xs : List ℕ) (error : Bool)
      → IsSimple xs
      → 4 * length xs + 3 ≤ n
      → Leaves (length xs) (regex n (state xs error))
  of_alternative :
      (p : Ast) (xs : List ℕ) (error : Bool)
      → IsSimple xs
      → 4 * length xs + 1 ≤ n
      → Leaves (length xs) (alternative n p (state xs error))
  of_term :
      (p : Ast) (xs : List ℕ) (error : Bool)
      → IsSimple xs
      → 4 * length xs + 2 ≤ n
      → Leaves (length xs) (term n p (state xs error))
  of_base :
      (x : ℕ) (xs : List ℕ) (error : Bool)
      → IsSimple (x ∷ xs)
      → 4 * length xs + 5 ≤ n
      → Leaves (length xs) (base n (state (x ∷ xs) error))

regex-Parses : (n : ℕ) → Parses n
unfolding regex alternative term base parse
regex-Parses zero = record {
  of_regex = λ xs e h f. absurd (omega (arith, f));
  of_alternative = λ p xs e h f. absurd (omega (arith, f));
  of_term = λ p xs e h f. absurd (omega (arith, f));
  of_base = λ x xs e h f. absurd (omega (arith, f));
}
regex-Parses (suc n) =
    let ih = regex-Parses n in
    record {
      of_regex = λ xs e h f.
          let (p, c, run, s, l) = ih.of_term Ast.blank xs e h (omega (arith, f)) in
          let (p', c', run', s', l') =
            ih.of_alternative p c.input c.error s (omega (arith, f, l)) in
          (p', c', rw (regex, run) run', s', omega (arith, l, l'));
      of_alternative = λ p xs e h f. alternative_cases n ih p xs e h f;
      of_term = λ p xs e h f. term_cases n ih p xs e h f;
      of_base = λ x xs e h f. base_cases n ih x xs e h f;
    }
  where
    alternative_cases :
        (n : ℕ)
        → Parses n
        → (p : Ast) (xs : List ℕ) (error : Bool) → IsSimple xs
        → 4 * length xs + 1 ≤ suc n
        → Leaves (length xs) (alternative (suc n) p (state xs error))
    alternative_cases n ih p [] e h f = (p, state [] e, refl, tt, omega arith)
    alternative_cases n ih p (x ∷ xs) e h f = elim (Bool-cases (x == b'|')) [
      | inr other ↦ rw (alternative, other) (p, state (x ∷ xs) e, refl, h, omega arith)
      | inl bar ↦
          let (q, c, run, s, l) = ih.of_regex xs e h.2 (omega (arith, f)) in
          (Ast.or p q, c, rw (alternative, bar, bar, run) refl, s, omega (arith, l))
    ]

    term_cases :
        (n : ℕ)
        → Parses n
        → (p : Ast) (xs : List ℕ) (error : Bool) → IsSimple xs
        → 4 * length xs + 2 ≤ suc n
        → Leaves (length xs) (term (suc n) p (state xs error))
    term_cases n ih p [] e h f = (p, state [] e, refl, tt, omega arith)
    term_cases n ih p (x ∷ xs) e h f = elim (Bool-cases (not (x == b'|') && not (x == b')'))) [
      | inr ends ↦ rw (term, ends) (p, state (x ∷ xs) e, refl, h, omega arith)
      | inl goes ↦
          let (q, c, run, s, l) = ih.of_base x xs e h (omega (arith, f)) in
          let (s', l') = repeated-IsSimple q c.input s in
          let (q', rest) = repeated q c.input in
          let (r, c', run', s'', l'') =
            ih.of_term (Ast.sequence p q') rest c.error s' (omega (arith, f, l, l')) in
          (r, c', rw (term, goes, run) run', s'', omega (arith, l, l', l''))
    ]

    base_cases :
        (n : ℕ)
        → Parses n
        → (x : ℕ) (xs : List ℕ) (error : Bool) → IsSimple (x ∷ xs)
        → 4 * length xs + 5 ≤ suc n
        → Leaves (length xs) (base (suc n) (state (x ∷ xs) error))
    base_cases n ih x xs e h f = elim (Bool-cases (x == b'(')) [
      | inr other ↦ rw (base, other, h.0, h.1) (plain x, state xs e, refl, h.2, omega arith)
      | inl opens ↦
          let (p, c, run, s, l) = ih.of_regex xs e h.2 (omega (arith, f)) in
          let (c', ate, s', l') = eat-IsSimple b')' c.input c.error s refl in
          (p, c', rw (base, opens, opens, run, ate) refl, s', omega (arith, l, l'))
    ]

-- A text without a backslash and an opening bracket is parsed: no read leaves it, and the calls end. What is
-- left of it is such a text too, and no longer than it.
pub parse-Leaves : (text : List ℕ) → IsSimple text → Leaves (length text) (parse text)
unfolding parse
parse-Leaves text h = (regex-Parses (4 * length text + 4)).of_regex text false h (omega arith)
