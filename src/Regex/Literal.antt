-- ===== src/Regex/Literal.antt =====
-- src/stdlib/regex.c from the text of a pattern without operators to its matches.
use lanky.Prelude.{
  ℕ, zero, suc, ◌+◌, ◌*◌, ◌≤◌, ◌≡◌, ◌↔◌, refl, sym, ap, ◌∙◌, Bool, true, false, not, ◌&&◌, some,
  List, [], ◌∷◌, ◌++◌, append-nil, append_assoc, ◌==◌, ◌>>=◌, length, arith,
}
use lanky.Regex.{Ast, Letter}
use lanky.Regex.Language.{In, letter, blank, both}
use lanky.Regex.Run.{Regex, test, compiled, matches}
use lanky.Regex.Compiled.{compiled-matches}
use lanky.Regex.Parse.{
  Compiler, postfix, repeated, postfixed, regex, alternative, term, base, parse, compile,
}

-- a character that stands for itself
pub record IsPlain (x : ℕ) : Type 0 where
  pub no_bar : (x == b'|') ≡ false
  pub no_closing : (x == b')') ≡ false
  pub no_opening : (x == b'(') ≡ false
  pub no_backslash : (x == 92) ≡ false
  pub no_bracket : (x == b'[') ≡ false
  pub no_star : (x == b'*') ≡ false
  pub no_plus : (x == b'+') ≡ false
  pub no_question : (x == b'?') ≡ false
  pub no_dot : (x == b'.') ≡ false

abbrev pub IsLiteral : List ℕ → Type 0
IsLiteral [] = Unit {0}
IsLiteral (x ∷ xs) = IsPlain x × IsLiteral xs

-- what `rgxc_term` makes of the characters
abbrev pub literal : Ast → List ℕ → Ast
literal p [] = p
literal p (x ∷ xs) = literal (Ast.sequence p (Ast.base (Letter.char x))) xs

abbrev state : List ℕ → Compiler
state input = record { input = input; error = false }

repeated_literal : (p : Ast) (xs : List ℕ) → IsLiteral xs → repeated p xs ≡ (p, xs)
unfolding repeated postfix
repeated_literal p [] h = refl
repeated_literal p (x ∷ xs) (h, hs) =
    rw (repeated, postfix, h.no_star, h.no_plus, h.no_question) refl

base_literal :
    (n x : ℕ) (xs : List ℕ)
    → IsPlain x
    → base (suc n) (state (x ∷ xs)) ≡ some (Ast.base (Letter.char x), state xs)
unfolding base parse
base_literal n x xs h = rw (base, h.no_opening, h.no_backslash, h.no_bracket, h.no_dot) refl

factor_literal :
    (n x : ℕ) (xs : List ℕ)
    → IsPlain x
    → IsLiteral xs
    → (base (suc n) (state (x ∷ xs)) >>= postfixed) ≡ some (Ast.base (Letter.char x), state xs)
factor_literal n x xs h hs =
    ap (λ r. r >>= postfixed) (base_literal n x xs h)
    ∙ ap (λ (q : Ast × List ℕ). some (q.0, record (state xs) { input = q.1 }))
        (repeated_literal (Ast.base (Letter.char x)) xs hs)

term_step :
    (n : ℕ) (p : Ast) (x : ℕ) (xs : List ℕ)
    → IsPlain x
    → term (suc n) p (state (x ∷ xs))
      ≡ (base n (state (x ∷ xs)) >>= postfixed >>= λ (q, c'). term n (Ast.sequence p q) c')
unfolding term parse
term_step n p x xs h =
    let goes : (not (x == b'|') && not (x == b')')) ≡ true = rw (h.no_bar, h.no_closing) refl in
    rw (term, goes) refl

term-literal :
    (n : ℕ) (p : Ast) (xs : List ℕ)
    → IsLiteral xs
    → length xs + 2 ≤ n
    → term n p (state xs) ≡ some (literal p xs, state [])
unfolding term parse
term-literal zero p xs h f = absurd (omega (arith, f))
term-literal (suc n) p [] h f = refl
term-literal (suc zero) p (x ∷ xs) h f = absurd (omega (arith, f))
term-literal (suc (suc n)) p (x ∷ xs) (h, hs) f =
    term_step (suc n) p x xs h
    ∙ ap (λ r. r >>= λ (q, c'). term (suc n) (Ast.sequence p q) c') (factor_literal n x xs h hs)
    ∙ term-literal (suc n) (Ast.sequence p (Ast.base (Letter.char x))) xs hs (omega (arith, f))

regex_literal :
    (n : ℕ) (text : List ℕ)
    → IsLiteral text
    → length text + 4 ≤ n
    → regex n (state text) ≡ some (literal Ast.blank text, state [])
unfolding regex alternative parse
regex_literal zero text h f = absurd (omega (arith, f))
regex_literal (suc zero) text h f = absurd (omega (arith, f))
regex_literal (suc (suc n)) text h f =
    ap (λ r. r >>= λ (p, c'). alternative (suc n) p c')
      (term-literal (suc n) Ast.blank text h (omega (arith, f)))

parse-literal :
    (text : List ℕ) → IsLiteral text → parse text ≡ some (literal Ast.blank text, state [])
unfolding parse
parse-literal text h = regex_literal (4 * length text + 4) text h (omega arith)

-- the words of a literal pattern behind the words of `p`
literal_iff :
    (p : Ast) (xs w : List ℕ)
    → In (test 0) (literal p xs) w ↔ ((u : List ℕ) × (w ≡ u ++ xs) × In (test 0) p u)
unfolding test
literal_iff p [] w = ((λ i. (w, sym (append-nil w), i)), (λ (u, e, i). rw (e ∙ append-nil u) i))
literal_iff p (x ∷ xs) w =
    let rest = literal_iff (Ast.sequence p (Ast.base (Letter.char x))) xs w in
    (
      (λ i. let (u, e, j) = rest.0 i in take_one u e j),
      (λ (u, e, i). rest.1 (
        u ++ x ∷ [],
        e ∙ sym (append_assoc u (x ∷ []) xs),
        both u (x ∷ []) refl i (letter (ground arith)),
      )),
    )
  where
    take_one :
        (u : List ℕ)
        → w ≡ u ++ xs
        → In (test 0) (Ast.sequence p (Ast.base (Letter.char x))) u
        → (v : List ℕ) × (w ≡ v ++ x ∷ xs) × In (test 0) p v
    take_one u e (both v t e' i (letter {c = c} h)) =
        let same : x ≡ c = ground (arith, h) in
        (v, e ∙ ap (λ z. z ++ xs) e' ∙ append_assoc v (c ∷ []) xs ∙ rw same refl, i)

words_iff : (text w : List ℕ) → In (test 0) (literal Ast.blank text) w ↔ (w ≡ text)
words_iff text w =
    let h = literal_iff Ast.blank text w in
    ((λ i. let (u, e, j) = h.0 i in from_blank u e j), (λ e. h.1 ([], e, blank)))
  where
    from_blank : (u : List ℕ) → w ≡ u ++ text → In (test 0) Ast.blank u → w ≡ text
    from_blank u e blank = e

-- A pattern without operators, compiled from its text, matches a text that is not empty exactly if it is
-- that text.
pub compile-matches_literal :
    (text : List ℕ) (c : ℕ) (input : List ℕ)
    → IsLiteral text
    → (b : Bool) × (rx' : Regex) × ((compile text >>= λ rx. matches rx (c ∷ input)) ≡ some (b, rx'))
      × ((b ≡ true) ↔ (c ∷ input ≡ text))
unfolding compile compiled
compile-matches_literal text c input h =
    let (b, rx', run, language, _, _) = compiled-matches (literal Ast.blank text) 0 c input in
    let words = words_iff text (c ∷ input) in
    (
      b,
      rx',
      rw (compile, parse-literal text h) run,
      ((λ e. words.0 (language.0 e)), (λ e. language.1 (words.1 e))),
    )
