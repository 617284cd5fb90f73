-- ===== src/Regex/Parse.antt =====
-- src/stdlib/regex.c: the parser of the patterns. The text is what stands in front of the NUL; a result
-- none is a read behind it, or fuel that runs out.
use lanky.Prelude.{
  ℕ, zero, suc, ◌+◌, ◌*◌, Bool, true, false, not, ◌&&◌, Option, none, some, List, [], ◌∷◌, ◌++◌,
  ◌==◌, if◌then◌else◌, ◌>>=◌, length,
}
use lanky.Regex.{Range, CharClass, Letter, Ast}
use lanky.Regex.Run.{Regex, compiled}

-- `error` is set by an unexpected character; nothing reads it
pub record Compiler : Type 0 where
  pub input : List ℕ
  pub error : Bool

abbrev pub Parsed : Type 0 → Type 0
Parsed A = Option (A × Compiler)

abbrev pub peek : Compiler → ℕ
peek c = elim c.input [ [] ↦ 0 | x ∷ xs ↦ x ]

abbrev pub has_more : Compiler → Bool
has_more c = elim c.input [ [] ↦ false | x ∷ xs ↦ true ]

abbrev pub advance : Compiler → Option Compiler
advance c = elim c.input [ [] ↦ none | x ∷ xs ↦ some (record c { input = xs }) ]

abbrev pub eat : ℕ → Compiler → Option Compiler
eat expect c = if peek c == expect then advance c else some (record c { error = true })

abbrev pub next : Compiler → Parsed ℕ
next c = advance c >>= λ c'. some (peek c, c')

abbrev one : ℕ → Range
one a = record { a = a; b = none }

abbrev between : ℕ → ℕ → Range
between a b = record { a = a; b = some b }

abbrev class_of : Bool → List Range → Option CharClass
class_of negate ranges = some (record { negate = negate; ranges = ranges })

abbrev digits : List Range
digits = between b'0' b'9' ∷ []

abbrev spaces : List Range
spaces = one 32 ∷ one 9 ∷ one 10 ∷ one 11 ∷ one 12 ∷ one 13 ∷ []

abbrev word_chars : List Range
word_chars = between b'a' b'z' ∷ between b'A' b'Z' ∷ between b'0' b'9' ∷ one b'_' ∷ []

unfoldable pub predefined_class : ℕ → Option CharClass
predefined_class c =
    if c == b'd'
    then class_of false digits
    else if c == b'D'
    then class_of true digits
    else if c == b's'
    then class_of false spaces
    else if c == b'S'
    then class_of true spaces
    else if c == b'w'
    then class_of false word_chars
    else if c == b'W'
    then class_of true word_chars
    else none

-- the character, and whether it is escaped
unfoldable pub class_next : Compiler → Parsed (ℕ × Bool)
class_next c = next c >>= λ (x, c').
    if x == 92 then (next c' >>= λ (y, c''). some ((y, true), c'')) else some ((x, false), c')

-- the loop of `rgxc_class`; 0 is no character that is left
unfoldable pub class_loop : ℕ → ℕ → List Range → Compiler → Parsed (ℕ × List Range)
unfolding class_next
class_loop zero x ranges c = none
class_loop (suc n) x ranges c = elim (has_more c && not (peek c == b']')) [
  | false ↦ some ((x, ranges), c)
  | true ↦ class_next c >>= λ ((y, escape), c'). elim (y == b'-' && not escape) [
    | false ↦ class_loop n y (ranges ++ one x ∷ []) c'
    | true ↦ next c' >>= λ (z, c''). elim (peek c'' == b']') [
      | true ↦ some ((0, ranges ++ between x z ∷ []), c'')
      | false ↦ class_next c'' >>= λ ((x', _), c₃). class_loop n x' (ranges ++ between x z ∷ []) c₃
    ]
  ]
]

unfoldable pub close_class : Bool → ℕ × List Range → CharClass
close_class negate (x, ranges) = record {
  negate = negate;
  ranges = if x == 0 then ranges else ranges ++ one x ∷ [];
}

unfoldable pub class : Compiler → Parsed Ast
unfolding class_loop close_class
class c = next c >>= λ (x, c'). (if x == b'^' then next c' else some (x, c')) >>= λ (y, c'').
    class_loop (length c''.input + 1) y [] c'' >>= λ (r, c₃).
    some (Ast.class (close_class (x == b'^') r), c₃)

-- `\\` and the character behind it
unfoldable pub escaped : ℕ → Ast
unfolding predefined_class
escaped x = elim (predefined_class x) [ none ↦ Ast.base (Letter.char x) | some cls ↦ Ast.class cls ]

abbrev pub plain : ℕ → Ast
plain x = Ast.base (if x == b'.' then Letter.any else Letter.char x)

unfoldable pub postfix : ℕ → Ast → Option Ast
postfix x p =
    if x == b'*'
    then some (Ast.repetition p)
    else if x == b'+'
    then some (Ast.at_least_one p)
    else if x == b'?'
    then some (Ast.one_or_none p)
    else none

-- the loop of `rgxc_factor`
unfoldable pub repeated : Ast → List ℕ → Ast × List ℕ
unfolding postfix
repeated p [] = (p, [])
repeated p (x ∷ xs) = elim (postfix x p) [ none ↦ (p, x ∷ xs) | some p' ↦ repeated p' xs ]

abbrev pub postfixed : Ast × Compiler → Parsed Ast
postfixed (p, c) = let (p', rest) = repeated p c.input in some (p', record c { input = rest })

unfoldable mutual
  -- `rgxc_regex`
  pub regex : ℕ → Compiler → Parsed Ast
  regex zero c = none
  regex (suc n) c = term n Ast.blank c >>= λ (p, c'). alternative n p c'

  pub alternative : ℕ → Ast → Compiler → Parsed Ast
  alternative zero p c = none
  alternative (suc n) p c = elim (has_more c && (peek c == b'|')) [
    | false ↦ some (p, c)
    | true ↦ eat b'|' c >>= λ c'. regex n c' >>= λ (q, c''). some (Ast.or p q, c'')
  ]

  -- the loop of `rgxc_term`
  pub term : ℕ → Ast → Compiler → Parsed Ast
  term zero p c = none
  term (suc n) p c = elim (has_more c && not (peek c == b'|') && not (peek c == b')')) [
    | false ↦ some (p, c)
    | true ↦ base n c >>= postfixed >>= λ (q, c'). term n (Ast.sequence p q) c'
  ]

  -- `rgxc_base`
  pub base : ℕ → Compiler → Parsed Ast
  base zero c = none
  base (suc n) c = elim (peek c == b'(') [
    | true ↦ eat b'(' c >>= λ c'. regex n c' >>= λ (p, c''). eat b')' c'' >>= λ c₃. some (p, c₃)
    | false ↦ elim (peek c == 92) [
      | true ↦ eat 92 c >>= next >>= λ (x, c'). some (escaped x, c')
      | false ↦ elim (peek c == b'[') [
        | true ↦ eat b'[' c >>= class >>= λ (p, c'). eat b']' c' >>= λ c''. some (p, c'')
        | false ↦ next c >>= λ (x, c'). some (plain x, c')
      ]
    ]
  ]

-- `rgxc_regex` on a text: a call leaves at most four more to be made for each character.
unfoldable pub parse : List ℕ → Parsed Ast
unfolding regex alternative term base repeated class escaped
parse text = regex (4 * length text + 4) (record { input = text; error = false })

-- `rgx_compile`
unfoldable pub compile : List ℕ → Option Regex
unfolding parse compiled
compile text = parse text >>= λ (head, c). some (compiled head)
