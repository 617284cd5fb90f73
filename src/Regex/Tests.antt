-- ===== src/Regex/Tests.antt =====
-- src/stdlib/regex.c on small patterns.
use lanky.Prelude.{
  ℕ, ◌≡◌, refl, Bool, true, false, Option, none, some, List, [], ◌∷◌, ◌>>=◌, ◌↔◌, ◌++◌, ◌≤◌, ◌<◌,
  length,
}
use lanky.Regex.Run.{Regex, matches, search, collect_matches, test, test_ranges}
use lanky.Regex.Parse.{compile, parse}
use lanky.Regex.{Ast, Letter}
use lanky.Regex.Language.{In}
use lanky.Regex.Compiled.{compiled-matches}
use lanky.Regex.Matches.{IsRegex}
use lanky.Regex.Run.{compiled}
use lanky.Regex.Parses.{Leaves, parse-Leaves}
use lanky.Regex.Search.{search-finds}
use lanky.Regex.Literal.{IsPlain, compile-matches_literal}

abbrev answer : {A : Type 0} → Option (A × Regex) → Option A
answer none = none
answer (some (a, rx)) = some a

abbrev matches_text : List ℕ → List ℕ → Option Bool
matches_text pattern text = compile pattern >>= λ rx. answer (matches rx text)

-- "ab*" on "abb"
match_repetition : matches_text (97 ∷ 98 ∷ 42 ∷ []) (97 ∷ 98 ∷ 98 ∷ []) ≡ some true
unfolding compile matches test
match_repetition = refl

-- "a*" on the empty text
match_empty : matches_text (97 ∷ 42 ∷ []) [] ≡ some false
unfolding compile matches test
match_empty = refl

-- "(a|b)+" on "abc" and "abba"
match_group : matches_text (40 ∷ 97 ∷ 124 ∷ 98 ∷ 41 ∷ 43 ∷ []) (97 ∷ 98 ∷ 99 ∷ []) ≡ some false
unfolding compile matches test
match_group = refl

match_group_all :
    matches_text (40 ∷ 97 ∷ 124 ∷ 98 ∷ 41 ∷ 43 ∷ []) (97 ∷ 98 ∷ 98 ∷ 97 ∷ []) ≡ some true
unfolding compile matches test
match_group_all = refl

-- "abab" is found at 1 in "aba"
search_left_over :
    (compile (97 ∷ 98 ∷ 97 ∷ 98 ∷ []) >>= λ rx. answer (search rx (97 ∷ 98 ∷ 97 ∷ [])))
    ≡ some (some 1)
unfolding compile search test
search_left_over = refl

-- "a(bc)?" in "abx": the match is said to be two characters long
collect_too_long :
    (compile (97 ∷ 40 ∷ 98 ∷ 99 ∷ 41 ∷ 63 ∷ []) >>= λ rx.
    answer (collect_matches rx (97 ∷ 98 ∷ 120 ∷ [])))
    ≡ some (0 ∷ 2 ∷ [])
unfolding compile collect_matches test
collect_too_long = refl

-- after the empty text, "a" does not match "a"
match_after_empty :
    (compile (97 ∷ []) >>= λ rx. matches rx [] >>= λ (b, rx'). answer (matches rx' (97 ∷ [])))
    ≡ some false
unfolding compile matches test
match_after_empty = refl

-- "[a-c_]x" on "bx"
match_class : matches_text (91 ∷ 97 ∷ 45 ∷ 99 ∷ 95 ∷ 93 ∷ 120 ∷ []) (98 ∷ 120 ∷ []) ≡ some true
unfolding compile matches test test_ranges
match_class = refl

-- "a*"
abbrev many : Ast
many = Ast.repetition (Ast.base (Letter.char 97))

compiled-matches_example :
    (b : Bool) × (rx' : Regex) × (matches (record (compiled many) { flags = 2 }) (65 ∷ 97 ∷ [])
      ≡ some (b, rx'))
    × ((b ≡ true) ↔ In (test 2) many (65 ∷ 97 ∷ []))
    × (rx'.flags ≡ 2)
    × IsRegex many rx'
compiled-matches_example = compiled-matches many 2 65 (97 ∷ [])

-- "(a|b)+"
parse-Leaves_example : Leaves 6 (parse (40 ∷ 97 ∷ 124 ∷ 98 ∷ 41 ∷ 43 ∷ []))
parse-Leaves_example =
    parse-Leaves (40 ∷ 97 ∷ 124 ∷ 98 ∷ 41 ∷ 43 ∷ [])
      (refl, refl, (refl, refl, (refl, refl, (refl, refl, (refl, refl, (refl, refl, tt))))))

abbrev is_plain : IsPlain 97
is_plain = record {
  no_bar = refl;
  no_closing = refl;
  no_opening = refl;
  no_backslash = refl;
  no_bracket = refl;
  no_star = refl;
  no_plus = refl;
  no_question = refl;
  no_dot = refl;
}

-- "aa" on "ab"
compile-matches_literal_example :
    (b : Bool) × (rx' : Regex) × ((compile (97 ∷ 97 ∷ []) >>= λ rx. matches rx (97 ∷ 98 ∷ []))
      ≡ some (b, rx'))
    × ((b ≡ true) ↔ ◌≡◌ {A = List ℕ} (97 ∷ 98 ∷ []) (97 ∷ 97 ∷ []))
compile-matches_literal_example =
    compile-matches_literal (97 ∷ 97 ∷ []) 97 (98 ∷ []) (is_plain, (is_plain, tt))

-- "a*" in "ba"
search-finds_example :
    (found : Option ℕ) × (rx' : Regex) × (search
        (record (compiled many) { flags = 0 })
        (98 ∷ 97 ∷ [])
      ≡ some (found, rx'))
    × ((before : List ℕ) (c : ℕ) (w rest : List ℕ)
        → ◌≡◌ {A = List ℕ} (98 ∷ 97 ∷ []) (before ++ c ∷ w ++ rest)
        → In (test 0) many (c ∷ w)
        → (i : ℕ) × (found ≡ some i) × (i ≤ length before))
    × ((i : ℕ) → found ≡ some i → i < length {A = ℕ} (98 ∷ 97 ∷ []))
search-finds_example = search-finds many 0 (98 ∷ 97 ∷ [])
