-- ===== src/Regex/Build.antt =====
-- rgxb_build of src/stdlib/regex.c: what it allocates, and that it wires the automaton of the pattern.
use lanky.Regex.Slots.{needed, Built, leaf-Built}
use lanky.Regex.Joined.{sequence-Built, or-Built}
use lanky.Regex.Loops.{loop-Built, one_or_none-Built}
use lanky.Prelude.{◌+◌, ◌≡◌, refl, Bool, true, false, arith}
use lanky.Regex.{
  CharClass, Letter, Ast, Code, Store, patched, build_state, build_repetition, build_at_least_one,
  build,
}
use lanky.Regex.Language.{leaf, of_class, through, loop, loop_behind}

letter_only : (l : Letter) (a : Bool) → needed (Code.letter l) a ≡ true → a ≡ false
letter_only l true h = absurd cc
letter_only l false h = refl

class_only : (cls : CharClass) (a : Bool) → needed (Code.chrcls cls) a ≡ true → a ≡ false
class_only cls true h = absurd cc
class_only cls false h = refl

nothing_only : (a : Bool) → needed Code.nothing a ≡ true → a ≡ false
nothing_only true h = absurd cc
nothing_only false h = refl

-- `rgxb_build` allocates states behind the ones there are, which it does not change, and whoever fills
-- its dangling pointers with an address has an automaton for the pattern from the start to that address.
pub build-Built : (p : Ast) (store : Store) → Built p store (build p store).0 (build p store).1
unfolding build build_repetition build_at_least_one build_state patched
build-Built (Ast.or p q) store = or-Built (build-Built p store) (build-Built q (build p store).1)
build-Built (Ast.sequence p q) store =
    sequence-Built (build-Built p store) (build-Built q (build p store).1)
build-Built (Ast.base l) store =
    leaf-Built (Ast.base l) (Code.letter l) store (λ states s t c o. leaf c o) (letter_only l)
build-Built (Ast.class cls) store =
    leaf-Built (Ast.class cls) (Code.chrcls cls) store (λ states s t c o. of_class c o)
      (class_only cls)
build-Built Ast.blank store =
    leaf-Built Ast.blank Code.nothing store (λ states s t c o. through c o) nothing_only
build-Built (Ast.repetition p) store =
    let h = build-Built p store in
    loop-Built (Ast.repetition p) ((build p store).1.state_count + 1) h
      (omega (arith, h.grows), omega arith) (λ final t c o o' w. loop _ c o o' w)
build-Built (Ast.at_least_one p) store =
    let h = build-Built p store in
    loop-Built (Ast.at_least_one p) (build p store).0.start h (h.entry.0, omega (arith, h.entry))
      (λ final t c o o' w. loop_behind _ c o o' w)
build-Built (Ast.one_or_none p) store = one_or_none-Built (build-Built p store)
