-- ===== src/Regex.antt =====
-- src/stdlib/regex.c: the data of the regular expressions, and the building of the automaton. A character
-- is its code, which is below 128. The address of a state is its number in the order of allocation, from
-- 1 on; 0 is NULL. A list of dangling pointers is the list of the slots that it is threaded through.
mod Language
mod Wired
mod Slots
mod Joined
mod Loops
mod Build
mod Run
mod Marks
mod Walk
mod Adding
mod Steps
mod Lists
mod Matches
mod Compiled
mod Search
mod Parse
mod Parses
mod Literal
mod Tests
use lanky.Prelude.{
  ℕ, zero, suc, ◌+◌, Bool, true, false, ◌&&◌, Option, none, some, List, [], ◌∷◌, ◌++◌, ◌==◌,
  if◌then◌else◌,
}

-- `b` is none where the code has -1
pub record Range : Type 0 where
  pub a : ℕ
  pub b : Option ℕ

pub record CharClass : Type 0 where
  pub negate : Bool
  pub ranges : List Range

-- the `c` of a leaf: a character or ANY
pub data Letter : Type 0 where
  char : ℕ → Letter
  any : Letter

pub data Ast : Type 0 where
  or : Ast → Ast → Ast
  sequence : Ast → Ast → Ast
  base : Letter → Ast
  repetition : Ast → Ast
  at_least_one : Ast → Ast
  one_or_none : Ast → Ast
  class : CharClass → Ast
  blank : Ast

-- the `c` of a state, with its `chrcls`; NONE is `nothing`
pub data Code : Type 0 where
  letter : Letter → Code
  chrcls : CharClass → Code
  split : Code
  match : Code
  nothing : Code

pub record State : Type 0 where
  pub c : Code
  pub out : ℕ
  pub out_alt : ℕ

pub record Store : Type 0 where
  pub states : ℕ → State
  pub state_count : ℕ

-- `&state->out_alt` or `&state->out`
abbrev pub Slot : Type 0
Slot = ℕ × Bool

pub record Fragment : Type 0 where
  pub start : ℕ
  pub out : List Slot

abbrev pub write_slot : (ℕ → State) → Slot → ℕ → ℕ → State
write_slot states (i, true) s j = if j == i then record (states i) { out_alt = s } else states j
write_slot states (i, false) s j = if j == i then record (states i) { out = s } else states j

unfoldable pub patch : List Slot → ℕ → (ℕ → State) → ℕ → State
patch [] s states = states
patch (p ∷ ps) s states = patch ps s (write_slot states p s)

unfoldable pub patched : List Slot → ℕ → Store → Store
unfolding patch
patched ps s store = record store { states = patch ps s store.states }

-- the state, and the store with it
unfoldable pub build_state : Code → ℕ → ℕ → Store → ℕ × Store
build_state c outa outb store =
    let n = store.state_count + 1 in
    (
      n,
      record {
        states =
            λ j. if j == n then record { c = c; out = outa; out_alt = outb } else store.states j;
        state_count = n;
      },
    )

-- a leaf: its `out` dangles
unfoldable pub build_leaf : Code → Store → Fragment × Store
unfolding build_state
build_leaf c store =
    let (s, store') = build_state c 0 0 store in
    (record { start = s; out = (s, false) ∷ [] }, store')

unfoldable pub build_or : Fragment → Fragment × Store → Fragment × Store
unfolding build_state
build_or left (right, store) =
    let (ns, store') = build_state Code.split left.start right.start store in
    (record { start = ns; out = left.out ++ right.out }, store')

unfoldable pub build_sequence : Fragment → Fragment × Store → Fragment × Store
unfolding patched
build_sequence left (right, store) =
    (record { start = left.start; out = right.out }, patched left.out right.start store)

unfoldable pub build_repetition : Fragment × Store → Fragment × Store
unfolding build_state patched
build_repetition (e, store) =
    let (s, store') = build_state Code.split e.start 0 store in
    (record { start = s; out = (s, true) ∷ [] }, patched e.out s store')

unfoldable pub build_at_least_one : Fragment × Store → Fragment × Store
unfolding build_state patched
build_at_least_one (e, store) =
    let (s, store') = build_state Code.split e.start 0 store in
    (record { start = e.start; out = (s, true) ∷ [] }, patched e.out s store')

unfoldable pub build_one_or_none : Fragment × Store → Fragment × Store
unfolding build_state
build_one_or_none (e, store) =
    let (s, store') = build_state Code.split e.start 0 store in
    (record { start = s; out = e.out ++ (s, true) ∷ [] }, store')

-- `rgxb_build`
unfoldable pub build : Ast → Store → Fragment × Store
unfolding build_leaf build_or build_sequence build_repetition build_at_least_one build_one_or_none
build (Ast.or p q) store = let (left, store') = build p store in build_or left (build q store')
build (Ast.sequence p q) store =
    let (left, store') = build p store in build_sequence left (build q store')
build (Ast.base l) store = build_leaf (Code.letter l) store
build (Ast.class cls) store = build_leaf (Code.chrcls cls) store
build (Ast.repetition p) store = build_repetition (build p store)
build (Ast.at_least_one p) store = build_at_least_one (build p store)
build (Ast.one_or_none p) store = build_one_or_none (build p store)
build Ast.blank store = build_leaf Code.nothing store
