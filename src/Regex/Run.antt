-- ===== src/Regex/Run.antt =====
-- src/stdlib/regex.c: the runs of an automaton. `listit` and `listgen` are one more than in the code,
-- where they begin at -1 and 0. A result none is an access outside of the memory, or a chain of calls of
-- rgx_add_state that is longer than the automaton has states.
use lanky.Prelude.{
  ℕ, zero, suc, ◌+◌, ◌/◌, ◌%◌, Bool, true, false, not, ◌&&◌, ◌||◌, Option, none, some, List, [],
  ◌∷◌, ◌++◌, ◌==◌, ltb, leb, if◌then◌else◌, ◌>>=◌, length, drop,
}
use lanky.Regex.{Range, CharClass, Letter, Ast, Code, Store, build_state, patched, build}

-- the tests of a character

abbrev pub in_range : Range → ℕ → Bool
in_range r c = elim r.b [ none ↦ c == r.a | some b ↦ leb r.a c && leb c b ]

unfoldable pub test_ranges : Bool → List Range → ℕ → Bool
test_ranges negate [] c = negate
test_ranges negate (r ∷ rs) c = if in_range r c then not negate else test_ranges negate rs c

abbrev pub test_class : CharClass → ℕ → Bool
test_class cls c = test_ranges cls.negate cls.ranges c

abbrev pub lower_case : ℕ → Bool
lower_case c = leb 97 c && leb c 122

abbrev pub upper_case : ℕ → Bool
upper_case c = leb 65 c && leb c 90

abbrev pub lower : ℕ → ℕ
lower c = if lower_case c then c else c + 32

-- RGX_GLOBAL and RGX_IGNORE_CASE
abbrev pub global : ℕ → Bool
global flags = flags % 2 == 1

abbrev pub ignore_case : ℕ → Bool
ignore_case flags = flags / 2 % 2 == 1

-- `rgx_test`
unfoldable pub test : ℕ → Code → ℕ → Bool
test flags (Code.letter Letter.any) c = true
test flags (Code.letter (Letter.char x)) c =
    if ignore_case flags && (lower_case c || upper_case c) then lower x == lower c else x == c
test flags (Code.chrcls cls) c = test_class cls c
test flags _ c = false

pub record Regex : Type 0 where
  pub start : ℕ
  pub store : Store
  pub listit : ℕ → ℕ
  pub listgen : ℕ
  pub matched : Bool
  pub flags : ℕ

-- the part of `rgx_compile` behind the parser
unfoldable pub compiled : Ast → Regex
unfolding build build_state patched
compiled head =
    let (frag, store) = build head (record {
      states = λ i. record { c = Code.nothing; out = 0; out_alt = 0 };
      state_count = 0;
    }) in
    let (match, store') = build_state Code.match 0 0 store in
    record {
      start = frag.start;
      store = patched frag.out match store';
      listit = λ s. 0;
      listgen = 1;
      matched = false;
      flags = 0;
    }

-- what `rgx_add_state` writes: the marks, the list and `regex->matched`
pub record Walk : Type 0 where
  pub listit : ℕ → ℕ
  pub mem : List ℕ
  pub found : Bool

module _ (store : Store) (gen : ℕ) where
  abbrev pub marked : Walk → ℕ → Bool
  marked w s = w.listit s == gen

  abbrev pub mark : ℕ → Walk → Walk
  mark s w = record w { listit = λ j. if j == s then gen else w.listit j }

  -- `list->mem[list->ct++]`
  unfoldable pub append : ℕ → Walk → Option Walk
  append s w =
      if ltb (length w.mem) store.state_count
      then some (record w { mem = w.mem ++ s ∷ [] })
      else none

  unfoldable pub spread : (ℕ → Walk → Option Walk) → ℕ → Code → ℕ → ℕ → Walk → Option Walk
  unfolding append
  spread add s Code.split out out_alt w = add out w >>= add out_alt
  spread add s Code.nothing out out_alt w = add out w
  spread add s Code.match out out_alt w = append s w >>= λ w'. some (record w' { found = true })
  spread add s (Code.letter l) out out_alt w = append s w
  spread add s (Code.chrcls cls) out out_alt w = append s w

  unfoldable pub inside : ℕ → Bool
  inside s = ltb 0 s && leb s store.state_count

  -- `rgx_add_state`
  unfoldable pub add_state : ℕ → ℕ → Walk → Option Walk
  unfolding spread inside
  add_state zero s w = none
  add_state (suc n) s w = elim (inside s) [
    | false ↦ none
    | true ↦ elim (marked w s) [
      | true ↦ some w
      | false ↦
          spread (add_state n) s (store.states s).c (store.states s).out (store.states s).out_alt
            (mark s w)
    ]
  ]

  unfoldable pub add : ℕ → Walk → Option Walk
  unfolding add_state
  add s w = add_state (store.state_count + 1) s w

  -- the loop of `rgx_step`
  unfoldable pub step_each : (Code → ℕ → Bool) → ℕ → List ℕ → Walk → Option Walk
  unfolding add
  step_each takes c [] w = some w
  step_each takes c (s ∷ ss) w = elim (takes (store.states s).c c) [
    | true ↦ add (store.states s).out w >>= step_each takes c ss
    | false ↦ step_each takes c ss w
  ]

-- `rgx_add_state(regex, list, regex->start)`
unfoldable pub add_start : Regex → List ℕ → Option (List ℕ × Regex)
unfolding add
add_start rx list =
    add rx.store rx.listgen rx.start (record { listit = rx.listit; mem = list; found = rx.matched })
    >>= λ w. some (w.mem, record rx { listit = w.listit; matched = w.found })

-- `rgx_step` and the exchange of the lists
unfoldable pub step : ℕ → List ℕ → Regex → Option (List ℕ × Regex)
unfolding step_each test
step c list rx =
    step_each rx.store (rx.listgen + 1) (test rx.flags) c list
      (record { listit = rx.listit; mem = []; found = false })
    >>= λ w.
        some (w.mem, record rx { listit = w.listit; listgen = rx.listgen + 1; matched = w.found })

unfoldable pub reset_all : Regex → Regex
reset_all rx = record rx { listit = λ s. 1 }

-- the loop of `rgx_matches`
unfoldable pub run : List ℕ → List ℕ → Regex → Option Regex
unfolding step
run [] list rx = some rx
run (c ∷ input) list rx = step c list rx >>= λ (list', rx'). run input list' rx'

unfoldable pub matches : Regex → List ℕ → Option (Bool × Regex)
unfolding add_start run reset_all
matches rx input = add_start rx [] >>= λ (list, rx₁).
    run input list (record rx₁ { matched = false }) >>= λ rx₂. some (rx₂.matched, reset_all rx₂)

-- the inner loop of `rgx_search`
unfoldable pub search_at : List ℕ → List ℕ → Regex → Option (Bool × List ℕ × Regex)
unfolding step
search_at [] list rx = some (false, list, rx)
search_at (c ∷ input) list rx = step c list rx >>= λ (list', rx'). elim rx'.matched [
  | true ↦ some (true, list', rx')
  | false ↦ elim list' [ [] ↦ some (false, [], rx') | s ∷ ss ↦ search_at input (s ∷ ss) rx' ]
]

unfoldable pub search_from : ℕ → List ℕ → List ℕ → Regex → Option (Option ℕ × Regex)
unfolding add_start search_at reset_all
search_from idx [] list rx = some (none, reset_all rx)
search_from idx (c ∷ input) list rx = add_start rx list >>= λ (list₁, rx₁).
    search_at (c ∷ input) list₁ rx₁ >>= λ (hit, list₂, rx₂). elim hit [
      | true ↦ some (some idx, reset_all rx₂)
      | false ↦ search_from (suc idx) input list₂ rx₂
    ]

-- `rgx_search`; the index is none for -1
unfoldable pub search : Regex → List ℕ → Option (Option ℕ × Regex)
unfolding search_from add_start
search rx input = add_start rx [] >>= λ (list, rx'). search_from 0 input list rx'

-- how the inner loop of `rgx_collect_matches` ends: at `len`, with the lists run empty or at the end of the
-- text, and whether there was a match
pub record Attempt : Type 0 where
  pub emptied : Bool
  pub hit : Bool
  pub len : ℕ
  pub list : List ℕ
  pub regex : Regex

unfoldable pub collect_at : List ℕ → ℕ → Bool → List ℕ → Regex → Option Attempt
unfolding step
collect_at [] len hit list rx =
    some (record { emptied = false; hit = hit; len = len; list = list; regex = rx })
collect_at (c ∷ input) len hit list rx = step c list rx >>= λ (list', rx'). elim list' [
  | [] ↦
      some (record { emptied = true; hit = hit || rx'.matched; len = len; list = []; regex = rx' })
  | s ∷ ss ↦ collect_at input (suc len) (hit || rx'.matched) (s ∷ ss) rx'
]

-- The fuel is more than the length of the text. The indices come before the -1 that ends them.
unfoldable pub collect_from : ℕ → ℕ → List ℕ → List ℕ → Regex → List ℕ → Option (List ℕ × Regex)
unfolding add_start reset_all collect_at
collect_from zero idx input list rx res = none
collect_from (suc n) idx [] list rx res = some (res, rx)
collect_from (suc n) idx (c ∷ input) list rx res = add_start (reset_all rx) list >>= λ (list₁, rx₁).
    collect_at (c ∷ input) 0 false list₁ rx₁ >>= λ t. elim t.hit [
      | false ↦ collect_from n (suc idx) input t.list t.regex res
      | true ↦ elim t.emptied [
        | true ↦ elim (global rx.flags) [
          | true ↦
              collect_from n (idx + t.len) (drop t.len (c ∷ input)) t.list t.regex
                (res ++ idx ∷ t.len ∷ [])
          | false ↦ some (res ++ idx ∷ t.len ∷ [], t.regex)
        ]
        | false ↦
            collect_from n (idx + t.len + 1) (drop t.len (c ∷ input)) t.list t.regex
              (res ++ idx ∷ t.len ∷ [])
      ]
    ]

unfoldable pub collect_matches : Regex → List ℕ → Option (List ℕ × Regex)
unfolding collect_from add_start
collect_matches rx input =
    add_start rx [] >>= λ (list, rx'). collect_from (length input + 1) 0 input list rx' []
