-- ===== src/Regex/Compiled.antt =====
-- rgx_compile and rgx_matches of src/stdlib/regex.c together.
use lanky.Prelude.{
  ℕ, ◌+◌, ◌≤◌, ◌≡◌, ◌↔◌, refl, sym, ap, ◌∙◌, Bool, true, some, List, ◌∷◌, inl, inr, if◌then◌else◌,
  arith,
}
use lanky.Regex.{Ast, Code, State, Store, build_state, patch, patched, build}
use lanky.Regex.Language.{In}
use lanky.Regex.Slots.{
  slot, dangles, needed, old-dangles, patch_c, patch_at, patch_old, Inside-patched, Nat-cases,
}
use lanky.Regex.Build.{build-Built}
use lanky.Regex.Joined.{added, added_old, added_new}
use lanky.Regex.Matches.{IsRegex, matches-In}
use lanky.Regex.Run.{test, Regex, compiled, matches}

-- no states
abbrev empty_store : Store
empty_store = record {
  states = λ i. record { c = Code.nothing; out = 0; out_alt = 0 };
  state_count = 0;
}

pub compiled-IsRegex :
    (head : Ast) (flags : ℕ) → IsRegex head (record (compiled head) { flags = flags })
unfolding compiled build_state patched
compiled-IsRegex head flags =
    let built = build-Built head empty_store in
    let frag = (build head empty_store).0 in
    let store = (build head empty_store).1 in
    let match = store.state_count + 1 in
    let last : State = record { c = Code.match; out = 0; out_alt = 0 } in
    let states₁ = added match last store.states in
    let states₂ = patch frag.out match states₁ in
    let old : (i : ℕ) → i ≤ store.state_count → states₁ i ≡ store.states i =
      λ i b. added_old match last store.states i (omega (arith, b)) in
    let at_match : states₂ match ≡ last =
      patch_old frag.out match states₁ match (λ a. old-dangles built match a (inr (omega arith)))
      ∙ added_new match last store.states in
    let code : (i : ℕ) → i ≤ store.state_count → (states₂ i).c ≡ (store.states i).c =
      λ i b. patch_c frag.out match states₁ i ∙ ap (λ s. s.c) (old i b) in
    let lower : (i : ℕ)
        → i ≤ store.state_count
        → (a : Bool)
        → slot (states₂ i) a ≡ (if dangles frag.out i a then match else slot (store.states i) a) =
      λ i b a. patch_at frag.out match states₁ i a ∙ rw (old i b) refl in
    record {
      safe = record {
        leads = λ i a within n. elim (Nat-cases i store.state_count) [
          | inl b ↦
              Inside-patched frag.out i a match (slot (store.states i) a) _ store.state_count _
                (lower i b a)
                (built.safe i a within.0 b (ap (λ c. needed c a) (sym (code i b)) ∙ n))
                (omega arith, omega arith) (omega arith)
          | inr b ↦
              let here : i ≡ match = omega (arith, within, b) in
              absurd (let f = rw (here, at_match) at n in cc)
        ];
      };
      entry = (built.entry.0, omega (arith, built.entry.1));
      exit = match;
      wired = built.wired states₂ match (record { filled = λ i above b. (code i b, lower i b) });
      ends = ap (λ s. s.c) at_match;
      fresh = λ x. omega arith;
      positive = omega arith;
    }

-- A text that is not empty matches a compiled pattern, under either flag, exactly if it is a word of the
-- pattern. What is left is again a compiled pattern with the same flags, ready for the next text.
pub compiled-matches :
    (head : Ast) (flags c : ℕ) (input : List ℕ)
    → (b : Bool) × (rx' : Regex) × (matches (record (compiled head) { flags = flags }) (c ∷ input)
        ≡ some (b, rx'))
      × ((b ≡ true) ↔ In (test flags) head (c ∷ input))
      × (rx'.flags ≡ flags)
      × IsRegex head rx'
unfolding compiled
compiled-matches head flags c input =
    matches-In head (record (compiled head) { flags = flags }) c input (compiled-IsRegex head flags)
