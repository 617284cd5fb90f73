-- ===== src/Regex/Loops.antt =====
-- rgxb_repetition, rgxb_at_least_one and rgxb_one_or_none of src/stdlib/regex.c.
use lanky.Regex.Slots.{
  slot, dangles, dangles-append, patch_c, patch_at, needed, Inside, Built, old-dangles, Nat-cases,
  patch_old, Filled-part, or_false, weaker, Inside-patched,
}
use lanky.Regex.Joined.{added, added_old, added_new, split_state}
use lanky.Prelude.{
  ℕ, ◌+◌, ◌≤◌, ◌<◌, ◌≡◌, refl, sym, ap, ◌∙◌, Bool, true, false, [], ◌∷◌, ◌++◌, ◌==◌, if◌then◌else◌,
  ◌⊎◌, inl, inr, Bool-cases, ==_refl, arith,
}
use lanky.Regex.{Ast, Code, State, Store, Fragment, patch, build_state, build_one_or_none}
use lanky.Regex.Language.{Wired, around}

half_split :
    {hi x : ℕ} (n : ℕ)
    → Inside hi x
    → (a : Bool) → (dangles ((n, true) ∷ []) n a ≡ true) ⊎ Inside hi (slot (split_state x 0) a)
half_split n inside true = inl (rw (==_refl n) refl)
half_split n inside false = inr inside

-- A split state behind a pattern, which the pattern leads back to.
pub loop-Built :
    {p : Ast} (p' : Ast) {store store₁ : Store} {e : Fragment} (start : ℕ)
    → Built p store e store₁
    → (store.state_count < start) × (start ≤ store₁.state_count + 1)
    → ((final : ℕ → State) (t : ℕ)
        → (final (store₁.state_count + 1)).c ≡ Code.split
        → (final (store₁.state_count + 1)).out ≡ e.start
        → (final (store₁.state_count + 1)).out_alt ≡ t
        → Wired final p e.start (store₁.state_count + 1)
        → Wired final p' start t)
    → Built p' store
        (record { start = start; out = (store₁.state_count + 1, true) ∷ [] })
        (record {
          states =
              patch e.out
                (store₁.state_count + 1)
                (added (store₁.state_count + 1) (split_state e.start 0) store₁.states);
          state_count = store₁.state_count + 1;
        })
loop-Built {p = p} p' {store} {store₁} {e} start h entry wire =
    let ns = store₁.state_count + 1 in
    let states₂ = added ns (split_state e.start 0) store₁.states in
    let states₃ = patch e.out ns states₂ in
    let old : (i : ℕ) → i ≤ store₁.state_count → states₂ i ≡ store₁.states i =
      λ i b. added_old ns (split_state e.start 0) store₁.states i (omega (arith, b)) in
    let at_new : states₃ ns ≡ split_state e.start 0 =
      patch_old e.out ns states₂ ns (λ a. old-dangles h ns a (inr (omega arith)))
      ∙ added_new ns (split_state e.start 0) store₁.states in
    let code : (i : ℕ) → i ≤ store₁.state_count → (states₃ i).c ≡ (store₁.states i).c =
      λ i b. patch_c e.out ns states₂ i ∙ ap (λ s. s.c) (old i b) in
    let lower : (i : ℕ)
        → i ≤ store₁.state_count
        → (a : Bool)
        → slot (states₃ i) a ≡ (if dangles e.out i a then ns else slot (store₁.states i) a) =
      λ i b a. patch_at e.out ns states₂ i a ∙ rw (old i b) refl in
    let apart : (i : ℕ) → i ≤ store₁.state_count → (i == ns) ≡ false = λ i b. ground (arith, b) in
    record {
      grows = omega (arith, h.grows);
      kept = λ i b.
          patch_old e.out ns states₂ i (λ a. old-dangles h i a (inl b))
          ∙ old i (omega (arith, b, h.grows))
          ∙ h.kept i b;
      entry = entry;
      new = λ i a d. elim (Bool-cases (i == ns)) [
        | inl same_ ↦ (ground (arith, h.grows, same_), ground (arith, same_))
        | inr other ↦ absurd (let f = rw other at d in cc)
      ];
      safe = λ i a above below n. elim (Nat-cases i store₁.state_count) [
        | inl b ↦ inr (
            Inside-patched e.out i a ns (slot (store₁.states i) a) _ store₁.state_count _
              (lower i b a) (h.safe i a above b (ap (λ c. needed c a) (sym (code i b)) ∙ n))
              (omega arith, omega arith) (omega arith))
        | inr b ↦
            let here : i ≡ ns = omega (arith, below, b) in
            rw (here, at_new) (half_split ns (omega (arith, h.entry), omega (arith, h.entry)) a)
      ];
      wired = λ final t filled.
          let (c, at) = filled.filled ns (omega (arith, h.grows)) (omega arith) in
          wire final t (c ∙ ap (λ s. s.c) at_new) (at false ∙ rw (==_refl ns, at_new) refl)
            (at true ∙ rw (==_refl ns) refl)
            (h.wired final ns (
              Filled-part (omega arith) (omega arith)
                (λ i above b. (code i b, λ a. rw (apart i b) (lower i b a))) filled));
    }

pub one_or_none-Built :
    {p : Ast} {store store₁ : Store} {e : Fragment}
    → Built p store e store₁
    → Built
        (Ast.one_or_none p)
        store
        (build_one_or_none (e, store₁)).0
        (build_one_or_none (e, store₁)).1
unfolding build_one_or_none build_state
one_or_none-Built {store = store} {store₁} {e} h =
    let ns = store₁.state_count + 1 in
    let states₂ = added ns (split_state e.start 0) store₁.states in
    let out = e.out ++ (ns, true) ∷ [] in
    let old : (i : ℕ) → i ≤ store₁.state_count → states₂ i ≡ store₁.states i =
      λ i b. added_old ns (split_state e.start 0) store₁.states i (omega (arith, b)) in
    let at_new : states₂ ns ≡ split_state e.start 0 =
      added_new ns (split_state e.start 0) store₁.states in
    let lower : (i : ℕ)
        → i ≤ store₁.state_count
        → (a : Bool) → dangles out i a ≡ dangles e.out i a =
      λ i b a.
        let f : (i == ns) ≡ false = ground (arith, b) in
        dangles-append e.out ((ns, true) ∷ []) i a ∙ rw f (or_false (dangles e.out i a)) in
    let upper : (a : Bool) → dangles out ns a ≡ dangles ((ns, true) ∷ []) ns a = λ a.
      dangles-append e.out ((ns, true) ∷ []) ns a
      ∙ rw (old-dangles h ns a (inr (omega arith))) refl in
    record {
      grows = omega (arith, h.grows);
      kept = λ i b. old i (omega (arith, b, h.grows)) ∙ h.kept i b;
      entry = (omega (arith, h.grows), omega arith);
      new = λ i a d. elim (Nat-cases i store₁.state_count) [
        | inl b ↦ let (x, y) = h.new i a (sym (lower i b a) ∙ d) in (x, omega (arith, y))
        | inr b ↦ (
          omega (arith, b, h.grows),
          elim (Bool-cases (i == ns)) [
            | inl same_ ↦ ground (arith, same_)
            | inr other ↦ absurd (
                let f = dangles-append e.out ((ns, true) ∷ []) i a in
                let g = rw (old-dangles h i a (inr b), other, d) at f in cc)
          ],
        )
      ];
      safe = λ i a above below n. elim (Nat-cases i store₁.state_count) [
        | inl b ↦
            rw (old i b, lower i b a)
              (weaker (omega arith)
                (h.safe i a above b (ap (λ s. needed s.c a) (sym (old i b)) ∙ n)))
        | inr b ↦
            let here : i ≡ ns = omega (arith, below, b) in
            rw (here, at_new, upper a)
              (half_split ns (omega (arith, h.entry), omega (arith, h.entry)) a)
      ];
      wired = λ final t filled.
          let (c, at) = filled.filled ns (omega (arith, h.grows)) (omega arith) in
          around e.start (c ∙ ap (λ s. s.c) at_new) (at false ∙ rw (upper false, ==_refl ns) refl)
            (at true ∙ rw (upper true, ==_refl ns) refl)
            (h.wired final t (
              Filled-part (omega arith) (omega arith)
                (λ i above b. (ap (λ s. s.c) (old i b), λ a. rw (old i b, lower i b a) refl))
                filled));
    }
