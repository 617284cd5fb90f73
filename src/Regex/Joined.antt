-- ===== src/Regex/Joined.antt =====
-- rgxb_sequence and rgxb_or of src/stdlib/regex.c.
use lanky.Regex.Slots.{
  slot, dangles, dangles-append, patch_c, patch_at, needed, Inside, Built, old-dangles, Nat-cases,
  patch_old, Filled-part, or_false, weaker, Inside-patched,
}
use lanky.Prelude.{
  ℕ, ◌+◌, ◌≤◌, ◌<◌, ◌≡◌, refl, sym, ap, ◌∙◌, Bool, true, false, ◌++◌, ◌==◌, if◌then◌else◌, inl, inr,
  ==_refl, arith,
}
use lanky.Regex.{
  Ast, Code, State, Store, Fragment, patch, patched, build_state, build_or, build_sequence,
}
use lanky.Regex.Language.{either, then_}

pub sequence-Built :
    {p q : Ast} {store store₁ store₂ : Store} {left right : Fragment}
    → Built p store left store₁
    → Built q store₁ right store₂
    → Built
        (Ast.sequence p q)
        store
        (build_sequence left (right, store₂)).0
        (build_sequence left (right, store₂)).1
unfolding build_sequence patched
sequence-Built {store₁ = store₁} {store₂} {left} {right} h g =
    let states₃ = patch left.out right.start store₂.states in
    let old = old-dangles h in
    let lower : (i : ℕ)
        → i ≤ store₁.state_count
        → (a : Bool)
        → slot (states₃ i) a
          ≡ (if dangles left.out i a then right.start else slot (store₁.states i) a) =
      λ i b a. patch_at left.out right.start store₂.states i a ∙ rw (g.kept i b) refl in
    let upper : (i : ℕ) → store₁.state_count < i → states₃ i ≡ store₂.states i =
      λ i b. patch_old left.out right.start store₂.states i (λ a. old i a (inr b)) in
    let code : (i : ℕ) → i ≤ store₁.state_count → (states₃ i).c ≡ (store₁.states i).c =
      λ i b. patch_c left.out right.start store₂.states i ∙ ap (λ x. x.c) (g.kept i b) in
    record {
      grows = omega (arith, h.grows, g.grows);
      kept = λ i b.
          patch_old left.out right.start store₂.states i (λ a. old i a (inl b))
          ∙ g.kept i (omega (arith, b, h.grows))
          ∙ h.kept i b;
      entry = (h.entry.0, omega (arith, h.entry.1, g.grows));
      new = λ i a e. let (x, y) = g.new i a e in (omega (arith, x, h.grows), y);
      safe = λ i a above below e. elim (Nat-cases i store₁.state_count) [
        | inl b ↦ inr (
            Inside-patched left.out i a right.start (slot (store₁.states i) a) _ store₁.state_count
              _ (lower i b a) (h.safe i a above b (ap (λ c. needed c a) (sym (code i b)) ∙ e))
              (omega (arith, g.entry), g.entry.1) g.grows)
        | inr b ↦ rw (upper i b) (g.safe i a b below (ap (λ s. needed s.c a) (sym (upper i b)) ∙ e))
      ];
      wired = λ final t filled.
          then_ right.start
            (h.wired final right.start (
              Filled-part (omega arith) g.grows
                (λ i above below.
                  (code i below, λ a. rw (old-dangles g i a (inl below)) (lower i below a)))
                filled))
            (g.wired final t (
              Filled-part h.grows (omega arith)
                (λ i above below. (ap (λ x. x.c) (upper i above), λ a. rw (upper i above) refl))
                filled));
    }

-- the states with one more
abbrev pub added : ℕ → State → (ℕ → State) → ℕ → State
added n s states j = if j == n then s else states j

pub added_old :
    (n : ℕ) (s : State) (states : ℕ → State) (i : ℕ) → i < n → added n s states i ≡ states i
added_old n s states i h = let e : (i == n) ≡ false = ground (arith, h) in rw e refl

pub added_new : (n : ℕ) (s : State) (states : ℕ → State) → added n s states n ≡ s
added_new n s states = rw (==_refl n) refl

abbrev pub split_state : ℕ → ℕ → State
split_state x y = record { c = Code.split; out = x; out_alt = y }

split-Inside :
    {hi x y : ℕ} → Inside hi x → Inside hi y → (a : Bool) → Inside hi (slot (split_state x y) a)
split-Inside x y true = y
split-Inside x y false = x

pub or-Built :
    {p q : Ast} {store store₁ store₂ : Store} {left right : Fragment}
    → Built p store left store₁
    → Built q store₁ right store₂
    → Built (Ast.or p q) store (build_or left (right, store₂)).0 (build_or left (right, store₂)).1
unfolding build_or build_state
or-Built {store = store} {store₁} {store₂} {left} {right} h g =
    let ns = store₂.state_count + 1 in
    let new_state = split_state left.start right.start in
    let states₃ = added ns new_state store₂.states in
    let below₂ : (i : ℕ) → i ≤ store₂.state_count → states₃ i ≡ store₂.states i =
      λ i b. added_old ns new_state store₂.states i (omega (arith, b)) in
    let below₁ : (i : ℕ) → i ≤ store₁.state_count → states₃ i ≡ store₁.states i =
      λ i b. below₂ i (omega (arith, b, g.grows)) ∙ g.kept i b in
    let at_new : states₃ ns ≡ new_state = added_new ns new_state store₂.states in
    let first : (i : ℕ)
        → i ≤ store₁.state_count
        → (a : Bool) → dangles (left.out ++ right.out) i a ≡ dangles left.out i a =
      λ i b a.
        dangles-append left.out right.out i a
        ∙ rw (old-dangles g i a (inl b)) (or_false (dangles left.out i a)) in
    let second : (i : ℕ)
        → store₁.state_count < i
        → (a : Bool) → dangles (left.out ++ right.out) i a ≡ dangles right.out i a =
      λ i b a. dangles-append left.out right.out i a ∙ rw (old-dangles h i a (inr b)) refl in
    let neither : (a : Bool) → dangles (left.out ++ right.out) ns a ≡ false =
      λ a. second ns (omega (arith, g.grows)) a ∙ old-dangles g ns a (inr (omega arith)) in
    record {
      grows = omega (arith, h.grows, g.grows);
      kept = λ i b. below₁ i (omega (arith, b, h.grows)) ∙ h.kept i b;
      entry = (omega (arith, h.grows, g.grows), omega arith);
      new = λ i a e. elim (Nat-cases i store₁.state_count) [
        | inl b ↦ let (x, y) = h.new i a (sym (first i b a) ∙ e) in (x, omega (arith, y, g.grows))
        | inr b ↦
            let (x, y) = g.new i a (sym (second i b a) ∙ e) in
            (omega (arith, x, h.grows), omega (arith, y))
      ];
      safe = λ i a above below e. elim (Nat-cases i store₁.state_count) [
        | inl b ↦
            rw (below₁ i b, first i b a)
              (weaker (omega (arith, g.grows))
                (h.safe i a above b (ap (λ s. needed s.c a) (sym (below₁ i b)) ∙ e)))
        | inr b ↦ elim (Nat-cases i store₂.state_count) [
          | inl b' ↦
              rw (below₂ i b', second i b a)
                (weaker (omega arith)
                  (g.safe i a b b' (ap (λ s. needed s.c a) (sym (below₂ i b')) ∙ e)))
          | inr b' ↦
              let here : i ≡ ns = omega (arith, below, b') in
              inr (
                rw (here, at_new)
                  (split-Inside (omega (arith, h.entry), omega (arith, h.entry, g.grows))
                    (omega (arith, g.entry), omega (arith, g.entry)) a))
        ]
      ];
      wired = λ final t filled.
          let (c, at) = filled.filled ns (omega (arith, h.grows, g.grows)) (omega arith) in
          either left.start right.start (c ∙ ap (λ s. s.c) at_new)
            (at false ∙ rw (neither false, at_new) refl) (at true ∙ rw (neither true, at_new) refl)
            (h.wired final t (
              Filled-part (omega arith) (omega (arith, g.grows))
                (λ i above b. (ap (λ s. s.c) (below₁ i b), λ a. rw (below₁ i b, first i b a) refl))
                filled))
            (g.wired final t (
              Filled-part h.grows (omega arith)
                (λ i b b'. (ap (λ s. s.c) (below₂ i b'), λ a. rw (below₂ i b', second i b a) refl))
                filled));
    }
