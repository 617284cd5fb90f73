-- ===== src/Regex/Wired.antt =====
-- A wired automaton of src/stdlib/regex.c reads exactly the words of its pattern.
use lanky.Prelude.{
  ℕ, zero, suc, ◌≤◌, ◌≡◌, refl, sym, ap, ◌∙◌, Bool, true, false, List, [], ◌∷◌, ◌++◌, append_assoc,
  arith, ◌⊎◌, inl, inr,
}
use lanky.Regex.{CharClass, Letter, Ast, Code, State}
use lanky.Regex.Language.{
  In, letter, class, blank, left, right, both, end, more, some_, skip, take, Accepts, final, empty,
  split, split_alt, read, Accepted, Wired, leaf, of_class, through, either, then_, loop,
  loop_behind, around,
}

-- A state without a character takes none.
pub record IsSilent (test : Code → ℕ → Bool) : Type 0 where
  pub no_split : (c : ℕ) → test Code.split c ≡ false
  pub no_match : (c : ℕ) → test Code.match c ≡ false
  pub no_nothing : (c : ℕ) → test Code.nothing c ≡ false

pub at_least_one-repetition :
    {test : Code → ℕ → Bool} {p : Ast} {w : List ℕ}
    → In test (Ast.at_least_one p) w
    → In test (Ast.repetition p) w
at_least_one-repetition (some_ u v e h k) = more u v e h k

module _ {test : Code → ℕ → Bool} {states : ℕ → State} where
  -- a step from a split state
  go :
      (s x : ℕ) {w : List ℕ}
      → (states s).c ≡ Code.split
      → (states s).out ≡ x
      → Accepted test states x w
      → Accepted test states s w
  go s x c o (k, h) = (suc k, split c (rw o h))

  go_alt :
      (s x : ℕ) {w : List ℕ}
      → (states s).c ≡ Code.split
      → (states s).out_alt ≡ x
      → Accepted test states x w
      → Accepted test states s w
  go_alt s x c o (k, h) = (suc k, split_alt c (rw o h))

  -- a word that is read in two parts
  again :
      (s : ℕ) (u v x : List ℕ) {w : List ℕ}
      → w ≡ u ++ v
      → Accepted test states s (u ++ (v ++ x))
      → Accepted test states s (w ++ x)
  again s u v x e h = rw (e, append_assoc u v x) h

  -- Behind a word of the pattern, whatever is accepted from the way out is accepted.
  pub In-Accepted :
      {p : Ast} {s t : ℕ} {u : List ℕ} {v : List ℕ}
      → Wired states p s t
      → In test p u
      → Accepted test states t v
      → Accepted test states s (u ++ v)
  In-Accepted {s = s} (leaf c o) (letter h) (k, a) = (suc k, read (rw c h) (rw o a))
  In-Accepted (of_class c o) (class h) (k, a) = (suc k, read (rw c h) (rw o a))
  In-Accepted (through c o) blank (k, a) = (suc k, empty c (rw o a))
  In-Accepted {s = s} (either x y c o o' h h') (left i) a = go s x c o (In-Accepted h i a)
  In-Accepted {s = s} (either x y c o o' h h') (right i) a = go_alt s y c o' (In-Accepted h' i a)
  In-Accepted {s = s} {v = x} (then_ m h h') (both u v e i i') a =
      again s u v x e (In-Accepted h i (In-Accepted h' i' a))
  In-Accepted {s = s} {t} (loop e c o o' h) end a = go_alt s t c o' a
  In-Accepted {s = s} {v = y} (loop x c o o' h) (more u v e i i') a =
      again s u v y e (go s x c o (In-Accepted h i (In-Accepted (loop x c o o' h) i' a)))
  In-Accepted {s = s} {v = y} (loop_behind x c o o' h) (some_ u v e i i') a =
      again s u v y e (In-Accepted h i (In-Accepted (loop s c o o' h) i' a))
  In-Accepted {s = s} {t} (around e c o o' h) skip a = go_alt s t c o' a
  In-Accepted {s = s} (around e c o o' h) (take i) a = go s e c o (In-Accepted h i a)

apart : {b : Bool} → b ≡ true → b ≡ false → ⊥
apart h g = absurd cc

module _ (test : Code → ℕ → Bool) (states : ℕ → State) where
  -- An accepted word begins with a word of the pattern, and the rest is accepted from the way out.
  pub record Parts (p : Ast) (t k : ℕ) (w : List ℕ) : Type 0 where
    pub word : List ℕ
    pub rest : List ℕ
    pub steps : ℕ
    pub whole : w ≡ word ++ rest
    pub fewer : steps ≤ k
    pub of_pattern : In test p word
    pub onward : Accepts test states steps t rest

  Parts-map :
      {p q : Ast} {t k : ℕ} {w : List ℕ}
      → ((u : List ℕ) → In test p u → In test q u)
      → Parts p t k w
      → Parts q t (suc k) w
  Parts-map f h = record {
    word = h.word;
    rest = h.rest;
    steps = h.steps;
    whole = h.whole;
    fewer = omega (arith, h.fewer);
    of_pattern = f h.word h.of_pattern;
    onward = h.onward;
  }

  -- two parts after each other
  Parts-join :
      {p q r : Ast} {m t k : ℕ} {w : List ℕ} (h : Parts p m k w)
      → ((u v : List ℕ) → In test p u → In test q v → In test r (u ++ v))
      → Parts q t h.steps h.rest
      → Parts r t k w
  Parts-join h f g = record {
    word = h.word ++ g.word;
    rest = g.rest;
    steps = g.steps;
    whole = h.whole ∙ ap (λ z. h.word ++ z) g.whole ∙ sym (append_assoc h.word g.word g.rest);
    fewer = omega (arith, h.fewer, g.fewer);
    of_pattern = f h.word g.word h.of_pattern g.of_pattern;
    onward = g.onward;
  }

  Parts-suc : {p : Ast} {t k : ℕ} {w : List ℕ} → Parts p t k w → Parts p t (suc k) w
  Parts-suc = Parts-map (λ u h. h)

  -- nothing of the pattern is read
  Parts-nil :
      {p : Ast} (t k : ℕ) (w : List ℕ)
      → In test p []
      → Accepts test states k t w
      → Parts p t (suc k) w
  Parts-nil t k w h a = record {
    word = [];
    rest = w;
    steps = k;
    whole = refl;
    fewer = omega arith;
    of_pattern = h;
    onward = a;
  }

  module _ (silent : IsSilent test) where
    -- what follows a split state
    split_cases :
        {k s x y : ℕ} {w : List ℕ}
        → (states s).c ≡ Code.split
        → (states s).out ≡ x
        → (states s).out_alt ≡ y
        → Accepts test states k s w
        → (j : ℕ) × (suc j ≡ k) × (Accepts test states j x w ⊎ Accepts test states j y w)
    split_cases c o o' (final c') = absurd cc
    split_cases c o o' (empty c' a) = absurd cc
    split_cases c o o' (split c' a) = (_, refl, inl (rw o at a))
    split_cases c o o' (split_alt c' a) = (_, refl, inr (rw o' at a))
    split_cases c o o' (read h a) = absurd (apart (rw c at h) (silent.no_split _))

    repeated :
        {p : Ast} {s t : ℕ} (e : ℕ)
        → (states s).c ≡ Code.split
        → (states s).out ≡ e
        → (states s).out_alt ≡ t
        → ((k : ℕ) (w : List ℕ) → Accepts test states k e w → Parts p s k w)
        → (n k : ℕ) (w : List ℕ) → k ≤ n
        → Accepts test states k s w
        → Parts (Ast.repetition p) t k w
    repeated e c o o' step zero k w le a =
        let (j, same, next) = split_cases c o o' a in absurd (omega (arith, le, same))
    repeated {t = t} e c o o' step (suc n) k w le a =
        let (j, same, next) = split_cases c o o' a in
        rw (sym same) (elim next [
          | inr a' ↦ Parts-nil t j w end a'
          | inl a' ↦
              let h = step j w a' in
              Parts-suc (
                Parts-join h (λ u v i i'. more u v refl i i')
                  (repeated e c o o' step n h.steps h.rest (omega (arith, le, same, h.fewer))
                    h.onward))
        ])

    leaf_parts :
        {l : Letter} {s t : ℕ}
        → (states s).c ≡ Code.letter l
        → (states s).out ≡ t
        → (k : ℕ) (w : List ℕ) → Accepts test states k s w
        → Parts (Ast.base l) t k w
    leaf_parts c o k w (final c') = absurd cc
    leaf_parts c o k w (empty c' a) = absurd cc
    leaf_parts c o k w (split c' a) = absurd cc
    leaf_parts c o k w (split_alt c' a) = absurd cc
    leaf_parts c o k w (read {c = x} h a) = record {
      word = x ∷ [];
      rest = _;
      steps = _;
      whole = refl;
      fewer = omega arith;
      of_pattern = letter (rw c at h);
      onward = rw o at a;
    }

    class_parts :
        {cls : CharClass} {s t : ℕ}
        → (states s).c ≡ Code.chrcls cls
        → (states s).out ≡ t
        → (k : ℕ) (w : List ℕ) → Accepts test states k s w
        → Parts (Ast.class cls) t k w
    class_parts c o k w (final c') = absurd cc
    class_parts c o k w (empty c' a) = absurd cc
    class_parts c o k w (split c' a) = absurd cc
    class_parts c o k w (split_alt c' a) = absurd cc
    class_parts c o k w (read {c = x} h a) = record {
      word = x ∷ [];
      rest = _;
      steps = _;
      whole = refl;
      fewer = omega arith;
      of_pattern = class (rw c at h);
      onward = rw o at a;
    }

    through_parts :
        {s t : ℕ}
        → (states s).c ≡ Code.nothing
        → (states s).out ≡ t
        → (k : ℕ) (w : List ℕ) → Accepts test states k s w
        → Parts Ast.blank t k w
    through_parts c o k w (final c') = absurd cc
    through_parts c o k w (empty c' a) = Parts-nil _ _ w blank (rw o at a)
    through_parts c o k w (split c' a) = absurd cc
    through_parts c o k w (split_alt c' a) = absurd cc
    through_parts c o k w (read h a) = absurd (apart (rw c at h) (silent.no_nothing _))

    pub Accepts-In :
        {p : Ast} {s t : ℕ}
        → Wired states p s t
        → (k : ℕ) (w : List ℕ) → Accepts test states k s w
        → Parts p t k w
    Accepts-In (leaf c o) k w a = leaf_parts c o k w a
    Accepts-In (of_class c o) k w a = class_parts c o k w a
    Accepts-In (through c o) k w a = through_parts c o k w a
    Accepts-In (either x y c o o' h h') k w a =
        let (j, same, next) = split_cases c o o' a in
        rw (sym same) (elim next [
          | inl a' ↦ Parts-map (λ u i. left i) (Accepts-In h j w a')
          | inr a' ↦ Parts-map (λ u i. right i) (Accepts-In h' j w a')
        ])
    Accepts-In (then_ m h h') k w a =
        let first = Accepts-In h k w a in
        Parts-join first (λ u v i i'. both u v refl i i')
          (Accepts-In h' first.steps first.rest first.onward)
    Accepts-In (loop e c o o' h) k w a = repeated e c o o' (Accepts-In h) k k w (omega arith) a
    Accepts-In (loop_behind x c o o' h) k w a =
        let first = Accepts-In h k w a in
        Parts-join first (λ u v i i'. some_ u v refl i i')
          (repeated _ c o o' (Accepts-In h) first.steps first.steps first.rest (omega arith)
            first.onward)
    Accepts-In {t = t} (around e c o o' h) k w a =
        let (j, same, next) = split_cases c o o' a in
        rw (sym same) (elim next [
          | inl a' ↦ Parts-map (λ u i. take i) (Accepts-In h j w a')
          | inr a' ↦ Parts-nil t j w skip a'
        ])
