-- ===== src/Regex/Language.antt =====
-- What a pattern of src/stdlib/regex.c means, and what its automaton accepts.
use lanky.Prelude.{ℕ, zero, suc, ◌≡◌, Bool, true, List, [], ◌∷◌, ◌++◌}
use lanky.Regex.{CharClass, Letter, Ast, Code, State}

-- the words of a pattern; `test` says which characters a leaf takes
pub data In (test : Code → ℕ → Bool) : Ast → List ℕ → Type 0 where
  letter : {l : Letter} {c : ℕ} → test (Code.letter l) c ≡ true → In test (Ast.base l) (c ∷ [])
  class :
      {cls : CharClass} {c : ℕ} → test (Code.chrcls cls) c ≡ true → In test (Ast.class cls) (c ∷ [])
  blank : In test Ast.blank []
  left : {p q : Ast} {w : List ℕ} → In test p w → In test (Ast.or p q) w
  right : {p q : Ast} {w : List ℕ} → In test q w → In test (Ast.or p q) w
  both :
      {p q : Ast} (u v : List ℕ) {w : List ℕ}
      → w ≡ u ++ v
      → In test p u
      → In test q v
      → In test (Ast.sequence p q) w
  end : {p : Ast} → In test (Ast.repetition p) []
  more :
      {p : Ast} (u v : List ℕ) {w : List ℕ}
      → w ≡ u ++ v
      → In test p u
      → In test (Ast.repetition p) v
      → In test (Ast.repetition p) w
  some_ :
      {p : Ast} (u v : List ℕ) {w : List ℕ}
      → w ≡ u ++ v
      → In test p u
      → In test (Ast.repetition p) v
      → In test (Ast.at_least_one p) w
  skip : {p : Ast} → In test (Ast.one_or_none p) []
  take : {p : Ast} {w : List ℕ} → In test p w → In test (Ast.one_or_none p) w

-- A path from the state `s` to a state MATCH that reads the word, of the given length.
pub data Accepts (test : Code → ℕ → Bool) (states : ℕ → State) : ℕ → ℕ → List ℕ → Type 0 where
  final : {s : ℕ} → (states s).c ≡ Code.match → Accepts test states zero s []
  empty :
      {k s : ℕ} {w : List ℕ}
      → (states s).c ≡ Code.nothing
      → Accepts test states k (states s).out w
      → Accepts test states (suc k) s w
  split :
      {k s : ℕ} {w : List ℕ}
      → (states s).c ≡ Code.split
      → Accepts test states k (states s).out w
      → Accepts test states (suc k) s w
  split_alt :
      {k s : ℕ} {w : List ℕ}
      → (states s).c ≡ Code.split
      → Accepts test states k (states s).out_alt w
      → Accepts test states (suc k) s w
  read :
      {k s c : ℕ} {w : List ℕ}
      → test (states s).c c ≡ true
      → Accepts test states k (states s).out w
      → Accepts test states (suc k) s (c ∷ w)

abbrev pub Accepted : (Code → ℕ → Bool) → (ℕ → State) → ℕ → List ℕ → Type 0
Accepted test states s w = (k : ℕ) × Accepts test states k s w

-- The states from `s` on are an automaton for the pattern, whose way out is `t`.
pub data Wired (states : ℕ → State) : Ast → ℕ → ℕ → Type 0 where
  leaf :
      {l : Letter} {s t : ℕ}
      → (states s).c ≡ Code.letter l
      → (states s).out ≡ t
      → Wired states (Ast.base l) s t
  of_class :
      {cls : CharClass} {s t : ℕ}
      → (states s).c ≡ Code.chrcls cls
      → (states s).out ≡ t
      → Wired states (Ast.class cls) s t
  through :
      {s t : ℕ} → (states s).c ≡ Code.nothing → (states s).out ≡ t → Wired states Ast.blank s t
  either :
      {p q : Ast} {s t : ℕ} (x y : ℕ)
      → (states s).c ≡ Code.split
      → (states s).out ≡ x
      → (states s).out_alt ≡ y
      → Wired states p x t
      → Wired states q y t
      → Wired states (Ast.or p q) s t
  then_ :
      {p q : Ast} {s t : ℕ} (m : ℕ)
      → Wired states p s m
      → Wired states q m t
      → Wired states (Ast.sequence p q) s t
  loop :
      {p : Ast} {s t : ℕ} (e : ℕ)
      → (states s).c ≡ Code.split
      → (states s).out ≡ e
      → (states s).out_alt ≡ t
      → Wired states p e s
      → Wired states (Ast.repetition p) s t
  loop_behind :
      {p : Ast} {s t : ℕ} (x : ℕ)
      → (states x).c ≡ Code.split
      → (states x).out ≡ s
      → (states x).out_alt ≡ t
      → Wired states p s x
      → Wired states (Ast.at_least_one p) s t
  around :
      {p : Ast} {s t : ℕ} (e : ℕ)
      → (states s).c ≡ Code.split
      → (states s).out ≡ e
      → (states s).out_alt ≡ t
      → Wired states p e t
      → Wired states (Ast.one_or_none p) s t
