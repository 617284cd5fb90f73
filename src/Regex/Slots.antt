-- ===== src/Regex/Slots.antt =====
-- rgxb_patch and the leaves of rgxb_build in src/stdlib/regex.c: which slots they write, and what it is
-- that a part of the automaton has been built.
use lanky.Prelude.{
  ℕ, ◌+◌, ◌≤◌, ◌<◌, ◌≡◌, refl, ◌∙◌, Bool, true, false, not, ◌&&◌, ◌||◌, List, [], ◌∷◌, ◌++◌, ◌==◌,
  ltb, if◌then◌else◌, ◌⊎◌, inl, inr, Bool-cases, ==_refl, arith,
}
use lanky.Regex.{
  Ast, Code, State, Store, Slot, Fragment, write_slot, patch, build_state, build_leaf,
}
use lanky.Regex.Language.{Wired}

abbrev pub slot : State → Bool → ℕ
slot s true = s.out_alt
slot s false = s.out

abbrev pub same : Bool → Bool → Bool
same true b = b
same false b = not b

-- whether a slot dangles
abbrev pub dangles : List Slot → ℕ → Bool → Bool
dangles [] i a = false
dangles ((j, b) ∷ ps) i a = ((i == j) && same b a) || dangles ps i a

pub dangles-append :
    (ps qs : List Slot) (i : ℕ) (a : Bool)
    → dangles (ps ++ qs) i a ≡ (dangles ps i a || dangles qs i a)
dangles-append [] qs i a = refl
dangles-append ((j, b) ∷ ps) qs i a = elim (Bool-cases ((i == j) && same b a)) [
  | inl e ↦ rw e refl
  | inr e ↦ rw e (dangles-append ps qs i a)
]

write_slot_c :
    (states : ℕ → State) (p : Slot) (s i : ℕ) → (write_slot states p s i).c ≡ (states i).c
write_slot_c states (j, true) s i = ground arith
write_slot_c states (j, false) s i = ground arith

write_slot_at :
    (states : ℕ → State) (j : ℕ) (b : Bool) (s i : ℕ) (a : Bool)
    → slot (write_slot states (j, b) s i) a
      ≡ (if (i == j) && same b a then s else slot (states i) a)
write_slot_at states j true s i true = ground arith
write_slot_at states j true s i false = ground arith
write_slot_at states j false s i true = ground arith
write_slot_at states j false s i false = ground arith

pub patch_c :
    (ps : List Slot) (s : ℕ) (states : ℕ → State) (i : ℕ) → (patch ps s states i).c ≡ (states i).c
unfolding patch
patch_c [] s states i = refl
patch_c (p ∷ ps) s states i = patch_c ps s (write_slot states p s) i ∙ write_slot_c states p s i

pub patch_at :
    (ps : List Slot) (s : ℕ) (states : ℕ → State) (i : ℕ) (a : Bool)
    → slot (patch ps s states i) a ≡ (if dangles ps i a then s else slot (states i) a)
unfolding patch
patch_at [] s states i a = refl
patch_at ((j, b) ∷ ps) s states i a =
    patch_at ps s (write_slot states (j, b) s) i a ∙ elim (Bool-cases (dangles ps i a)) [
      | inl e ↦ elim (Bool-cases ((i == j) && same b a)) [
        | inl e' ↦ rw (e, e') refl
        | inr e' ↦ rw (e, e') refl
      ]
      | inr e ↦ rw e (
          write_slot_at states j b s i a
          ∙ elim (Bool-cases ((i == j) && same b a)) [ inl e' ↦ rw e' refl | inr e' ↦ rw e' refl ])
    ]

-- The states from `lo + 1` to `hi` are those of `states`, with `t` in the slots that dangle.
pub record Filled (lo hi : ℕ) (states : ℕ → State) (out : List Slot) (final : ℕ → State) (t : ℕ)
    : Type 0 where
  pub filled :
      (i : ℕ)
      → lo < i
      → i ≤ hi
      → ((final i).c ≡ (states i).c)
        × ((a : Bool) → slot (final i) a ≡ (if dangles out i a then t else slot (states i) a))

-- the slots that the run reads
abbrev pub needed : Code → Bool → Bool
needed Code.split a = true
needed Code.match a = false
needed _ a = not a

abbrev pub Inside : ℕ → ℕ → Type 0
Inside hi p = (0 < p) × (p ≤ hi)

pub record Built (p : Ast) (store : Store) (frag : Fragment) (store' : Store) : Type 0 where
  pub grows : store.state_count ≤ store'.state_count
  pub kept : (i : ℕ) → i ≤ store.state_count → store'.states i ≡ store.states i
  pub entry : (store.state_count < frag.start) × (frag.start ≤ store'.state_count)
  pub new :
      (i : ℕ) (a : Bool)
      → dangles frag.out i a ≡ true
      → (store.state_count < i) × (i ≤ store'.state_count)
  pub safe :
      (i : ℕ) (a : Bool)
      → store.state_count < i
      → i ≤ store'.state_count
      → needed (store'.states i).c a ≡ true
      → (dangles frag.out i a ≡ true) ⊎ Inside store'.state_count (slot (store'.states i) a)
  pub wired :
      (final : ℕ → State) (t : ℕ)
      → Filled store.state_count store'.state_count store'.states frag.out final t
      → Wired final p frag.start t

pub old-dangles :
    {p : Ast} {store store' : Store} {frag : Fragment}
    → Built p store frag store'
    → (i : ℕ) (a : Bool) → (i ≤ store.state_count) ⊎ (store'.state_count < i)
    → dangles frag.out i a ≡ false
old-dangles {frag = frag} h i a far = elim (Bool-cases (dangles frag.out i a)) [
  | inr e ↦ e
  | inl e ↦
      let (x, y) = h.new i a e in
      absurd (elim far [ inl f ↦ omega (arith, f, x) | inr f ↦ omega (arith, f, y) ])
]

pub leaf-Built :
    (p : Ast) (c : Code) (store : Store)
    → ((states : ℕ → State) (s t : ℕ) → (states s).c ≡ c → (states s).out ≡ t → Wired states p s t)
    → ((a : Bool) → needed c a ≡ true → a ≡ false)
    → Built p store (build_leaf c store).0 (build_leaf c store).1
unfolding build_leaf build_state
leaf-Built p c store wire only = record {
  grows = omega arith;
  kept = λ i h. ground arith;
  entry = (omega arith, omega arith);
  new = λ i a h. elim (Bool-cases (i == store.state_count + 1)) [
    | inl e ↦ (ground arith, ground arith)
    | inr e ↦ absurd (let f = rw e at h in cc)
  ];
  safe = λ i a above below h.
      let hit : (i == store.state_count + 1) ≡ true = ground (arith, above, below) in
      let first : a ≡ false = only a (rw hit at h) in inl (rw (hit, first) refl);
  wired = λ final t filled.
      let (code, at) = filled.filled (store.state_count + 1) (omega arith) (omega arith) in
      let self = ==_refl (store.state_count + 1) in
      wire final (store.state_count + 1) t (code ∙ rw self refl) (at false ∙ rw self refl);
}

pub Nat-cases : (i n : ℕ) → (i ≤ n) ⊎ (n < i)
Nat-cases i n = elim (Bool-cases (ltb n i)) [
  | inl e ↦ inr (ground arith)
  | inr e ↦ inl (ground arith)
]

State-ext :
    {s t : State} → s.c ≡ t.c → slot s false ≡ slot t false → slot s true ≡ slot t true → s ≡ t
State-ext e f g = cc

pub patch_old :
    (ps : List Slot) (s : ℕ) (states : ℕ → State) (i : ℕ)
    → ((a : Bool) → dangles ps i a ≡ false)
    → patch ps s states i ≡ states i
patch_old ps s states i far =
    State-ext (patch_c ps s states i) (patch_at ps s states i false ∙ rw (far false) refl)
      (patch_at ps s states i true ∙ rw (far true) refl)

-- A part of what is filled, as it was before later writes.
pub Filled-part :
    {lo hi lo' hi' : ℕ} {states states' : ℕ → State} {out out' : List Slot} {final : ℕ → State}
    {t t' : ℕ}
    → lo ≤ lo'
    → hi' ≤ hi
    → ((i : ℕ)
        → lo' < i
        → i ≤ hi'
        → ((states i).c ≡ (states' i).c)
          × ((a : Bool)
              → (if dangles out i a then t else slot (states i) a)
                ≡ (if dangles out' i a then t' else slot (states' i) a)))
    → Filled lo hi states out final t
    → Filled lo' hi' states' out' final t'
Filled-part below above before h = record {
  filled = λ i a b.
      let (c, at) = h.filled i (omega (arith, below, a)) (omega (arith, above, b)) in
      let (c', at') = before i a b in (c ∙ c', λ x. at x ∙ at' x);
}

pub or_false : (b : Bool) → (b || false) ≡ b
or_false true = refl
or_false false = refl

pub weaker : {A : Type 0} {lo hi v : ℕ} → lo ≤ hi → A ⊎ Inside lo v → A ⊎ Inside hi v
weaker le (inl x) = inl x
weaker le (inr (l, u)) = inr (l, omega (arith, u, le))

-- A slot of a patched state leads to a state.
pub Inside-patched :
    (ps : List Slot) (i : ℕ) (a : Bool) (t v x lo hi : ℕ)
    → x ≡ (if dangles ps i a then t else v)
    → (dangles ps i a ≡ true) ⊎ Inside lo v
    → Inside hi t
    → lo ≤ hi
    → Inside hi x
Inside-patched ps i a t v x lo hi e old new le = elim (Bool-cases (dangles ps i a)) [
  | inl d ↦ let f : x ≡ t = rw d at e in rw f new
  | inr d ↦
      let f : x ≡ v = rw d at e in
      elim old [ inl d' ↦ absurd cc | inr (l, u) ↦ rw f (l, omega (arith, u, le)) ]
]
