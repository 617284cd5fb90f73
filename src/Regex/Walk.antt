-- ===== src/Regex/Walk.antt =====
-- What rgx_add_state of src/stdlib/regex.c achieves, for each `c` of a state.
use lanky.Prelude.{
  ℕ, suc, ◌+◌, ◌≤◌, ◌≡◌, refl, sym, Bool, true, false, ◌||◌, Option, some, List, [], ◌∷◌, ◌++◌,
  ◌==◌, ◌⊎◌, inl, inr, Bool-cases, ==_refl, length, length-append, arith,
}
use mathlib.Core.List.{Memᴰ}
use mathlib.Core.List.Memᴰ
use lanky.Regex.{Code, Store}
use lanky.Regex.Language.{empty, split, split_alt, Accepted}
use lanky.Regex.Slots.{Inside}
use lanky.Regex.Marks.{unmarked, unmarked-le, unmarked_mark}
use lanky.Regex.Run.{Walk, marked, mark}

or_cases : (a b : Bool) → (a || b) ≡ true → (a ≡ true) ⊎ (b ≡ true)
or_cases true b h = inl refl
or_cases false b h = inr h

or_right : (a b : Bool) → b ≡ true → (a || b) ≡ true
or_right true b h = refl
or_right false b h = h

or_left : (a b : Bool) → a ≡ true → (a || b) ≡ true
or_left true b h = refl
or_left false b h = absurd cc

module _ (store : Store) (gen : ℕ) (takes : Code → ℕ → Bool) where
  abbrev pub IsMarked : Walk → ℕ → Type 0
  IsMarked w s = marked store gen w s ≡ true

  abbrev pub free : Walk → ℕ
  free w = unmarked gen w.listit store.state_count

  -- what the mark of a state promises, by its `c`
  abbrev pub Settles : Walk → ℕ → Code → ℕ → ℕ → Type 0
  Settles w s Code.split out out_alt = IsMarked w out × IsMarked w out_alt
  Settles w s Code.nothing out out_alt = IsMarked w out
  Settles w s _ out out_alt = Memᴰ s w.mem

  abbrev pub Settled : Walk → ℕ → Type 0
  Settled w s = Settles w s (store.states s).c (store.states s).out (store.states s).out_alt

  -- a code that stands in a list
  abbrev pub Listed : Code → Type 0
  Listed Code.split = ⊥
  Listed Code.nothing = ⊥
  Listed _ = Unit {0}

  abbrev pub IsListed : List ℕ → Type 0
  IsListed list = (x : ℕ) → Memᴰ x list → Inside store.state_count x × Listed (store.states x).c

  pub record Good (w : Walk) : Type 0 where
    pub listed : IsListed w.mem
    pub flag : w.found ≡ true → (x : ℕ) × Memᴰ x w.mem × ((store.states x).c ≡ Code.match)
    pub flagged : (x : ℕ) → Memᴰ x w.mem → (store.states x).c ≡ Code.match → w.found ≡ true

  pub record Walked (w : Walk) (s : ℕ) (w' : Walk) : Type 0 where
    pub grows : (x : ℕ) → IsMarked w x → IsMarked w' x
    pub here : IsMarked w' s
    pub closed : (x : ℕ) → marked store gen w x ≡ false → IsMarked w' x → Settled w' x
    pub kept : (x : ℕ) → Memᴰ x w.mem → Memᴰ x w'.mem
    pub sound :
        (x : ℕ)
        → Memᴰ x w'.mem
        → Memᴰ x w.mem
          ⊎ ((v : List ℕ) → Accepted takes store.states x v → Accepted takes store.states s v)
    pub good : Good w → Good w'
    pub lists : IsListed w.mem → IsListed w'.mem
    pub bound : ((x : ℕ) → w.listit x ≤ gen) → (x : ℕ) → w'.listit x ≤ gen
    pub room : length w'.mem + free w' ≤ length w.mem + free w

  pub Walked-free : (w : Walk) (s : ℕ) (w' : Walk) → Walked w s w' → free w' ≤ free w
  Walked-free w s w' h = unmarked-le gen w.listit w'.listit h.grows store.state_count

  abbrev pub Walks : (Walk → Option Walk) → Walk → ℕ → Type 0
  Walks run w s = (w' : Walk) × (run w ≡ some w') × Walked w s w'

  pub Settles-grows :
      (w w' : Walk) (s : ℕ) (c : Code) (out out_alt : ℕ)
      → ((x : ℕ) → IsMarked w x → IsMarked w' x)
      → ((x : ℕ) → Memᴰ x w.mem → Memᴰ x w'.mem)
      → Settles w s c out out_alt
      → Settles w' s c out out_alt
  Settles-grows w w' s Code.split out out_alt g k (x, y) = (g out x, g out_alt y)
  Settles-grows w w' s Code.nothing out out_alt g k x = g out x
  Settles-grows w w' s Code.match out out_alt g k x = k s x
  Settles-grows w w' s (Code.letter l) out out_alt g k x = k s x
  Settles-grows w w' s (Code.chrcls cls) out out_alt g k x = k s x

  mark_other : (w : Walk) (s x : ℕ) → IsMarked w x → IsMarked (mark store gen s w) x
  mark_other w s x h = elim (Bool-cases (x == s)) [ inl e ↦ rw e (==_refl gen) | inr e ↦ rw e h ]

  mark_bound :
      (w : Walk) (s : ℕ)
      → ((x : ℕ) → w.listit x ≤ gen)
      → (x : ℕ) → (mark store gen s w).listit x ≤ gen
  mark_bound w s b x = elim (Bool-cases (x == s)) [
    | inl e ↦ rw e (omega arith)
    | inr e ↦ rw e (b x)
  ]

  pub mark_here : (w : Walk) (s : ℕ) → IsMarked (mark store gen s w) s
  mark_here w s = rw (==_refl s) (==_refl gen)

  -- newly marked is `s`, or what is marked later
  mark_new :
      (w : Walk) (s x : ℕ)
      → marked store gen w x ≡ false
      → (x ≡ s) ⊎ (marked store gen (mark store gen s w) x ≡ false)
  mark_new w s x h = elim (Bool-cases (x == s)) [
    | inl e ↦ inl (ground (arith, e))
    | inr e ↦ inr (rw e h)
  ]

  pub free_mark :
      (w : Walk) (s : ℕ)
      → Inside store.state_count s
      → marked store gen w s ≡ false
      → suc (free (mark store gen s w)) ≡ free w
  free_mark w s h f = unmarked_mark gen w.listit s store.state_count h f

  -- a state that is put on the list
  unfoldable pub appended : ℕ → Bool → Walk → Walk
  appended s b w = record (mark store gen s w) { mem = w.mem ++ s ∷ []; found = b || w.found }

  append-IsListed :
      (w : Walk) (s : ℕ)
      → Inside store.state_count s
      → Listed (store.states s).c
      → IsListed w.mem
      → IsListed (w.mem ++ s ∷ [])
  append-IsListed w s inside_ listed_ l x m = elim (Memᴰ.append_cases w.mem m) [
    | inl m' ↦ l x m'
    | inr m' ↦ rw (Memᴰ.eq_of_singleton m') (inside_, listed_)
  ]

  pub append-Walked :
      (w : Walk) (s : ℕ) (b : Bool)
      → Inside store.state_count s
      → marked store gen w s ≡ false
      → Listed (store.states s).c
      → (b ≡ true → (store.states s).c ≡ Code.match)
      → ((store.states s).c ≡ Code.match → b ≡ true)
      → (Memᴰ s (appended s b w).mem → Settled (appended s b w) s)
      → Walked w s (appended s b w)
  unfolding appended
  append-Walked w s b inside_ fresh listed_ hit hit' settled = record {
    grows = mark_other w s;
    here = mark_here w s;
    closed = λ x old new. elim (mark_new w s x old) [
      | inl e ↦ rw e (settled (Memᴰ.append_right w.mem (Memᴰ.head refl)))
      | inr e ↦ absurd cc
    ];
    kept = λ x m. Memᴰ.append_left (s ∷ []) m;
    sound = λ x m. elim (Memᴰ.append_cases w.mem m) [
      | inl m' ↦ inl m'
      | inr m' ↦ inr (let e = Memᴰ.eq_of_singleton m' in λ v a. rw (sym e) a)
    ];
    good = λ g. record {
      listed = append-IsListed w s inside_ listed_ g.listed;
      flag = λ f. elim (or_cases b w.found f) [
        | inl e ↦ (s, Memᴰ.append_right w.mem (Memᴰ.head refl), hit e)
        | inr e ↦ let (x, m, c) = g.flag e in (x, Memᴰ.append_left (s ∷ []) m, c)
      ];
      flagged = λ x m c. elim (Memᴰ.append_cases w.mem m) [
        | inl m' ↦ or_right b w.found (g.flagged x m' c)
        | inr m' ↦ let e = Memᴰ.eq_of_singleton m' in or_left b w.found (hit' (rw e at c))
      ];
    };
    lists = append-IsListed w s inside_ listed_;
    bound = mark_bound w s;
    room = omega (arith, length-append w.mem (s ∷ []), free_mark w s inside_ fresh);
  }

  pub nothing-Walked :
      (w : Walk) (s : ℕ) (w' : Walk)
      → marked store gen w s ≡ false
      → Inside store.state_count s
      → (store.states s).c ≡ Code.nothing
      → Walked (mark store gen s w) (store.states s).out w'
      → Walked w s w'
  nothing-Walked w s w' fresh inside_ c h = record {
    grows = λ x m. h.grows x (mark_other w s x m);
    here = h.grows s (mark_here w s);
    closed = λ x old new. elim (mark_new w s x old) [
      | inl e ↦ rw (e, c) h.here
      | inr e ↦ h.closed x e new
    ];
    kept = h.kept;
    sound = λ x m. elim (h.sound x m) [
      | inl m' ↦ inl m'
      | inr f ↦ inr (λ v a. let (k, b) = f v a in (suc k, empty c b))
    ];
    good = λ g. h.good (record { listed = g.listed; flag = g.flag; flagged = g.flagged });
    lists = h.lists;
    bound = λ b. h.bound (mark_bound w s b);
    room = omega (arith, h.room, free_mark w s inside_ fresh);
  }

  pub split-Walked :
      (w : Walk) (s : ℕ) (w₁ w' : Walk)
      → marked store gen w s ≡ false
      → Inside store.state_count s
      → (store.states s).c ≡ Code.split
      → Walked (mark store gen s w) (store.states s).out w₁
      → Walked w₁ (store.states s).out_alt w'
      → Walked w s w'
  split-Walked w s w₁ w' fresh inside_ c h g = record {
    grows = λ x m. g.grows x (h.grows x (mark_other w s x m));
    here = g.grows s (h.grows s (mark_here w s));
    closed = λ x old new. elim (mark_new w s x old) [
      | inl e ↦ rw (e, c) (g.grows _ h.here, g.here)
      | inr e ↦ elim (Bool-cases (marked store gen w₁ x)) [
        | inl m ↦ Settles-grows w₁ w' x _ _ _ g.grows g.kept (h.closed x e m)
        | inr m ↦ g.closed x m new
      ]
    ];
    kept = λ x m. g.kept x (h.kept x m);
    sound = λ x m. elim (g.sound x m) [
      | inr f ↦ inr (λ v a. let (k, b) = f v a in (suc k, split_alt c b))
      | inl m' ↦ elim (h.sound x m') [
        | inl m'' ↦ inl m''
        | inr f ↦ inr (λ v a. let (k, b) = f v a in (suc k, split c b))
      ]
    ];
    good = λ good_.
        g.good
          (h.good (record { listed = good_.listed; flag = good_.flag; flagged = good_.flagged }));
    lists = λ l. g.lists (h.lists l);
    bound = λ b. g.bound (h.bound (mark_bound w s b));
    room = omega (arith, h.room, g.room, free_mark w s inside_ fresh);
  }

  pub Walked-refl : (w : Walk) (s : ℕ) → IsMarked w s → Walked w s w
  Walked-refl w s h = record {
    grows = λ x m. m;
    here = h;
    closed = λ x old new. absurd cc;
    kept = λ x m. m;
    sound = λ x m. inl m;
    good = λ g. g;
    lists = λ l. l;
    bound = λ b. b;
    room = omega arith;
  }
