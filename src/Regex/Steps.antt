-- ===== src/Regex/Steps.antt =====
-- rgx_step of src/stdlib/regex.c: the lists after a character.
use lanky.Prelude.{
  ℕ, ◌+◌, ◌≤◌, ◌≡◌, refl, Bool, true, false, some, List, [], ◌∷◌, ◌⊎◌, inl, inr, Bool-cases, length,
  arith,
}
use mathlib.Core.List.{Memᴰ}
use mathlib.Core.List.Memᴰ
use lanky.Regex.{Code, Store}
use lanky.Regex.Language.{Accepts, final, empty, split, split_alt, read, Accepted}
use lanky.Regex.Wired.{IsSilent}
use lanky.Regex.Slots.{needed}
use lanky.Regex.Marks.{IsSafe}
use lanky.Regex.Walk.{IsMarked, free, Settles, Settled, Settles-grows, IsListed, Good, Walked}
use lanky.Regex.Adding.{add_state-Walks}
use lanky.Regex.Run.{Walk, marked, add, step_each}

module _ (store : Store) (gen : ℕ) (takes : Code → ℕ → Bool) where
  -- every marked state has what its mark promises
  abbrev pub Closed : Walk → Type 0
  Closed w = (x : ℕ) → IsMarked store gen takes w x → Settled store gen takes w x

  pub Walked-Closed :
      (w : Walk) (s : ℕ) (w' : Walk) → Walked store gen takes w s w' → Closed w → Closed w'
  Walked-Closed w s w' h closed x m = elim (Bool-cases (marked store gen w x)) [
    | inl old ↦ Settles-grows store gen takes w w' x _ _ _ h.grows h.kept (closed x old)
    | inr new ↦ h.closed x new m
  ]

  -- some state of the list accepts the word
  abbrev pub ListAccepts : List ℕ → List ℕ → Type 0
  ListAccepts list v = (x : ℕ) × Memᴰ x list × Accepted takes store.states x v

  module _ (silent : IsSilent takes) where
    settled_reads :
        (w : Walk) (s x : ℕ) (c : Code) (out out_alt : ℕ)
        → takes c x ≡ true
        → Settles store gen takes w s c out out_alt
        → Memᴰ s w.mem
    settled_reads w s x Code.split out out_alt h m = absurd (let f = silent.no_split x in cc)
    settled_reads w s x Code.nothing out out_alt h m = absurd (let f = silent.no_nothing x in cc)
    settled_reads w s x Code.match out out_alt h m = m
    settled_reads w s x (Code.letter l) out out_alt h m = m
    settled_reads w s x (Code.chrcls cls) out out_alt h m = m

    -- What a marked state accepts, the list accepts.
    pub complete :
        (w : Walk)
        → Closed w
        → (k x : ℕ) (v : List ℕ) → IsMarked store gen takes w x
        → Accepts takes store.states k x v
        → ListAccepts w.mem v
    complete w closed k x v m (final c) =
        let p = closed x m in let p' = rw c at p in (x, p', (0, final c))
    complete w closed k x v m (empty c a) =
        let p = closed x m in let p' = rw c at p in complete w closed _ _ v p' a
    complete w closed k x v m (split c a) =
        let p = closed x m in let p' = rw c at p in complete w closed _ _ v p'.0 a
    complete w closed k x v m (split_alt c a) =
        let p = closed x m in let p' = rw c at p in complete w closed _ _ v p'.1 a
    complete w closed k x v m (read {c = c} h a) =
        (x, settled_reads w x c (store.states x).c _ _ h (closed x m), (_, read h a))

    needs_out : (c : Code) (x : ℕ) → takes c x ≡ true → needed c false ≡ true
    needs_out Code.split x h = refl
    needs_out Code.nothing x h = refl
    needs_out Code.match x h = absurd (let f = silent.no_match x in cc)
    needs_out (Code.letter l) x h = refl
    needs_out (Code.chrcls cls) x h = refl

    -- the effect of the loop on the list `list`
    pub record Stepped (c : ℕ) (list : List ℕ) (w w' : Walk) : Type 0 where
      pub grows : (x : ℕ) → IsMarked store gen takes w x → IsMarked store gen takes w' x
      pub reached :
          (s : ℕ)
          → Memᴰ s list
          → takes (store.states s).c c ≡ true
          → IsMarked store gen takes w' (store.states s).out
      pub closed : Closed w → Closed w'
      pub sound :
          (x : ℕ)
          → Memᴰ x w'.mem
          → Memᴰ x w.mem
            ⊎ ((s : ℕ) × Memᴰ s list
                × (takes (store.states s).c c ≡ true)
                × ((v : List ℕ)
                    → Accepted takes store.states x v
                    → Accepted takes store.states (store.states s).out v))
      pub good : Good store gen takes w → Good store gen takes w'
      pub bound : ((x : ℕ) → w.listit x ≤ gen) → (x : ℕ) → w'.listit x ≤ gen
      pub room : length w'.mem + free store gen takes w' ≤ length w.mem + free store gen takes w

    pub step_each-Stepped :
        IsSafe store
        → (c : ℕ) (list : List ℕ) (w : Walk) → IsListed store gen takes list
        → length w.mem + free store gen takes w ≤ store.state_count
        → (w' : Walk) × (step_each store gen takes c list w ≡ some w') × Stepped c list w w'
    unfolding step_each add
    step_each-Stepped safe c [] w is_list room = (
      w,
      refl,
      record {
        grows = λ x m. m;
        reached = λ s m h. absurd (Memᴰ.not-nil m);
        closed = λ h. h;
        sound = λ x m. inl m;
        good = λ g. g;
        bound = λ b. b;
        room = omega arith;
      },
    )
    step_each-Stepped safe c (s ∷ list) w is_list room =
        let rest : IsListed store gen takes list = λ x m. is_list x (Memᴰ.tail m) in
        elim (Bool-cases (takes (store.states s).c c)) [
          | inr e ↦
              let (w', run, h) = step_each-Stepped safe c list w rest room in
              (
                w',
                rw (step_each, e) run,
                record {
                  grows = h.grows;
                  reached = λ x m t. elim (Memᴰ.cases_cons m) [
                    | inl same ↦ absurd (let f = rw same at t in cc)
                    | inr m' ↦ h.reached x m' t
                  ];
                  closed = h.closed;
                  sound = λ x m. elim (h.sound x m) [
                    | inl m' ↦ inl m'
                    | inr (s', m', t, f) ↦ inr (s', Memᴰ.tail m', t, f)
                  ];
                  good = h.good;
                  bound = h.bound;
                  room = h.room;
                },
              )
          | inl e ↦
              let (inside_, listed_) = is_list s (Memᴰ.head refl) in
              let (w₁, run₁, g) =
                add_state-Walks store gen takes safe (store.state_count + 1) (store.states s).out w
                  (safe.leads s false inside_ (needs_out (store.states s).c c e))
                  (omega (arith, room)) room in
              let (w', run, h) =
                step_each-Stepped safe c list w₁ rest (omega (arith, room, g.room)) in
              (
                w',
                rw (step_each, e, run₁) run,
                record {
                  grows = λ x m. h.grows x (g.grows x m);
                  reached = λ x m t. elim (Memᴰ.cases_cons m) [
                    | inl same ↦ rw same (h.grows _ g.here)
                    | inr m' ↦ h.reached x m' t
                  ];
                  closed = λ closed_. h.closed (Walked-Closed w (store.states s).out w₁ g closed_);
                  sound = λ x m. elim (h.sound x m) [
                    | inr (s', m', t, f) ↦ inr (s', Memᴰ.tail m', t, f)
                    | inl m' ↦ elim (g.sound x m') [
                      | inl old ↦ inl old
                      | inr f ↦ inr (s, Memᴰ.head refl, e, f)
                    ]
                  ];
                  good = λ good_. h.good (g.good good_);
                  bound = λ b. h.bound (g.bound b);
                  room = omega (arith, g.room, h.room);
                },
              )
        ]
