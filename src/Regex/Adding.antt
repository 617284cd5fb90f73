-- ===== src/Regex/Adding.antt =====
-- rgx_add_state of src/stdlib/regex.c: it ends, its list has room, and the list stands for the state.
use lanky.Prelude.{
  ℕ, zero, suc, ◌+◌, ◌≤◌, ◌<◌, ◌≡◌, refl, Bool, true, false, some, [], ◌∷◌, ◌++◌, ltb, inl, inr,
  Bool-cases, length, arith,
}
use lanky.Regex.{Code, Store}
use lanky.Regex.Slots.{Inside}
use lanky.Regex.Marks.{IsSafe}
use lanky.Regex.Walk.{
  free, Walked-free, Walks, free_mark, appended, append-Walked, nothing-Walked, split-Walked,
  Walked-refl,
}
use lanky.Regex.Run.{Walk, marked, mark, append, spread, inside, add_state}

module _ (store : Store) (gen : ℕ) (takes : Code → ℕ → Bool) (safe : IsSafe store) where
  -- what a call that may nest `n` deep achieves
  abbrev Works : ℕ → Type 0
  Works n =
      (s : ℕ) (w : Walk)
      → Inside store.state_count s
      → free store gen takes w < n
      → length w.mem + free store gen takes w ≤ store.state_count
      → Walks store gen takes (add_state store gen n s) w s

  append_works :
      (w : Walk) (s : ℕ)
      → Inside store.state_count s
      → marked store gen w s ≡ false
      → length w.mem + free store gen takes w ≤ store.state_count
      → append store gen s (mark store gen s w)
        ≡ some (record (mark store gen s w) { mem = w.mem ++ s ∷ [] })
  unfolding append
  append_works w s inside_ fresh room =
      let e : ltb (length w.mem) store.state_count ≡ true =
        ground (arith, room, free_mark store gen takes w s inside_ fresh) in
      rw (append, e) refl

  spread-Walks :
      (n : ℕ) (s : ℕ) (c : Code) (w : Walk)
      → Works n
      → (store.states s).c ≡ c
      → Inside store.state_count s
      → marked store gen w s ≡ false
      → free store gen takes w < suc n
      → length w.mem + free store gen takes w ≤ store.state_count
      → Walks store gen takes
          (λ w'.
            spread store gen
              (add_state store gen n)
              s
              c
              (store.states s).out
              (store.states s).out_alt
              (mark store gen s w'))
          w
          s
  unfolding spread appended
  spread-Walks n s (Code.letter l) w works e inside_ fresh fuel room = (
    _,
    append_works w s inside_ fresh room,
    append-Walked store gen takes w s false inside_ fresh (rw e tt) (λ h. absurd cc)
        (λ h. absurd cc) (λ m. rw e m),
  )
  spread-Walks n s (Code.chrcls cls) w works e inside_ fresh fuel room = (
    _,
    append_works w s inside_ fresh room,
    append-Walked store gen takes w s false inside_ fresh (rw e tt) (λ h. absurd cc)
        (λ h. absurd cc) (λ m. rw e m),
  )
  spread-Walks n s Code.match w works e inside_ fresh fuel room = (
    _,
    rw (append_works w s inside_ fresh room) refl,
    append-Walked store gen takes w s true inside_ fresh (rw e tt) (λ h. e) (λ h. refl)
        (λ m. rw e m),
  )
  spread-Walks n s Code.nothing w works e inside_ fresh fuel room =
      let less = free_mark store gen takes w s inside_ fresh in
      let (w', run, h) =
        works (store.states s).out (mark store gen s w) (safe.leads s false inside_ (rw e refl))
          (omega (arith, less, fuel)) (omega (arith, less, room)) in
      (w', run, nothing-Walked store gen takes w s w' fresh inside_ e h)
  spread-Walks n s Code.split w works e inside_ fresh fuel room =
      let less = free_mark store gen takes w s inside_ fresh in
      let (w₁, run, h) =
        works (store.states s).out (mark store gen s w) (safe.leads s false inside_ (rw e refl))
          (omega (arith, less, fuel)) (omega (arith, less, room)) in
      let fewer = Walked-free store gen takes (mark store gen s w) (store.states s).out w₁ h in
      let (w', run', h') =
        works (store.states s).out_alt w₁ (safe.leads s true inside_ (rw e refl))
          (omega (arith, less, fuel, fewer)) (omega (arith, less, room, h.room)) in
      (w', rw run run', split-Walked store gen takes w s w₁ w' fresh inside_ e h h')

  -- A call ends if it may nest deeper than there are unmarked states, and the list has room.
  pub add_state-Walks : (n : ℕ) → Works n
  unfolding add_state inside
  add_state-Walks zero s w inside_ fuel room = absurd (omega (arith, fuel))
  add_state-Walks (suc n) s w inside_ fuel room =
      let there : inside store gen s ≡ true = ground (arith, inside_) in
      elim (Bool-cases (marked store gen w s)) [
        | inl m ↦ rw (add_state, there, m) (w, refl, Walked-refl store gen takes w s m)
        | inr m ↦
            rw (add_state, there, m)
              (spread-Walks n s (store.states s).c w (add_state-Walks n) refl inside_ m fuel room)
      ]
