-- ===== src/Aquarium/Blocks.antt =====
-- src/interpreter/aquarium.c: one pool, its free blocks, and the blocks that are taken.
use lanky.Prelude.{
  ℕ, zero, suc, ◌+◌, ◌-◌, ◌*◌, ◌≤◌, ◌<◌, ◌≡◌, ◌≢◌, refl, sym, ◌∙◌, ap, Bool, true, false, List, [],
  ◌∷◌, ◌==◌, ==→eq, ==→ne, ==_refl, if◌then◌else◌, length, Bool-cases, inl, inr, arith,
}
use mathlib.Core.Path.{subst}
use native.Mathlib.Nat.{suc-mul}
use lanky.Aquarium.{Memory, write, TidePool, chain_blocks, init_pool, take_block, give_back}

-- which addresses the program holds
abbrev pub Taken : Type 0
Taken = ℕ → Bool

abbrev pub mark : Taken → ℕ → Taken
mark taken b x = if x == b then true else taken x

abbrev pub unmark : Taken → ℕ → Taken
unmark taken b x = if x == b then false else taken x

-- of a pool that starts at `inlet` and has `count` blocks of `size` bytes
abbrev pub IsBlock : ℕ → ℕ → ℕ → ℕ → Type 0
IsBlock inlet count size b = (i : ℕ) × (i < count) × (b ≡ inlet + i * size)

-- The blocks that the words of the memory lead to, from an address on: each satisfies `P` and is not
-- taken, and none is there twice.
abbrev pub AreFree : (ℕ → Type 0) → Memory → Taken → ℕ → List ℕ → Type 0
AreFree P m taken p [] = Unit {0}
AreFree P m taken p (b ∷ bs) =
    (b ≡ p) × P b × (taken b ≡ false) × AreFree P m (mark taken b) (m b) bs

pub record IsPool (pool : TidePool) (m : Memory) (taken : Taken) (bs : List ℕ) : Type 0 where
  pub chained : AreFree (IsBlock pool.inlet pool.count pool.fish_size) m taken pool.outlet bs
  pub counted : length bs ≡ pool.free
  pub whole : pool.free + pool.used ≡ pool.count
  pub sized : 0 < pool.fish_size

mark-free : (taken : Taken) (b x : ℕ) → mark taken b x ≡ false → (x ≢ b) × (taken x ≡ false)
mark-free taken b x h = elim (Bool-cases (x == b)) [
  | inl e ↦ absurd (ground (arith, h, e))
  | inr e ↦ (==→ne x b e, ground (arith, h, e))
]

mark-other : (taken : Taken) (b x : ℕ) → (x == b) ≡ false → taken x ≡ false → mark taken b x ≡ false
mark-other taken b x e h = rw e h

-- It depends on the free blocks only.
pub AreFree-same :
    {P : ℕ → Type 0} (bs : List ℕ) {m m' : Memory} {taken taken' : Taken} (p : ℕ)
    → ((b : ℕ) → P b → taken b ≡ false → taken' b ≡ false)
    → ((b : ℕ) → P b → taken b ≡ false → m b ≡ m' b)
    → AreFree P m taken p bs
    → AreFree P m' taken' p bs
AreFree-same [] p same agree h = tt
AreFree-same {P = P} (b ∷ bs) {m = m} {m' = m'} {taken = taken} {taken' = taken'} p same agree
      (e, is_block, free, h) =
    let rest : AreFree P m' (mark taken' b) (m b) bs =
      AreFree-same bs (m b)
        (λ x px fx. elim (Bool-cases (x == b)) [
          | inl eq ↦ absurd ((mark-free taken b x fx).0 (==→eq x b eq))
          | inr ne ↦ mark-other taken' b x ne (same x px (mark-free taken b x fx).1)
        ])
        (λ x px fx. agree x px (mark-free taken b x fx).1) h in
    (
      e,
      is_block,
      same b is_block free,
      subst (λ q. AreFree P m' (mark taken' b) q bs) (agree b is_block free) rest,
    )

-- a free address is not one that is taken
apart : (taken : Taken) (b a : ℕ) → taken b ≡ false → taken a ≡ true → (b == a) ≡ false
apart taken b a free held = elim (Bool-cases (b == a)) [
  | inl e ↦ let same : taken b ≡ taken a = ap taken (==→eq b a e) in absurd (cc)
  | inr e ↦ e
]

write-other : (m : Memory) (a b v : ℕ) → (b == a) ≡ false → write m a v b ≡ m b
write-other m a b v e = rw e refl

write_self : (m : Memory) (a v : ℕ) → write m a v a ≡ v
write_self m a v = rw (==_refl a) refl

unmark_self : (taken : Taken) (a : ℕ) → unmark taken a a ≡ false
unmark_self taken a = rw (==_refl a) refl

unmark-other :
    (taken : Taken) (a b : ℕ) → taken b ≡ false → (b == a) ≡ false → unmark taken a b ≡ false
unmark-other taken a b h e = rw e h

-- A pool that counts a free block hands out a block of its own that was not taken; then that block is
-- taken, and the blocks that the memory leads to from `outlet` are still free, distinct and counted.
pub take_block-IsPool :
    (pool : TidePool) (m : Memory) (taken : Taken) (bs : List ℕ)
    → IsPool pool m taken bs
    → pool.free ≢ 0
    → (taken pool.outlet ≡ false)
      × IsBlock pool.inlet pool.count pool.fish_size (take_block pool m).0
      × (rest : List ℕ) × IsPool (take_block pool m).1 m (mark taken (take_block pool m).0) rest
unfolding take_block
take_block-IsPool pool m taken [] h some_free = absurd (some_free (sym h.counted))
take_block-IsPool pool m taken (b ∷ bs) h some_free =
    let (e, is_block, free, chained) = h.chained in
    (
      rw⁻¹ e free,
      rw⁻¹ e is_block,
      bs,
      record {
        chained = rw⁻¹ e chained;
        counted = omega (arith, h.counted);
        whole = omega (arith, h.whole, h.counted);
        sized = h.sized;
      },
    )

-- When a block of the pool that was taken is given back, it is free and the first of the free blocks,
-- which are otherwise the same; they are still distinct, and counted.
pub give_back-IsPool :
    (pool : TidePool) (m : Memory) (block : ℕ) {taken : Taken} {bs : List ℕ}
    → IsPool pool m taken bs
    → IsBlock pool.inlet pool.count pool.fish_size block
    → taken block ≡ true
    → 0 < pool.used
    → IsPool (give_back pool m block).0 (give_back pool m block).1 (unmark taken block) (block ∷ bs)
unfolding give_back
give_back-IsPool pool m block {taken = taken} {bs = bs} h is_block held some_used = record {
  chained =
      let old =
        AreFree-same bs pool.outlet
          (λ b _ free.
            mark-other (unmark taken block) block b (apart taken b block free held)
              (unmark-other taken block b free (apart taken b block free held)))
          (λ b _ free. sym (write-other m block b pool.outlet (apart taken b block free held)))
          h.chained in
      (
        refl,
        is_block,
        unmark_self taken block,
        subst
            (λ q.
              AreFree (IsBlock pool.inlet pool.count pool.fish_size) (write m block pool.outlet)
                (mark (unmark taken block) block) q bs)
            (sym (write_self m block pool.outlet)) old,
      );
  counted = omega (arith, h.counted);
  whole = omega (arith, h.whole, some_used);
  sized = h.sized;
}

-- What the program writes into a block that it holds changes no free block.
pub write-IsPool :
    (pool : TidePool) (m : Memory) (a v : ℕ) {taken : Taken} {bs : List ℕ}
    → IsPool pool m taken bs
    → taken a ≡ true
    → IsPool pool (write m a v) taken bs
write-IsPool pool m a v {taken = taken} {bs = bs} h held = record {
  chained =
      AreFree-same bs pool.outlet (λ b _ free. free)
        (λ b _ free. sym (write-other m a b v (apart taken b a free held))) h.chained;
  counted = h.counted;
  whole = h.whole;
  sized = h.sized;
}

-- the addresses of blocks in a row
abbrev pub blocks : ℕ → ℕ → ℕ → List ℕ
blocks zero here size = []
blocks (suc n) here size = here ∷ blocks n (here + size) size

chain_blocks-below :
    (n here size : ℕ) (m : Memory) (x : ℕ) → x < here → chain_blocks n here size m x ≡ m x
unfolding chain_blocks
chain_blocks-below zero here size m x h = refl
chain_blocks-below (suc n) here size m x h =
    chain_blocks-below n (here + size) size (write m here (here + size)) x (omega arith)
    ∙ write-other m here x (here + size) (ground arith)

first-block : (here size : ℕ) → here + 0 * size ≡ here
first-block here size = omega arith

later-block : (here size i : ℕ) → here + suc i * size ≡ (here + size) + i * size
later-block here size i = rw (suc-mul i size) (omega arith)

chain_blocks-AreFree :
    (P : ℕ → Type 0) (n here size : ℕ) (m : Memory) (taken : Taken)
    → 0 < size
    → ((i : ℕ) → i < suc n → P (here + i * size))
    → ((b : ℕ) → P b → here ≤ b → taken b ≡ false)
    → AreFree P (chain_blocks n here size m) taken here (blocks (suc n) here size)
unfolding chain_blocks
chain_blocks-AreFree P zero here size m taken pos block unused =
    let first : P here = subst P (first-block here size) (block 0 (omega arith)) in
    (refl, first, unused here first (omega arith), tt)
chain_blocks-AreFree P (suc n) here size m taken pos block unused =
    let m' = chain_blocks (suc n) here size m in
    let first : P here = subst P (first-block here size) (block 0 (omega arith)) in
    let next : m' here ≡ here + size =
      chain_blocks-below n (here + size) size (write m here (here + size)) here (omega arith)
      ∙ write_self m here (here + size) in
    let rest =
      chain_blocks-AreFree P n (here + size) size (write m here (here + size)) (mark taken here) pos
        (λ i small. subst P (later-block here size i) (block (suc i) (omega arith)))
        (λ b is_block above.
          mark-other taken here b (ground arith) (unused b is_block (omega arith))) in
    (
      refl,
      first,
      unused here first (omega arith),
      subst (λ q. AreFree P m' (mark taken here) q (blocks (suc n) (here + size) size)) (sym next)
          rest,
    )

length-blocks : (n here size : ℕ) → length (blocks n here size) ≡ n
length-blocks zero here size = refl
length-blocks (suc n) here size = ap suc (length-blocks n (here + size) size)

-- A new pool has all of its blocks free, in the order of their addresses, if `malloc` gave memory in
-- which no block is taken.
pub init_pool-IsPool :
    (inlet size n : ℕ) (m : Memory) (taken : Taken)
    → 0 < size
    → ((b : ℕ) → IsBlock inlet (suc n) size b → taken b ≡ false)
    → IsPool
        (init_pool inlet size (suc n) m).0
        (init_pool inlet size (suc n) m).1
        taken
        (blocks (suc n) inlet size)
unfolding init_pool
init_pool-IsPool inlet size n m taken pos unused =
    let less : suc n - 1 ≡ n = omega arith in
    record {
      chained =
          subst
            (λ k.
              AreFree (IsBlock inlet (suc n) size) (chain_blocks k inlet size m) taken inlet
                (blocks (suc n) inlet size))
            (sym less)
            (chain_blocks-AreFree (IsBlock inlet (suc n) size) n inlet size m taken pos
              (λ i small. (i, small, refl)) (λ b is_block _. unused b is_block));
      counted = length-blocks (suc n) inlet size;
      whole = omega arith;
      sized = pos;
    }
