-- ===== src/Aquarium/Tests.antt =====
-- A pool of three blocks, and the allocator on small runs.
use lanky.Prelude.{ℕ, ◌≡◌, refl, false, some, List, [], ◌∷◌, arith}
use lanky.Aquarium.{Memory, TidePool, pools, dangling, init_pool, take_block, give_back, release}
use lanky.Aquarium.Blocks.{
  Taken, mark, unmark, IsBlock, IsPool, init_pool-IsPool, take_block-IsPool, give_back-IsPool,
  blocks,
}

abbrev zeroed : Memory
zeroed x = 0

abbrev nothing : Taken
nothing x = false

three : TidePool
three = (init_pool 1000 16 3 zeroed).0

memory : Memory
memory = (init_pool 1000 16 3 zeroed).1

three-IsPool : IsPool three memory nothing (blocks 3 1000 16)
unfolding three memory
three-IsPool = init_pool-IsPool 1000 16 2 zeroed nothing (omega arith) (λ b h. refl)

take_block-IsPool_example :
    (nothing three.outlet ≡ false)
    × IsBlock three.inlet three.count three.fish_size (take_block three memory).0
    × (rest : List ℕ) × IsPool
        (take_block three memory).1
        memory
        (mark nothing (take_block three memory).0)
        rest
unfolding three init_pool
take_block-IsPool_example =
    take_block-IsPool three memory nothing (blocks 3 1000 16) three-IsPool (λ e. omega (arith, e))

-- the pool when its first block is taken
abbrev taken_one : TidePool
taken_one = (take_block three memory).1

taken_one-IsPool : IsPool taken_one memory (mark nothing 1000) (blocks 2 1016 16)
unfolding three memory init_pool take_block
taken_one-IsPool = record {
  chained = (refl, (1, omega arith, refl), refl, (refl, (2, omega arith, refl), refl, tt));
  counted = refl;
  whole = refl;
  sized = omega arith;
}

give_back-IsPool_example :
    IsPool
      (give_back taken_one memory 1000).0
      (give_back taken_one memory 1000).1
      (unmark (mark nothing 1000) 1000)
      (1000 ∷ blocks 2 1016 16)
unfolding three init_pool take_block
give_back-IsPool_example =
    give_back-IsPool taken_one memory 1000 taken_one-IsPool (0, omega arith, refl) refl
      (omega arith)

-- The only pool is freed when its last block comes back, and `large_pool` is not set.
release_last : release 1000 (pools (taken_one ∷ []) memory) ≡ some dangling
unfolding release take_block three memory init_pool
release_last = refl
