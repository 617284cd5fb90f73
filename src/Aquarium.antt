-- ===== src/Aquarium.antt =====
-- src/interpreter/aquarium.c: the allocator of objects. An address is a number, and the memory has the
-- word at each. A free block has the address of the next one.
mod Blocks
mod Tests
use lanky.Prelude.{
  ℕ, zero, suc, ◌+◌, ◌-◌, ◌*◌, Bool, true, false, ◌&&◌, not, Option, none, some, List, [], ◌∷◌,
  ◌++◌, ltb, leb, ◌==◌, if◌then◌else◌,
}

abbrev pub Memory : Type 0
Memory = ℕ → ℕ

abbrev pub write : Memory → ℕ → ℕ → Memory
write m a v x = if x == a then v else m x

-- `aqua_tide_pool`; `free` and `used` count blocks
pub record TidePool : Type 0 where
  pub inlet : ℕ
  pub outlet : ℕ
  pub fish_size : ℕ
  pub count : ℕ
  pub free : ℕ
  pub used : ℕ

abbrev pub large_size : ℕ
large_size = 128

abbrev pub large_count : ℕ
large_count = 100000

-- the loop of `aqua_init_pool`
pub chain_blocks : ℕ → ℕ → ℕ → Memory → Memory
chain_blocks zero here size m = m
chain_blocks (suc n) here size m = chain_blocks n (here + size) size (write m here (here + size))

-- `aqua_init_pool`, with what `malloc` returned for the blocks
pub init_pool : ℕ → ℕ → ℕ → Memory → TidePool × Memory
unfolding chain_blocks
init_pool inlet size count m = (
  record { inlet = inlet; outlet = inlet; fish_size = size; count = count; free = count; used = 0 },
  chain_blocks (count - 1) inlet size m,
)

-- `large_pool` points to the list of pools, or to memory that was freed.
pub data Aquarium : Type 0 where
  pools : List TidePool → Memory → Aquarium
  dangling : Aquarium

-- a block taken from a pool
pub take_block : TidePool → Memory → ℕ × TidePool
take_block pool m = (
  pool.outlet,
  record pool { outlet = m pool.outlet; used = pool.used + 1; free = pool.free - 1 },
)

-- `aqua_request_next_block` from a pool on, of a size that fits; `fresh` is the memory that a new pool
-- would get
pub request_from : List TidePool → Memory → ℕ → ℕ × (List TidePool × Memory)
unfolding init_pool take_block
request_from [] m fresh =
    let (pool, m') = init_pool fresh large_size large_count m in
    let (ptr, pool') = take_block pool m' in (ptr, (pool' ∷ [], m'))
request_from (pool ∷ ps) m fresh =
    let (ptr, pool') = take_block pool m in
    let (later, (ps', m')) = request_from ps m fresh in
    if pool.free == 0 then (later, (pool ∷ ps', m')) else (ptr, (pool' ∷ ps, m))

-- `none` is `exit(1)`, and a read of memory that was freed
pub request_next_block : ℕ → ℕ → Aquarium → Option (ℕ × Aquarium)
unfolding request_from
request_next_block size fresh dangling = none
request_next_block size fresh (pools ps m) =
    let (ptr, (ps', m')) = request_from ps m fresh in
    if ltb large_size size then none else some (ptr, pools ps' m')

-- the test of `aqua_find_pool_of`
pub in_pool : TidePool → ℕ → Bool
in_pool pool ptr = leb pool.inlet ptr && ltb ptr (pool.inlet + pool.count * pool.fish_size)

pub give_back : TidePool → Memory → ℕ → TidePool × Memory
give_back pool m block = (
  record pool { outlet = block; used = pool.used - 1; free = pool.free + 1 },
  write m block pool.outlet,
)

-- `aqua_release` in the pools behind the first; a pool without used blocks is taken out
pub release_from : List TidePool → Memory → ℕ → Option (List TidePool × Memory)
unfolding in_pool give_back
release_from [] m block = none
release_from (pool ∷ ps) m block =
    let (pool', m') = give_back pool m block in
    let rest = release_from ps m block in
    if in_pool pool block
    then some (if pool'.used == 0 then ps else pool' ∷ ps, m')
    else elim rest [ none ↦ none | some (ps', m'') ↦ some (pool ∷ ps', m'') ]

-- `aqua_release`: the first pool is freed like the others, but `large_pool` is not set.
pub release : ℕ → Aquarium → Option Aquarium
unfolding release_from in_pool give_back
release block dangling = none
release block (pools [] m) = none
release block (pools (pool ∷ ps) m) =
    let (pool', m') = give_back pool m block in
    let rest = release_from ps m block in
    if in_pool pool block
    then some (if pool'.used == 0 then dangling else pools (pool' ∷ ps) m')
    else elim rest [ none ↦ none | some (ps', m'') ↦ some (pools (pool ∷ ps') m'') ]

-- `aqua_is_managed_pointer`
pub is_managed_pointer : ℕ → List TidePool → Bool
unfolding in_pool
is_managed_pointer ptr [] = false
is_managed_pointer ptr (pool ∷ ps) = if in_pool pool ptr then true else is_managed_pointer ptr ps
