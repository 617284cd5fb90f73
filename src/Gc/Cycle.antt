-- ===== src/Gc/Cycle.antt =====
-- gc_gc of src/interpreter/lky_gc.c: one collection frees what is not reachable, and nothing else.
use lanky.Prelude.{ℕ, ◌+◌, ◌%◌, ◌^◌, ◌≡◌, ◌↔◌, Bool, true, ◌&&◌, ◌||◌, not, ◌⊎◌, List}
use lanky.HashSet.{mem, contains, to_list}
use lanky.Gc.Objects.{Heap, Sizes}
use lanky.Gc.{Gc, Marks, collect}
use lanky.Gc.Roots.{root_refs}
use lanky.Gc.Sweep.{kept_size}
use lanky.Gc.Trace.{Reach, IsWorld, Traced}

-- The effect of a collection on `gc`.
pub record Collected (sizes : Sizes) (heap : Heap) (objects : List ℕ) (gc r : Gc) : Type 0 where
  pub keeps :
      (o : ℕ)
      → (contains r.pool o ≡ true) ↔ ((contains gc.pool o ≡ true) × Reach heap (root_refs gc) o)
  pub frees :
      (o : ℕ)
      → (mem o r.freed ≡ true) ↔ (
          (mem o gc.freed ≡ true)
          ⊎ ((contains gc.pool o ≡ true) × (¬ (Reach heap (root_refs gc) o))))
  pub budget :
      r.max_size ≡ (kept_size sizes heap r.pool (to_list gc.pool) + gc.growth_size) % 2 ^ 64
  pub world : IsWorld heap objects r

module _ (sizes : Sizes) (has_on_destroy : ℕ → Bool) (heap : Heap) (objects : List ℕ) {gc : Gc}
    (w : IsWorld heap objects gc) where
  module _ (m : Marks) (traced : Traced heap objects w m) where
    abbrev marked : Gc
    marked = record gc { marks = m }

    abbrev swept : Gc
    swept = collect sizes has_on_destroy heap marked

    abbrev is_freed : ℕ → Bool
    is_freed o = (contains gc.pool o && not (m o)) || mem o gc.freed
