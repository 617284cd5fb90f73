-- ===== src/Gc/Trace.antt =====
-- gc_mark of src/interpreter/lky_gc.c: it marks what is reachable, and nothing else.
use lanky.Prelude.{ℕ, ◌≡◌, true, false, ◌⊎◌, List, []}
use lanky.HashSet.{mem, contains}
use lanky.HashSet.Add.{IsValid}
use lanky.Gc.Objects.{Heap, tagged, refs}
use lanky.Gc.{Gc, Marks}
use lanky.Gc.Marking.{All, IsFine}
use lanky.Gc.Roots.{root_refs}

-- What the program can still get at from the addresses `roots`.
pub data Reach (heap : Heap) (roots : List ℕ) : ℕ → Type 0 where
  root : (o : ℕ) → mem o roots ≡ true → tagged o ≡ false → Reach heap roots o
  step :
      (o p : ℕ)
      → Reach heap roots o
      → mem p (refs (heap o)) ≡ true
      → tagged p ≡ false
      → Reach heap roots p

-- `objects` are the addresses of all objects. References and roots are objects or tagged integers; a
-- reachable object outside the pool (nil, yes and no) refers to nothing, and so does any object with a
-- mark left from before, which is outside the pool too.
pub record IsWorld (heap : Heap) (objects : List ℕ) (gc : Gc) : Type 0 where
  pub pool : IsValid gc.pool
  pub known : (o : ℕ) → contains gc.pool o ≡ true → mem o objects ≡ true
  pub fine : (o : ℕ) → mem o objects ≡ true → All (IsFine objects) (refs (heap o))
  pub roots : All (IsFine objects) (root_refs gc)
  pub outside :
      (o : ℕ) → Reach heap (root_refs gc) o → contains gc.pool o ≡ false → refs (heap o) ≡ []
  pub stale : (o : ℕ) → gc.marks o ≡ true → (refs (heap o) ≡ []) × (contains gc.pool o ≡ false)

module _ (heap : Heap) (objects : List ℕ) {gc : Gc} (w : IsWorld heap objects gc) where
  abbrev pub start : List ℕ
  start = root_refs gc

  -- marked before, or reachable
  abbrev pub Due : ℕ → Type 0
  Due o = (gc.marks o ≡ true) ⊎ Reach heap start o

  abbrev pub Traced : Marks → Type 0
  Traced m =
      ((o : ℕ) → m o ≡ true → (gc.marks o ≡ true) ⊎ Reach heap start o)
      × ((o : ℕ) → Reach heap start o → m o ≡ true)
