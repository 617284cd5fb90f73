-- ===== src/Gc/Register.antt =====
-- gc_init, gc_add_object, gc_add_root_object and gc_remove_root_object of src/interpreter/lky_gc.c.
use lanky.Prelude.{refl, ℕ, ◌≡◌, ◌≢◌, true, some, List, arith}
use lanky.HashSet
use lanky.HashSet.{HashSet, contains}
use lanky.HashSet.Add.{IsValid, Added, create-IsFormed, add_lem}
use lanky.HashTable.{Table}
use lanky.Gc.Objects.{Heap, Sizes}
use lanky.Gc.{
  Gc, Marks, add_size, size_of, init, add_object, add_root_object, remove_root_object, pause,
  resume,
}

pub init-IsValid :
    (interpreters : List (Table (List ℕ))) (m : Marks) → IsValid (init interpreters m).pool
unfolding init HashSet.create
init-IsValid interpreters m = record {
  formed = create-IsFormed 8 (omega arith);
  load = omega arith;
}

module _ (sizes : Sizes) (heap : Heap) where
  -- While the collector is started, `gc_add_object` of an object returns with a well-formed pool that
  -- contains the object and what it contained before, and with `cur_size` grown by the object's size.
  pub add_object_lem :
      (gc : Gc) (o : ℕ)
      → IsValid gc.pool
      → gc.started ≡ true
      → o ≢ 0
      → (pool : HashSet) × (add_object sizes heap gc o
          ≡ some
              (record gc { pool = pool; cur_size = add_size gc.cur_size (size_of sizes heap o) }))
        × Added gc.pool o pool
  unfolding add_object
  add_object_lem gc o v on ne =
      let (pool, run, effect) = add_lem 0 o v in (pool, ground (arith, run), effect)

-- A root that is added and then removed leaves the collector as it was, as around each call of a
-- function.
pub remove-add_root_object :
    (gc : Gc) (o : ℕ) → gc.started ≡ true → remove_root_object (add_root_object gc o) o ≡ gc
unfolding remove_root_object add_root_object
remove-add_root_object gc o on = ground arith

-- Between `gc_pause` and `gc_resume` nothing is registered: a new object does not enter the pool, so it
-- is never collected, and a root is not added, while `gc_remove_root_object` still takes one away.
pub resume-pause :
    (sizes : Sizes) (heap : Heap) (gc : Gc) (o : ℕ)
    → gc.started ≡ true
    → (add_object sizes heap (pause gc) o ≡ some (pause gc))
      × (resume (remove_root_object (add_root_object (pause gc) o) o) ≡ remove_root_object gc o)
unfolding pause resume remove_root_object add_root_object add_object
resume-pause sizes heap gc o on = (refl, ground arith)
