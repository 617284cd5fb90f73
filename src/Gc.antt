-- ===== src/Gc.antt =====
-- src/interpreter/lky_gc.c: the mark-and-sweep collector, with the objects of lkyobj_builtin.h as far
-- as it reads them. An address is a number; 0 is NULL, and an odd one is a tagged integer.
pub mod Objects
pub mod Marking
pub mod Roots
pub mod Sweep
pub mod Trace
pub mod Cycle
pub mod Register
mod Tests
use lanky.Prelude.{
  ℕ, zero, suc, ◌+◌, ◌-◌, ◌%◌, ◌^◌, Bool, true, false, ◌&&◌, ◌||◌, not, Option, none, some, List,
  [], ◌∷◌, ◌++◌, ltb, ◌==◌, if◌then◌else◌, take,
}
use lanky.Gc.Objects.{Heap, Object, Kind, Sizes, Frame, tagged, refs, determine_size_of, is_custom}
use lanky.HashSet
use lanky.HashSet.{HashSet}
use lanky.HashTable.{Table, for_each}

-- `mem_count` of every object
abbrev pub Marks : Type 0
Marks = ℕ → Bool

abbrev pub write_mark : Marks → ℕ → Bool → Marks
write_mark m o b x = if x == o then b else m x

-- `null_read` is a read through NULL; `no_fuel` is the bound on the depth of the calls.
pub data Outcome (A : Type 0) : Type 0 where
  done : A → Outcome A
  null_read : Outcome A
  no_fuel : Outcome A

infixl 5 ◌>>=◌
abbrev pub ◌>>=◌ : {A B : Type 0} → Outcome A → (A → Outcome B) → Outcome B
done a >>= f = f a
null_read >>= f = null_read
no_fuel >>= f = no_fuel

-- Calls of the marking function on addresses in turn.
pub mark_list : (ℕ → Marks → Outcome Marks) → List ℕ → Marks → Outcome Marks
mark_list mark [] m = done m
mark_list mark (o ∷ os) m = mark o m >>= mark_list mark os

-- `gc_mark_stack`: the loop ends at the first empty slot
pub mark_stack : (ℕ → Marks → Outcome Marks) → List ℕ → Marks → Outcome Marks
mark_stack mark [] m = done m
mark_stack mark (o ∷ os) m = if o == 0 then done m else mark o m >>= mark_stack mark os

module _ (heap : Heap) where
  -- `gc_mark_object`
  pub mark_object : ℕ → ℕ → Marks → Outcome Marks
  unfolding mark_list
  mark_object zero o m = no_fuel
  mark_object (suc fuel) o m =
      let inner = mark_list (mark_object fuel) (refs (heap o)) (write_mark m o true) in
      if o == 0 then null_read else if tagged o || m o then done m else inner

pub mark_function_stack : (ℕ → Marks → Outcome Marks) → List Frame → Marks → Outcome Marks
unfolding mark_list mark_stack
mark_function_stack mark [] m = done m
mark_function_stack mark (frame ∷ frames) m = mark frame.bucket m >>= λ m₁.
    mark_stack mark frame.data_stack m₁ >>= λ m₂. mark_stack mark frame.locals m₂ >>= λ m₃.
    mark_list mark frame.parent_stack m₃ >>= mark_function_stack mark frames

-- `md_gc_cycle`: the objects in each interpreter's table, in its order
pub mark_modules : (ℕ → Marks → Outcome Marks) → List (Table (List ℕ)) → Marks → Outcome Marks
mark_modules mark [] m = done m
mark_modules mark (t ∷ ts) m =
    for_each (λ _ val r. r >>= mark val) t (done m) >>= mark_modules mark ts

-- `gc_bundle`, the two flags, and the marks of the objects. `interpreters` is the table of module.c.
-- `freed` and `destroyed` log, latest first, what went to `lobj_dealloc` and whose `on_destroy_`
-- was called.
pub record Gc : Type 0 where
  pub pool : HashSet
  pub roots : List ℕ
  pub function_stacks : List Frame
  pub interpreters : List (Table (List ℕ))
  pub max_size : ℕ
  pub cur_size : ℕ
  pub growth_size : ℕ
  pub marked_size : ℕ
  pub started : Bool
  pub paused : Bool
  pub marks : Marks
  pub freed : List ℕ
  pub destroyed : List ℕ

unfoldable pub init : List (Table (List ℕ)) → Marks → Gc
init interpreters marks = record {
  pool = HashSet.create 8;
  roots = [];
  function_stacks = [];
  interpreters = interpreters;
  max_size = 1600000;
  cur_size = 0;
  growth_size = 1600000;
  marked_size = 0;
  started = true;
  paused = false;
  marks = marks;
  freed = [];
  destroyed = [];
}

pub pause : Gc → Gc
pause gc = record gc { started = false }

pub pause_collection : Gc → Gc
pause_collection gc = record gc { paused = true }

pub resume : Gc → Gc
resume gc = record gc { started = true }

pub resume_collection : Gc → Gc
resume_collection gc = record gc { paused = false }

-- `frames` starts with the given frame and goes on through `next`
pub add_func_stack : Gc → List Frame → Gc
add_func_stack gc frames = record gc { function_stacks = frames }

unfoldable pub add_root_object : Gc → ℕ → Gc
add_root_object gc obj = if gc.started then record gc { roots = obj ∷ gc.roots } else gc

drop_root : ℕ → List ℕ → List ℕ
drop_root obj [] = []
drop_root obj (r ∷ rs) = if r == obj then rs else r ∷ drop_root obj rs

pub remove_root_object : Gc → ℕ → Gc
unfolding drop_root
remove_root_object gc obj = record gc { roots = drop_root obj gc.roots }

-- sums and differences of `size_t`
abbrev pub add_size : ℕ → ℕ → ℕ
add_size a b = (a + b) % 2 ^ 64

abbrev pub sub_size : ℕ → ℕ → ℕ
sub_size a b = (a + 2 ^ 64 - b) % 2 ^ 64

module _ (heap : Heap) where
  -- `gc_mark`
  pub mark : ℕ → Gc → Outcome Gc
  unfolding mark_function_stack mark_modules
  mark fuel gc = mark_list (mark_object heap fuel) gc.roots gc.marks >>= λ m₁.
      mark_function_stack (mark_object heap fuel) gc.function_stacks m₁ >>= λ m₂.
      mark_modules (mark_object heap fuel) gc.interpreters m₂ >>= λ m₃.
      done (record gc { marks = m₃ })

module _ (sizes : Sizes) (heap : Heap) where
  abbrev pub size_of : ℕ → ℕ
  size_of o = determine_size_of sizes (heap o).kind

  pub add_object : Gc → ℕ → Option Gc
  add_object gc obj =
      if not gc.started || obj == 0 then some gc else elim (HashSet.add 2 gc.pool obj) [
        | none ↦ none
        | some pool ↦
            some (record gc { pool = pool; cur_size = add_size gc.cur_size (size_of obj) })
      ]

-- `has_on_destroy o`: `lobj_get_member(o, "on_destroy_")` finds something
module _ (sizes : Sizes) (has_on_destroy : ℕ → Bool) (heap : Heap) where
  -- one round of the loop of `gc_collect`
  pub sweep_object : ℕ → Gc → Gc
  sweep_object o gc =
      if gc.marks o
      then record gc {
        marked_size = add_size gc.marked_size (size_of sizes heap o);
        marks = write_mark gc.marks o false;
      }
      else record gc {
        cur_size = sub_size gc.cur_size (size_of sizes heap o);
        pool = HashSet.remove gc.pool o;
        freed = o ∷ gc.freed;
        destroyed =
            if is_custom (heap o).kind && has_on_destroy o then o ∷ gc.destroyed else gc.destroyed;
      }

  -- `i` runs down from the last of the list
  pub sweep : List ℕ → Gc → Gc
  unfolding sweep_object
  sweep [] gc = gc
  sweep (o ∷ os) gc = sweep_object o (sweep os gc)

  pub collect : Gc → Gc
  unfolding sweep
  collect gc = sweep (take gc.pool.count (HashSet.to_list gc.pool)) (record gc { marked_size = 0 })

  -- `gc_gc`
  pub run_gc : ℕ → Gc → Outcome Gc
  unfolding mark collect
  run_gc fuel gc =
      if ltb gc.cur_size gc.max_size || gc.paused
      then done gc
      else mark heap fuel gc >>= λ marked.
          let swept = collect marked in
          done (record swept { max_size = add_size swept.marked_size swept.growth_size })
