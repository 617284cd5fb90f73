-- ===== src/Gc/Tests.antt =====
-- src/interpreter/lky_gc.c on a heap of three code objects: 4 refers to 2, and 6 to both.
use lanky.Prelude.{
  ℕ, ◌≡◌, refl, true, false, ◌&&◌, ◌||◌, not, List, [], ◌∷◌, ◌==◌, if◌then◌else◌, arith,
}
use lanky.HashTable.{Table}
use lanky.HashSet
use lanky.HashSet.{HashSet, contains, mem, to_list, add_node}
use lanky.HashSet.Add.{IsValid, create-IsFormed, add_node-NodeAdded}
use lanky.Gc.Objects.{Heap, Object, Kind, Sizes, refs}
use lanky.Gc.{Gc, done, mark_object, collect, run_gc}
use lanky.Gc.Sweep.{collect_lem}

abbrev blank : Table (List ℕ)
blank = record { count = 0; size = 0; buckets = [] }

abbrev code_of : List ℕ → Object
code_of constants = record { kind = Kind.code constants; members = blank }

abbrev heap : Heap
heap o = if o == 4 then code_of (2 ∷ []) else if o == 6 then code_of (2 ∷ 4 ∷ []) else code_of []

abbrev sizes : Sizes
sizes = record {
  builtin = 32;
  object = 64;
  custom = 80;
  class = 72;
  function = 128;
  code = 100;
  iterable = 40;
  error = 48;
  seq = 24;
}

abbrev objects : List ℕ
objects = 2 ∷ 4 ∷ 6 ∷ []

abbrev pool : HashSet
pool = record {
  count = 3;
  hash_size = 8;
  buckets = [] ∷ [] ∷ (2 ∷ []) ∷ [] ∷ (4 ∷ []) ∷ [] ∷ (6 ∷ []) ∷ [] ∷ [];
}

abbrev gc : Gc
gc = record {
  pool = pool;
  roots = 4 ∷ [];
  function_stacks =
      record { bucket = 1; data_stack = 2 ∷ 0 ∷ []; locals = 0 ∷ 6 ∷ []; parent_stack = [] } ∷ [];
  interpreters = [];
  max_size = 250;
  cur_size = 300;
  growth_size = 1000;
  marked_size = 0;
  started = true;
  paused = false;
  marks = λ _. false;
  freed = [];
  destroyed = [];
}

pool-IsValid : IsValid pool
unfolding add_node HashSet.create mem
pool-IsValid =
    let two = add_node-NodeAdded (create-IsFormed 8 (omega arith)) 2 in
    let four = add_node-NodeAdded two.formed 4 in
    record { formed = (add_node-NodeAdded four.formed 6).formed; load = omega arith }

-- what is reachable from the second local alone is freed
run_gc_loses : (r : Gc) × (run_gc sizes (λ _. false) heap 4 gc ≡ done r) × (r.freed ≡ 6 ∷ [])
unfolding run_gc mark_object refs HashSet.remove to_list
run_gc_loses = (_, refl, refl)

collect_lem_example :
    let r = collect sizes (λ _. true) heap gc in
    IsValid r.pool
    × ((q : ℕ) → contains r.pool q ≡ (contains gc.pool q && gc.marks q))
    × ((q : ℕ) → r.marks q ≡ (gc.marks q && not (contains gc.pool q)))
    × ((q : ℕ) → mem q r.freed ≡ ((contains gc.pool q && not (gc.marks q)) || mem q gc.freed))
collect_lem_example = collect_lem sizes (λ _. true) heap gc pool-IsValid
