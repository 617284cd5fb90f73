-- ===== src/Gc/Sweep.antt =====
-- gc_collect of src/interpreter/lky_gc.c: what one sweep over the pool leaves.
use lanky.Prelude.{
  occurrences, ℕ, ◌+◌, ◌%◌, ◌^◌, ◌≤◌, ◌<◌, ◌≡◌, ◌∙◌, refl, Bool, true, false, ◌&&◌, ◌||◌, not, inl,
  inr, List, [], ◌∷◌, if◌then◌else◌, Bool-cases, arith,
}
use lanky.HashSet.{HashSet, mem, contains, to_list}
use lanky.HashSet.Add.{IsValid, mem-to_list, take-to_list}
use lanky.HashSet.Bucket.{mem_of_occurrences}
use lanky.HashSet.Remove.{remove-Removed}
use lanky.Gc.Objects.{Heap, Sizes}
use lanky.Gc.{Gc, Marks, size_of, sweep_object, sweep, collect}

-- what a sweep leaves alone
pub record SameRoots (gc r : Gc) : Type 0 where
  pub roots : r.roots ≡ gc.roots
  pub function_stacks : r.function_stacks ≡ gc.function_stacks
  pub interpreters : r.interpreters ≡ gc.interpreters
  pub growth_size : r.growth_size ≡ gc.growth_size

module _ (sizes : Sizes) (heap : Heap) where
  -- the sizes of the objects of a list that are marked, and of those that are not
  unfoldable pub live_size : Marks → List ℕ → ℕ
  live_size m [] = 0
  live_size m (o ∷ os) = (if m o then size_of sizes heap o else 0) + live_size m os

  unfoldable pub dead_size : Marks → List ℕ → ℕ
  dead_size m [] = 0
  dead_size m (o ∷ os) = (if m o then 0 else size_of sizes heap o) + dead_size m os

  -- the sizes of the objects of a list that a pool has
  unfoldable pub kept_size : HashSet → List ℕ → ℕ
  kept_size pool [] = 0
  kept_size pool (o ∷ os) =
      (if contains pool o then size_of sizes heap o else 0) + kept_size pool os

  pub kept_size-live_size :
      (pool : HashSet) (m : Marks) (os : List ℕ)
      → ((o : ℕ) → mem o os ≡ true → contains pool o ≡ m o)
      → kept_size pool os ≡ live_size m os
  unfolding kept_size live_size mem
  kept_size-live_size pool m [] h = refl
  kept_size-live_size pool m (o ∷ os) h =
      let here = h o (ground arith) in
      rw (here, kept_size-live_size pool m os (λ q inside. h q (ground (arith, inside)))) refl

  -- The effect of the loop over the objects `os`.
  pub record Swept (gc : Gc) (os : List ℕ) (r : Gc) : Type 0 where
    pub valid : IsValid r.pool
    pub reads :
        (q : ℕ)
        → contains r.pool q ≡ (if mem q os && not (gc.marks q) then false else contains gc.pool q)
    pub unmarks : (q : ℕ) → r.marks q ≡ (if mem q os then false else gc.marks q)
    pub frees :
        (q : ℕ) → mem q r.freed ≡ (if mem q os && not (gc.marks q) then true else mem q gc.freed)
    pub same : SameRoots gc r
    pub smaller :
        gc.cur_size < 2 ^ 64
        → dead_size gc.marks os ≤ gc.cur_size
        → r.cur_size + dead_size gc.marks os ≡ gc.cur_size
    pub counted :
        gc.marked_size + live_size gc.marks os < 2 ^ 64
        → r.marked_size ≡ gc.marked_size + live_size gc.marks os
    pub sized :
        gc.marked_size < 2 ^ 64 → r.marked_size ≡ (gc.marked_size + live_size gc.marks os) % 2 ^ 64

module _ (sizes : Sizes) (has_on_destroy : ℕ → Bool) (heap : Heap) where
  abbrev SweptHere : Gc → List ℕ → Gc → Type 0
  SweptHere = Swept sizes heap

  module _ {gc r : Gc} {o : ℕ} {os : List ℕ} (ih : SweptHere gc os r)
      (apart : mem o os ≡ false) where
    seen : r.marks o ≡ gc.marks o
    seen = rw (ih.unmarks o, apart)

    keeps : gc.marks o ≡ true → SweptHere gc (o ∷ os) (sweep_object sizes has_on_destroy heap o r)
    unfolding sweep_object mem live_size dead_size
    keeps e =
        let e' : r.marks o ≡ true = seen ∙ e in
        rw e' (record {
          valid = ih.valid;
          reads = λ q. ground (arith, ih.reads q);
          unmarks = λ q. ground (arith, ih.unmarks q);
          frees = λ q. ground (arith, ih.frees q);
          same = record {
            roots = ih.same.roots;
            function_stacks = ih.same.function_stacks;
            interpreters = ih.same.interpreters;
            growth_size = ih.same.growth_size;
          };
          smaller = λ fits enough. ground (arith, ih.smaller);
          counted = λ fits. ground (arith, ih.counted);
          sized = λ fits. ground (arith, ih.sized);
        })

    drops : gc.marks o ≡ false → SweptHere gc (o ∷ os) (sweep_object sizes has_on_destroy heap o r)
    unfolding sweep_object mem live_size dead_size
    drops e =
        let e' : r.marks o ≡ false = seen ∙ e in
        let gone = remove-Removed ih.valid o in
        rw e' (record {
          valid = gone.valid;
          reads = λ q. ground (arith, gone.reads q, ih.reads q);
          unmarks = λ q. ground (arith, ih.unmarks q);
          frees = λ q. ground (arith, ih.frees q);
          same = record {
            roots = ih.same.roots;
            function_stacks = ih.same.function_stacks;
            interpreters = ih.same.interpreters;
            growth_size = ih.same.growth_size;
          };
          smaller = λ fits enough. ground (arith, ih.smaller);
          counted = λ fits. ground (arith, ih.counted);
          sized = λ fits. ground (arith, ih.sized);
        })

  sweep-Swept :
      (os : List ℕ) (gc : Gc)
      → IsValid gc.pool
      → ((q : ℕ) → occurrences q os ≤ 1)
      → SweptHere gc os (sweep sizes has_on_destroy heap os gc)
  unfolding sweep mem occurrences live_size dead_size
  sweep-Swept [] gc v once = record {
    valid = v;
    reads = λ q. refl;
    unmarks = λ q. refl;
    frees = λ q. refl;
    same = record { roots = refl; function_stacks = refl; interpreters = refl; growth_size = refl };
    smaller = λ _ _. omega arith;
    counted = λ _. omega arith;
    sized = λ fits. omega (arith, fits);
  }
  sweep-Swept (o ∷ os) gc v once =
      let ih = sweep-Swept os gc v (λ q. omega (arith, once q)) in
      let apart : mem o os ≡ false = mem_of_occurrences o os (ground (arith, once o)) in
      elim (Bool-cases (gc.marks o)) [ inl e ↦ keeps ih apart e | inr e ↦ drops ih apart e ]

  module _ (gc : Gc) (v : IsValid gc.pool) where
    abbrev objects : List ℕ
    objects = to_list gc.pool

    collected :
        SweptHere (record gc { marked_size = 0 }) objects (collect sizes has_on_destroy heap gc)
    unfolding collect
    collected =
        rw (take-to_list v.formed) (
          (sweep-Swept objects (record gc { marked_size = 0 }) v (λ q. (mem-to_list v.formed q).1)))

    -- `gc_collect` on a well-formed pool: the pool keeps exactly its marked objects and they lose
    -- their marks, no other mark changes, and what went to `lobj_dealloc` is exactly its unmarked
    -- objects.
    pub collect_lem :
        let r = collect sizes has_on_destroy heap gc in
        IsValid r.pool
        × ((q : ℕ) → contains r.pool q ≡ (contains gc.pool q && gc.marks q))
        × ((q : ℕ) → r.marks q ≡ (gc.marks q && not (contains gc.pool q)))
        × ((q : ℕ) → mem q r.freed ≡ ((contains gc.pool q && not (gc.marks q)) || mem q gc.freed))
    collect_lem =
        let w = collected in
        (
          w.valid,
          λ q. ground (arith, w.reads q, (mem-to_list v.formed q).0),
          λ q. ground (arith, w.unmarks q, (mem-to_list v.formed q).0),
          λ q. ground (arith, w.frees q, (mem-to_list v.formed q).0),
        )

    pub collect-SameRoots : SameRoots gc (collect sizes has_on_destroy heap gc)
    collect-SameRoots =
        let same = collected.same in
        record {
          roots = same.roots;
          function_stacks = same.function_stacks;
          interpreters = same.interpreters;
          growth_size = same.growth_size;
        }

    -- `marked_size`, which starts at 0, as a sum that wraps
    pub collect-sized :
        (collect sizes has_on_destroy heap gc).marked_size
        ≡ live_size sizes heap gc.marks (to_list gc.pool) % 2 ^ 64
    collect-sized = omega (arith, collected.sized (omega arith))

    -- `gc_collect` on a well-formed pool, where no `size_t` wraps and `cur_size` counts at least what
    -- is freed: `cur_size` falls by the sizes of the unmarked objects, and `marked_size` becomes the
    -- sizes of the marked ones.
    pub collect-sizes :
        gc.cur_size < 2 ^ 64
        → dead_size sizes heap gc.marks (to_list gc.pool) ≤ gc.cur_size
        → live_size sizes heap gc.marks (to_list gc.pool) < 2 ^ 64
        → let r = collect sizes has_on_destroy heap gc in
          (r.cur_size + dead_size sizes heap gc.marks (to_list gc.pool) ≡ gc.cur_size)
          × (r.marked_size ≡ live_size sizes heap gc.marks (to_list gc.pool))
    collect-sizes fits enough small =
        (collected.smaller fits enough, omega (arith, collected.counted (omega arith)))
