-- ===== src/Gc/Roots.antt =====
-- gc_mark of src/interpreter/lky_gc.c: the addresses that it starts from, and what it marks.
use lanky.Prelude.{
  ℕ, ◌≡◌, ◌∙◌, sym, ap, refl, inl, inr, List, [], ◌∷◌, ◌++◌, ◌==◌, if◌then◌else◌, concat,
  Bool-cases,
}
use mathlib.Core.Path.{fun_ext}
use lanky.HashTable.{Table, Node, for_each}
use lanky.HashTable.Each.{visit, for_each-visit}
use lanky.Gc.Objects.{Heap, Frame, member_refs}
use lanky.Gc.{
  Gc, Marks, Outcome, done, null_read, no_fuel, ◌>>=◌, mark_list, mark_stack, mark_object,
  mark_function_stack, mark_modules, mark,
}

-- what `gc_mark_stack` reads of a stack
unfoldable pub until_null : List ℕ → List ℕ
until_null [] = []
until_null (o ∷ os) = if o == 0 then [] else o ∷ until_null os

unfoldable pub frame_refs : Frame → List ℕ
frame_refs frame =
    frame.bucket ∷ (until_null frame.data_stack ++ (until_null frame.locals ++ frame.parent_stack))

unfoldable pub frames_refs : List Frame → List ℕ
frames_refs [] = []
frames_refs (frame ∷ frames) = frame_refs frame ++ frames_refs frames

unfoldable pub modules_refs : List (Table (List ℕ)) → List ℕ
modules_refs [] = []
modules_refs (t ∷ ts) = member_refs t ++ modules_refs ts

-- All the addresses that `gc_mark` starts from.
unfoldable pub root_refs : Gc → List ℕ
root_refs gc = gc.roots ++ (frames_refs gc.function_stacks ++ modules_refs gc.interpreters)

module _ (call : ℕ → Marks → Outcome Marks) where
  bind_assoc :
      {A B C : Type 0} (r : Outcome A) (f : A → Outcome B) (g : B → Outcome C)
      → ((r >>= f) >>= g) ≡ (r >>= λ a. f a >>= g)
  bind_assoc (done a) f g = refl
  bind_assoc null_read f g = refl
  bind_assoc no_fuel f g = refl

  mark_list-append :
      (xs ys : List ℕ) (m : Marks)
      → mark_list call (xs ++ ys) m ≡ (mark_list call xs m >>= mark_list call ys)
  unfolding mark_list
  mark_list-append [] ys m = refl
  mark_list-append (x ∷ xs) ys m =
      ap (λ f. call x m >>= f) (fun_ext (mark_list-append xs ys))
      ∙ sym (bind_assoc (call x m) (mark_list call xs) (mark_list call ys))

  mark_stack-until_null :
      (os : List ℕ) (m : Marks) → mark_stack call os m ≡ mark_list call (until_null os) m
  unfolding mark_stack mark_list until_null
  mark_stack-until_null [] m = refl
  mark_stack-until_null (o ∷ os) m = elim (Bool-cases (o == 0)) [
    | inl e ↦ rw e
    | inr e ↦ rw (e, mark_list) (ap (λ f. call o m >>= f) (fun_ext (mark_stack-until_null os)))
  ]

  mark_function_stack-refs :
      (frames : List Frame) → mark_function_stack call frames ≡ mark_list call (frames_refs frames)
  unfolding mark_function_stack mark_list frames_refs frame_refs
  mark_function_stack-refs [] = refl
  mark_function_stack-refs (frame ∷ frames) = fun_ext λ m. simp (
    frames_refs,
    frame_refs,
    mark_list,
    mark_stack-until_null,
    mark_function_stack-refs frames,
    mark_list-append,
    bind_assoc,
  )

  bind_done : {A : Type 0} (r : Outcome A) → (r >>= done) ≡ r
  bind_done (done a) = refl
  bind_done null_read = refl
  bind_done no_fuel = refl

  mark_list-snoc :
      (os : List ℕ) (o : ℕ) (m : Marks)
      → mark_list call (os ++ o ∷ []) m ≡ (mark_list call os m >>= call o)
  unfolding mark_list
  mark_list-snoc os o m =
      mark_list-append os (o ∷ []) m
      ∙ ap (λ f. mark_list call os m >>= f) (fun_ext λ m₁. bind_done (call o m₁))

  mark_visit :
      (c : List (Node (List ℕ))) (os : List ℕ) (m : Marks) (r : Outcome Marks)
      → r ≡ mark_list call os m
      → visit (λ _ val r. r >>= call val) c r
        ≡ mark_list call (visit (λ _ val os. os ++ val ∷ []) c os) m
  mark_visit [] os m r e = e
  mark_visit (n ∷ c) os m r e =
      mark_visit c (os ++ n.val ∷ []) m (r >>= call n.val) (rw e (sym (mark_list-snoc os n.val m)))

  mark_modules-refs :
      (ts : List (Table (List ℕ))) → mark_modules call ts ≡ mark_list call (modules_refs ts)
  unfolding mark_modules mark_list modules_refs member_refs
  mark_modules-refs [] = refl
  mark_modules-refs (t ∷ ts) = fun_ext λ m.
      let nodes = concat t.buckets in
      let first : for_each (λ _ val r. r >>= call val) t (done m)
          ≡ mark_list call (member_refs t) m =
        for_each-visit (λ _ val r. r >>= call val) t (done m)
        ∙ mark_visit nodes [] m (done m) refl
        ∙ ap (λ os. mark_list call os m) (sym (for_each-visit (λ _ val os. os ++ val ∷ []) t [])) in
      rw (first, mark_modules-refs ts) (sym (mark_list-append (member_refs t) (modules_refs ts) m))

module _ (heap : Heap) where
  -- `gc_mark` is one run over the addresses that it starts from.
  pub mark-root_refs :
      (fuel : ℕ) (gc : Gc)
      → mark heap fuel gc ≡ (
          mark_list (mark_object heap fuel) (root_refs gc) gc.marks >>= λ m.
          done (record gc { marks = m }))
  unfolding mark root_refs
  mark-root_refs fuel gc =
      let call = mark_object heap fuel in
      (λ i. mark_list call gc.roots gc.marks >>= λ m₁.
      mark_function_stack-refs call gc.function_stacks i m₁ >>= λ m₂.
      mark_modules-refs call gc.interpreters i m₂ >>= λ m₃. done (record gc { marks = m₃ }))
      ∙ simp (mark_list-append call, bind_assoc call)

module _ (call : ℕ → Marks → Outcome Marks) where
  -- `gc_mark_stack` visits nothing behind the first empty slot: whatever stands there, it does what it
  -- would do if the stack ended before that slot.
  pub mark_stack-null :
      (before behind : List ℕ) (m : Marks)
      → mark_stack call (before ++ 0 ∷ behind) m ≡ mark_stack call before m
  unfolding mark_stack
  mark_stack-null [] behind m = refl
  mark_stack-null (o ∷ os) behind m = elim (Bool-cases (o == 0)) [
    | inl e ↦ rw e
    | inr e ↦ rw e (ap (λ f. call o m >>= f) (fun_ext (mark_stack-null os behind)))
  ]
