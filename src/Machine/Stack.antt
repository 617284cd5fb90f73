-- ===== src/Machine/Stack.antt =====
-- push_node, top_node and pop_node of src/interpreter/lky_machine.c.
use lanky.Prelude.{
  ℕ, zero, suc, ap, ◌+◌, ◌-◌, ◌<◌, ◌≤◌, ◌≡◌, ◌≢◌, refl, List, [], ◌∷◌, false, ◌==◌, length, get_or,
  set, length-set, length-replicate, get_or-set, get_or-replicate, arith, ltb, Bool-cases, inl, inr,
}
use lanky.Machine.{
  DataStack, Access, done, outside, stopped, new_stack, push_node, top_node, pop_node,
}

-- The stack is inside of its memory, and what is above it is cleared.
pub record IsValid (f : DataStack) : Type 0 where
  pub memory : length f.data_stack ≡ f.stack_size
  pub bound : f.used ≤ f.stack_size
  pub clear : (i : ℕ) → f.used ≤ i → get_or f.data_stack i 0 ≡ 0

pub new_stack-IsValid : (size : ℕ) → IsValid (new_stack size)
unfolding new_stack
new_stack-IsValid size = record {
  memory = length-replicate size 0;
  bound = omega arith;
  clear = λ i h. get_or-replicate size i 0;
}

set-set : (xs : List ℕ) (i v : ℕ) → get_or xs i 0 ≡ 0 → set (set xs i v) i 0 ≡ xs
set-set [] i v h = refl
set-set (x ∷ xs) zero v h = rw h refl
set-set (x ∷ xs) (suc i) v h = ap (◌∷◌ x) (set-set xs i v h)

-- The test of `push_node` lets a full stack pass: the value is written behind the memory of the stack,
-- and the program is not stopped.
pub push_node_full :
    {f : DataStack}
    → IsValid f
    → (value : ℕ) → f.used ≡ f.stack_size
    → (push_node f value ≡ outside) × (push_node f value ≢ stopped)
unfolding push_node
push_node_full {f} v value full = (ground arith, ground arith)

-- A value that is pushed on a well-formed stack with room leaves it well-formed and is its top, and popping
-- it gives the value and the stack as it was.
pub pop_node-push_node :
    {f : DataStack}
    → IsValid f
    → (value : ℕ) → f.used < f.stack_size
    → (g : DataStack) × (push_node f value ≡ done g)
      × IsValid g
      × (top_node g ≡ done value)
      × (pop_node g ≡ done (value, f))
unfolding push_node top_node pop_node
pop_node-push_node {f} v value room =
    let one_less : f.used + 1 - 1 ≡ f.used = omega arith in
    let top : get_or (set f.data_stack f.used value) f.used 0 ≡ value =
      ground (arith, get_or-set f.data_stack f.used f.used value 0, v.memory) in
    let some_used : (f.used + 1 == 0) ≡ false = ground arith in
    (
      record f { data_stack = set f.data_stack f.used value; used = f.used + 1 },
      ground arith,
      record {
        memory = omega (arith, length-set f.data_stack f.used value, v.memory);
        bound = omega arith;
        clear =
            λ i h. ground (arith, get_or-set f.data_stack f.used i value 0, v.memory, v.clear i);
      },
      rw (some_used, one_less, top) refl,
      rw
          (
            some_used,
            one_less,
            top,
            set-set f.data_stack f.used value (v.clear f.used (omega arith)),
          )
          refl,
    )

-- a push
pub push_node-used :
    (s : DataStack) (a : ℕ) (s₁ : DataStack)
    → push_node s a ≡ done s₁
    → (s₁.used ≡ s.used + 1) × (s₁.stack_size ≡ s.stack_size)
unfolding push_node
push_node-used s a s₁ e = elim (Bool-cases (ltb s.stack_size s.used)) [
  | inl over ↦ absurd (let f = rw over at e in cc)
  | inr below ↦ elim (Bool-cases (ltb s.used s.stack_size)) [
    | inl room ↦ let f = rw (below, room) at e in pushed f
    | inr full ↦ absurd (let f = rw (below, full) at e in cc)
  ]
]
  where
    pushed :
        {s' : DataStack}
        → ◌≡◌ {A = Access DataStack} (done s') (done s₁)
        → (s₁.used ≡ s'.used) × (s₁.stack_size ≡ s'.stack_size)
    pushed {s'} f = (cc, cc)
