-- ===== src/Operators/OnStack.antt =====
-- The instructions of src/interpreter/lky_machine.c with the operators of src/interpreter/mach_binary_ops.c.
use Prim.Native.String.{String}
use lanky.Prelude.{ℕ, ◌+◌, ◌≤◌, ◌≡◌, refl, ◌∙◌, some, arith}
use lanky.Bytecode.{Op}
use lanky.Machine.{DataStack, done, push_node, pop_node}
use lanky.Machine.Stack.{IsValid, pop_node-push_node, push_node-used}
use lanky.Machine.Frame.{Frame, ◌>>◌, push, pop, call, on_stack, popped}
use lanky.Machine.Dispatch.{Runtime, binary_op, push_reply}
use lanky.Machine.Eval.{instruction}
use lanky.Operators.{Doubles, Values, Answer}
use lanky.Operators.Binary.{binary}
use lanky.Operators.Custom.{
  Looks, for_add, for_subtract, for_multiply, for_divide, for_modulo, for_power, for_lt, for_gt,
  for_equal, for_lte, for_gte, for_ne, for_and, for_or, for_band, for_bor, for_bxor, for_blshift,
  for_brshift,
}

-- The machine's operators are those of mach_binary_ops.c, where they give a value that is there.
pub record Uses {W : Type 0} (rt : Runtime W) (dbl : Doubles) (v : W → Values) : Type 0 where
  pub same :
      (op : Op) (a b p : ℕ) (w : W)
      → binary dbl (v w) op a b ≡ some (Answer.at p)
      → rt.binary op a b w ≡ record { value = p; raised = 0; after = w }

module _ {W : Type 0} (rt : Runtime W) where
  instruction-binary_op :
      {op : Op} {name : String}
      → Looks op name
      → (f : Frame W) → instruction rt op f ≡ binary_op rt op f
  unfolding instruction
  instruction-binary_op for_add f = refl
  instruction-binary_op for_subtract f = refl
  instruction-binary_op for_multiply f = refl
  instruction-binary_op for_divide f = refl
  instruction-binary_op for_modulo f = refl
  instruction-binary_op for_power f = refl
  instruction-binary_op for_lt f = refl
  instruction-binary_op for_gt f = refl
  instruction-binary_op for_equal f = refl
  instruction-binary_op for_lte f = refl
  instruction-binary_op for_gte f = refl
  instruction-binary_op for_ne f = refl
  instruction-binary_op for_and f = refl
  instruction-binary_op for_or f = refl
  instruction-binary_op for_band f = refl
  instruction-binary_op for_bor f = refl
  instruction-binary_op for_bxor f = refl
  instruction-binary_op for_blshift f = refl
  instruction-binary_op for_brshift f = refl

  -- two values on a stack are taken off it again, and the result is put in their place
  binary_op-push :
      (op : Op) (f : Frame W) (a b p : ℕ) (s₁ s₂ s₃ : DataStack)
      → pop_node s₂ ≡ done (b, s₁)
      → pop_node s₁ ≡ done (a, f.stack)
      → rt.binary op a b f.world ≡ record { value = p; raised = 0; after = f.world }
      → push_node f.stack p ≡ done s₃
      → binary_op rt op (record f { stack = s₂ }) ≡ done (tt, record f { stack = s₃ })
  unfolding binary_op push_reply call pop popped push on_stack
  binary_op-push op f a b p s₁ s₂ s₃ second first result room =
      rw (binary_op, second, first, push_reply, call, result, room) refl

-- An instruction of a binary operator that finds two values on the stack, and whose operator gives a value
-- that is there, leaves the frame as if the value had been pushed in place of the two: the stack needs no
-- more room, and neither an error nor anything else is changed.
pub instruction_in_place :
    {W : Type 0} (rt : Runtime W) (dbl : Doubles) (v : W → Values) (op : Op) (name : String)
    (f : Frame W) (a b p : ℕ)
    → Uses rt dbl v
    → Looks op name
    → IsValid f.stack
    → f.stack.used + 2 ≤ f.stack.stack_size
    → binary dbl (v f.world) op a b ≡ some (Answer.at p)
    → (f₂ f₃ : Frame W) × ((push a >> push b) f ≡ done (tt, f₂))
      × (instruction rt op f₂ ≡ done (tt, f₃))
      × (push p f ≡ done (tt, f₃))
unfolding push on_stack
instruction_in_place rt dbl v op name f a b p uses looks valid room result =
    let (s₁, put, valid₁, seen, taken) = pop_node-push_node valid a (omega (arith, room)) in
    let grown = push_node-used f.stack a s₁ put in
    let (s₂, put', valid₂, seen', taken') =
      pop_node-push_node valid₁ b (omega (arith, room, grown)) in
    let (s₃, put'', valid₃, seen'', taken'') = pop_node-push_node valid p (omega (arith, room)) in
    (
      record f { stack = s₂ },
      record f { stack = s₃ },
      rw (put, put') refl,
      instruction-binary_op rt looks (record f { stack = s₂ })
          ∙ binary_op-push rt op f a b p s₁ s₂ s₃ taken' taken (uses.same op a b p f.world result)
              put'',
      rw put'' refl,
    )
