-- ===== src/Machine/Classes.antt =====
-- LI_MAKE_CLASS of src/interpreter/lky_machine.c against its effect in
-- src/compiler/bytecode_analyzer.c.
use lanky.Prelude.{ℕ, ◌+◌, ◌<◌, ◌≡◌, refl, true, false, some, List, ◌∷◌, ltb, arith, get_elem?}
use lanky.Machine.{done}
use lanky.Machine.Frame.{Frame}
use lanky.Machine.Dispatch.{Runtime}
use lanky.Machine.Eval.{instruction}
use lanky.Bytecode
use lanky.Bytecode.{Effect, down, up, effect_of_op}

module _ {W : Type 0} (rt : Runtime W) where
  -- A class without members, superclass and constructor leaves one value more on a stack with room, and
  -- the analyzer counts no effect for it.
  pub make_class_grows :
      (f : Frame W) (rest : List ℕ)
      → get_elem? f.ops f.next ≡ some 0
      → get_elem? f.ops (f.next + 1) ≡ some 0
      → f.stack.used < f.stack.stack_size
      → (f' : Frame W) × (instruction rt Bytecode.make_class f ≡ done (tt, f'))
        × (f'.stack.used ≡ f.stack.used + 1)
        × (effect_of_op Bytecode.make_class (0 ∷ rest) ≡ some (up 0, 1))
  unfolding instruction effect_of_op
  make_class_grows f rest count flags room =
      let fits : ltb f.stack.stack_size f.stack.used ≡ false = ground arith in
      let free : ltb f.stack.used f.stack.stack_size ≡ true = ground arith in
      rw (count, flags, fits, free) (_, refl, refl, refl)
