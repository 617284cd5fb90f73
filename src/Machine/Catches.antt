-- ===== src/Machine/Catches.antt =====
-- LI_PUSH_CATCH and LI_POP_CATCH of src/interpreter/lky_machine.c on the catch stack whose size
-- src/compiler/bytecode_analyzer.c computes.
use lanky.Prelude.{ℕ, ◌+◌, ◌≡◌, refl, true, false, ltb, length, set, length-set, arith}
use lanky.Machine.{done, outside}
use lanky.Machine.Frame.{Frame, push_catch}
use lanky.Machine.Dispatch.{Runtime}
use lanky.Machine.Eval.{instruction}
use lanky.Bytecode
use lanky.Bytecode.{calculate_max_catch_depth}

module _ {W : Type 0} (rt : Runtime W) where
  -- On the catch stack of mach_execute, whose size is the number that the analyzer computes for the code:
  -- with one slot left, a LI_PUSH_CATCH is inside of it, and the LI_POP_CATCH after it is not.
  pub push_catch-pop_catch :
      (f : Frame W) (idx : ℕ)
      → length f.catch_stack ≡ calculate_max_catch_depth f.ops
      → f.catch_pointer + 1 ≡ calculate_max_catch_depth f.ops
      → (f' : Frame W) × (push_catch idx f ≡ done (tt, f'))
        × (f'.catch_pointer ≡ length f'.catch_stack)
        × (instruction rt Bytecode.pop_catch f' ≡ outside)
  unfolding instruction push_catch
  push_catch-pop_catch f idx size last =
      let free : ltb f.catch_pointer (length f.catch_stack) ≡ true = ground arith in
      let filled : f.catch_pointer + 1 ≡ length (set f.catch_stack f.catch_pointer idx) =
        omega (arith, length-set f.catch_stack f.catch_pointer idx) in
      let full : ltb (f.catch_pointer + 1) (length (set f.catch_stack f.catch_pointer idx))
          ≡ false =
        ground arith in
      rw (free) (_, refl, filled, rw (full) refl)
