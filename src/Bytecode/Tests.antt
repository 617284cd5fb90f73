-- ===== src/Bytecode/Tests.antt =====
-- src/compiler/bytecode_analyzer.c on short pieces of code.
use lanky.Prelude.{◌≡◌, refl, List, [], ◌∷◌, arith}
use lanky.Bytecode.{
  up, down, pos, depth, read_outside, calculate_max_stack_depth, calculate_max_catch_depth,
  stack_effect_for, op_of,
}
use lanky.Bytecode.Walk.{Instruction, AreClean, encode, highest, calculate_max_stack_depth-encode}

-- nil, constant 3, their sum, and return
abbrev sum : List Instruction
sum =
    record { byte = 83; operands = []; effect = up 1 }
    ∷ record { byte = 72; operands = 3 ∷ 0 ∷ 0 ∷ 0 ∷ []; effect = up 1 }
    ∷ record { byte = 50; operands = []; effect = down }
    ∷ record { byte = 87; operands = []; effect = down }
    ∷ []

sum-AreClean : AreClean sum
unfolding stack_effect_for op_of
sum-AreClean = (
  record { skip = 0; reads = λ rest. refl; inside = omega arith; quiet = tt },
  (
    record {
      skip = 1;
      reads = λ rest. refl;
      inside = omega arith;
      quiet = (refl, (refl, (refl, tt)));
    },
    (
      record { skip = 0; reads = λ rest. refl; inside = omega arith; quiet = tt },
      (record { skip = 0; reads = λ rest. refl; inside = omega arith; quiet = tt }, tt),
    ),
  ),
)

calculate_max_stack_depth-sum : calculate_max_stack_depth (encode sum) ≡ depth 2
unfolding calculate_max_stack_depth
calculate_max_stack_depth-sum = refl

-- The address behind a PUSH_CATCH is not skipped. Its first byte is a POP here, and the two values that
-- the code then has on the stack are counted as one.
calculate_max_stack_depth-push_catch :
    calculate_max_stack_depth (107 ∷ 74 ∷ 0 ∷ 0 ∷ 0 ∷ 83 ∷ 83 ∷ 50 ∷ 87 ∷ []) ≡ depth 1
unfolding calculate_max_stack_depth
calculate_max_stack_depth-push_catch = refl

-- a MAKE_CLASS at the very end
calculate_max_stack_depth-cut : calculate_max_stack_depth (91 ∷ []) ≡ read_outside
unfolding calculate_max_stack_depth
calculate_max_stack_depth-cut = refl

calculate_max_catch_depth-push_catch : calculate_max_catch_depth (107 ∷ 107 ∷ 0 ∷ 0 ∷ 0 ∷ []) ≡ 2
unfolding calculate_max_catch_depth
calculate_max_catch_depth-push_catch = refl

calculate_max_stack_depth-encode_example :
    calculate_max_stack_depth (encode sum) ≡ depth (highest (pos 0) 0 sum)
calculate_max_stack_depth-encode_example = calculate_max_stack_depth-encode sum sum-AreClean
