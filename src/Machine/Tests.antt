-- ===== src/Machine/Tests.antt =====
-- src/interpreter/lky_machine.c on a stack of two slots, and on the code of `return 2 + 3`.
use lanky.Prelude.{
  ℕ, zero, suc, get_or, ◌+◌, ◌≤◌, ◌≡◌, refl, sym, some, List, length, [], ◌∷◌, true, false, arith,
}
use lanky.Machine.Frame.{Reply, Frame, push_catch}
use lanky.Machine.Dispatch.{Runtime}
use lanky.Machine.Eval.{instruction, mach_eval, returned, threw}
use lanky.Machine.Moves.{OnDone}
use lanky.Machine.Growth.{Fits, instruction-Fits}
use lanky.Machine.Classes.{make_class_grows}
use lanky.Machine.Catches.{push_catch-pop_catch}
use lanky.Bytecode
use lanky.Bytecode.{up, effect_of_op, calculate_max_catch_depth}
use lanky.Machine.{DataStack, done, outside}
use lanky.Machine.Stack.{IsValid}

abbrev one_value : DataStack
one_value = record { data_stack = 5 ∷ 0 ∷ []; used = 1; stack_size = 2 }

one_value-IsValid : IsValid one_value
one_value-IsValid = record { memory = refl; bound = omega arith; clear = clear }
  where
    clear : (i : ℕ) → 1 ≤ i → get_or one_value.data_stack i 0 ≡ 0
    clear zero h = absurd (omega arith)
    clear (suc zero) h = refl
    clear (suc (suc i)) h = refl

abbrev full : DataStack
full = record { data_stack = 5 ∷ 6 ∷ []; used = 2; stack_size = 2 }

full-IsValid : IsValid full
full-IsValid = record { memory = refl; bound = omega arith; clear = clear }
  where
    clear : (i : ℕ) → 2 ≤ i → get_or full.data_stack i 0 ≡ 0
    clear zero h = absurd (omega arith)
    clear (suc zero) h = absurd (omega arith)
    clear (suc (suc i)) h = refl

abbrev replied : ℕ → Reply (Unit {0})
replied v = record { value = v; raised = 0; after = tt }

-- the binary operators all add, and the address of an error is 9
abbrev adding : Runtime (Unit {0})
adding = record {
  nil = 1;
  yes = 2;
  no = 3;
  binary = λ op a b w. replied (a + b);
  unary = λ op a w. replied a;
  is_true = λ v w. false;
  print_object = λ v w. replied 0;
  alloc = λ w. replied 40;
  invoke = λ f args w. replied 41;
  thrown = λ w. 0;
  clear_thrown = λ w. w;
  has_no_members = λ v w. false;
  get_member = λ b name w. replied 0;
  set_member = λ b name v w. replied 0;
  build_error = λ why w. replied 9;
  build_func = λ code argc stack w. replied 42;
  init_class = λ init super w. replied 43;
  add_member = λ cls name v prefix w. replied 0;
  make_array = λ items w. replied 44;
  make_table = λ keys values w. replied 45;
  load_index = λ target idx w. replied 46;
  save_index = λ target idx v w. replied 0;
  build_iterable = λ v w. replied 47;
  next_iterable = λ it w. replied 0;
  iter_index = λ it w. replied 48;
  load_module = λ name dir w. replied 49;
  gc = λ w. w;
}

abbrev frame_of : List ℕ → Frame (Unit {0})
frame_of ops = record {
  next = 0;
  ops = ops;
  constants = 20 ∷ 30 ∷ [];
  names = [];
  locals = [];
  stack = record { data_stack = 0 ∷ 0 ∷ []; used = 0; stack_size = 2 };
  catch_stack = 0 ∷ [];
  catch_pointer = 0;
  ret = 0;
  error = 0;
  bucket = 50;
  parent_stack = [];
  world = tt;
}

-- `return 20 + 30`
abbrev sum_code : List ℕ
sum_code = 72 ∷ 0 ∷ 0 ∷ 0 ∷ 0 ∷ 72 ∷ 1 ∷ 0 ∷ 0 ∷ 0 ∷ 50 ∷ 87 ∷ []

mach_eval-sum_code :
    mach_eval adding 5 true (frame_of sum_code)
    ≡ done (returned (record (frame_of sum_code) { next = 12; ret = 50 }))
unfolding mach_eval
mach_eval-sum_code = refl

-- a try whose handler, behind the position 10, returns the error
abbrev try_code : List ℕ
try_code = 107 ∷ 10 ∷ 0 ∷ 0 ∷ 0 ∷ 72 ∷ 0 ∷ 0 ∷ 0 ∷ 0 ∷ 80 ∷ 87 ∷ []

abbrev failed : Frame (Unit {0})
failed = record (frame_of try_code) {
  error = 9;
  catch_stack = 10 ∷ [];
  catch_pointer = 1;
  next = 10;
}

mach_eval_caught :
    mach_eval adding 2 true failed
    ≡ done (returned (record failed { error = 0; catch_pointer = 0; next = 12; ret = 9 }))
unfolding mach_eval
mach_eval_caught = refl

mach_eval_threw :
    mach_eval adding 2 true (record failed { catch_pointer = 0 })
    ≡ done (threw 9 (record failed { error = 0; catch_pointer = 0 }))
unfolding mach_eval
mach_eval_threw = refl

instruction-Fits_example :
    OnDone
      (λ r. Fits (effect_of_op Bytecode.load_const []) 0 r.1.stack.used)
      (instruction adding Bytecode.load_const (record (frame_of sum_code) { next = 1 }))
instruction-Fits_example =
    instruction-Fits adding Bytecode.load_const [] (record (frame_of sum_code) { next = 1 })
      (λ e. cc) (λ e. cc)

abbrev class_frame : Frame (Unit {0})
class_frame = record (frame_of (91 ∷ 0 ∷ 0 ∷ [])) { next = 1 }

make_class_grows_example :
    (f' : Frame (Unit {0})) × (instruction adding Bytecode.make_class class_frame ≡ done (tt, f'))
    × (f'.stack.used ≡ 1)
    × (effect_of_op Bytecode.make_class (0 ∷ 0 ∷ []) ≡ some (up 0, 1))
make_class_grows_example = make_class_grows adding class_frame (0 ∷ []) refl refl (omega arith)

abbrev only_try : Frame (Unit {0})
only_try = record (frame_of (107 ∷ 5 ∷ 0 ∷ 0 ∷ 0 ∷ 108 ∷ [])) { next = 5 }

only_try-size : calculate_max_catch_depth only_try.ops ≡ 1
unfolding calculate_max_catch_depth
only_try-size = refl

push_catch-pop_catch_example :
    (f' : Frame (Unit {0})) × (push_catch 5 only_try ≡ done (tt, f'))
    × (f'.catch_pointer ≡ length f'.catch_stack)
    × (instruction adding Bytecode.pop_catch f' ≡ outside)
push_catch-pop_catch_example =
    push_catch-pop_catch adding only_try 5 (sym only_try-size) (sym only_try-size)
