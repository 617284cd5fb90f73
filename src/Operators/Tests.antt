-- ===== src/Operators/Tests.antt =====
-- src/interpreter/mach_binary_ops.c on a memory with an integer, a custom object and a function.

use lanky.Prelude.{
  ℕ, zero, suc, ◌≤◌, get_or, [], ◌∷◌, ◌+◌, ◌-◌, ◌*◌, ◌%◌, ◌^◌, ◌≡◌, refl, inl, true, not, ◌||◌,
  Option, none, some, ◌==◌, if◌then◌else◌, arith,
}
use lanky.Bytecode
use lanky.Bytecode.{Op}
use lanky.Machine.{done, DataStack}
use lanky.Machine.Stack.{IsValid}
use lanky.Machine.Frame.{Reply, Frame, ◌>>◌, push}
use lanky.Machine.Dispatch.{Runtime}
use lanky.Machine.Eval.{instruction}
use lanky.Operators.OnStack.{Uses, instruction_in_place}
use lanky.Operators.{Kind, Object, Doubles, Values, Answer, modulo_long, shift_right}
use lanky.Operators.Numbers.{Holds, IsValues, Represents, by_tag, by_object}
use lanky.Operators.Binary.{
  binary, binary_add, binary_subtract, binary_lessthan, binary_greaterthan, binary_lessequal,
  binary_greatequal, binary_equals, binary_notequal, binary_and, binary_or, binary_bxor,
  unary_negative,
}
use lanky.Operators.Arithmetic.{
  long_less, IsExact, add_and_subtract_lem, comparisons_lem, connectives_outside,
}
use lanky.Operators.Custom.{for_lt}

-- a `double` that holds every integer
abbrev exact : Doubles
exact = record {
  of_long = λ n. n;
  to_long = λ n. n % 2 ^ 64;
  to_int = λ n. n % 2 ^ 32;
  plus = λ x y. x + y;
  minus = λ x y. x + (2 ^ 64 - y);
  times = λ x y. x * y;
  over = λ x y. x;
  remainder = λ x y. x;
  pow = λ x y. x ^ y;
  negated = λ x. 2 ^ 64 - x;
  less = long_less;
  less_equal = λ x y. not (long_less y x);
  equal = λ x y. x == y;
  is_zero = λ x. x == 0;
}

exact-IsExact : IsExact exact
exact-IsExact = record {
  plus_exact = λ m n h g. refl;
  minus_exact = λ m n h g. refl;
  less_exact = λ m n h g. refl;
  less_equal_exact = λ m n h g. refl;
  equal_exact = λ m n h g. refl;
}

abbrev of_kind : Kind → ℕ → ℕ → Option Object
of_kind type word argc = some (record { type = type; word = word; argc = argc })

-- an integer at 32, an object of the language at 40, a function with two parameters at 48
abbrev contents : ℕ → Option Object
contents a =
    if a == 8
    then of_kind Kind.nil 0 0
    else if (a == 16) || (a == 24)
    then of_kind Kind.bool 0 0
    else if a == 32
    then of_kind Kind.integer 1000000000 0
    else if a == 40
    then of_kind Kind.custom 0 0
    else if a == 48
    then of_kind Kind.function 0 2
    else none

abbrev values : Values
values = record {
  memory = contents;
  lky_nil = 8;
  lky_yes = 16;
  lky_no = 24;
  get_member = λ o name. if o == 40 then 48 else 0;
  lobjb_uses_pointer_tags_ = true;
}

values-IsValues : IsValues values
values-IsValues = record {
  untagged_nil = refl;
  untagged_yes = refl;
  untagged_no = refl;
  nil_object = (_, refl, refl);
  yes_object = (_, refl, refl);
  no_object = (_, refl, refl);
}

-- 3 with a tag
three : Represents values 769 3
three = by_tag refl refl

thousand_million : Represents values 32 1000000000
thousand_million = by_object _ refl refl refl refl

-- 3 ^^ 5 is 6, and -3 has no tag
xor_tagged : binary_bxor exact values 769 1281 ≡ some (Answer.at 1537)
unfolding binary_bxor
xor_tagged = refl

negative : unary_negative exact values 769 ≡ some (Answer.new Kind.integer (2 ^ 64 - 3))
unfolding unary_negative
negative = refl

-- -7 % 2 is -1, and -8 >> 1 is -4
signed :
    (modulo_long (2 ^ 64 - 7) 2 ≡ some (2 ^ 64 - 1))
    × (shift_right (2 ^ 64 - 8) 1 ≡ some (2 ^ 64 - 4))
unfolding modulo_long shift_right
signed = (refl, refl)

add_and_subtract_lem_example :
    ((sum : Answer) × (binary_add exact values 769 32 ≡ some sum) × Holds sum 1000000003)
    × ((difference : Answer) × (binary_subtract exact values 769 32 ≡ some difference)
        × Holds difference (2 ^ 64 - 999999997))
add_and_subtract_lem_example =
    add_and_subtract_lem exact values 769 32 3 1000000000 exact-IsExact values-IsValues three
      thousand_million (inl (omega arith)) (inl (omega arith))

comparisons_lem_example :
    (binary_lessthan exact values 769 32 ≡ some (Answer.at 16))
    × (binary_greaterthan exact values 769 32 ≡ some (Answer.at 24))
    × (binary_lessequal exact values 769 32 ≡ some (Answer.at 16))
    × (binary_greatequal exact values 769 32 ≡ some (Answer.at 24))
    × (binary_equals exact values 769 32 ≡ some (Answer.at 24))
    × (binary_notequal exact values 769 32 ≡ some (Answer.at 16))
comparisons_lem_example =
    comparisons_lem exact values 769 32 3 1000000000 exact-IsExact values-IsValues three
      thousand_million (inl (omega arith)) (inl (omega arith))

connectives_outside_example :
    (binary_and exact values 769 32 ≡ none) × (binary_or exact values 769 32 ≡ none)
connectives_outside_example =
    connectives_outside exact values 769 32 3 1000000000 values-IsValues three thousand_million
      (inl refl)

abbrev replied : ℕ → Reply (Unit {0})
replied p = record { value = p; raised = 0; after = tt }

-- 0 where the result is not a value that is there
abbrev reply : Option Answer → Reply (Unit {0})
reply (some (Answer.at p)) = replied p
reply _ = replied 0

abbrev running : Runtime (Unit {0})
running = record {
  nil = 8;
  yes = 16;
  no = 24;
  binary = λ op a b w. reply (binary exact values op a b);
  unary = λ op a w. replied a;
  is_true = λ p w. p == 16;
  print_object = λ p w. replied 0;
  alloc = λ w. replied 0;
  invoke = λ f args w. replied 0;
  thrown = λ w. 0;
  clear_thrown = λ w. w;
  has_no_members = λ p w. p == 0;
  get_member = λ b name w. replied 0;
  set_member = λ b name p w. replied 0;
  build_error = λ why w. replied 0;
  build_func = λ code argc stack w. replied 0;
  init_class = λ init super w. replied 0;
  add_member = λ cls name p prefix w. replied 0;
  make_array = λ items w. replied 0;
  make_table = λ keys items w. replied 0;
  load_index = λ target idx w. replied 0;
  save_index = λ target idx p w. replied 0;
  build_iterable = λ p w. replied 0;
  next_iterable = λ it w. replied 0;
  iter_index = λ it w. replied 0;
  load_module = λ name dir w. replied 0;
  gc = λ w. w;
}

running-Uses : Uses running exact (λ w. values)
running-Uses = record { same = λ op a b p w e. rw e refl }

abbrev two_slots : DataStack
two_slots = record { data_stack = 0 ∷ 0 ∷ []; used = 0; stack_size = 2 }

two_slots-IsValid : IsValid two_slots
two_slots-IsValid = record { memory = refl; bound = omega arith; clear = clear }
  where
    clear : (i : ℕ) → 0 ≤ i → get_or two_slots.data_stack i 0 ≡ 0
    clear zero h = refl
    clear (suc zero) h = refl
    clear (suc (suc i)) h = refl

abbrev frame : Frame (Unit {0})
frame = record {
  next = 0;
  ops = [];
  constants = [];
  names = [];
  locals = [];
  stack = two_slots;
  catch_stack = [];
  catch_pointer = 0;
  ret = 0;
  error = 0;
  bucket = 0;
  parent_stack = [];
  world = tt;
}

-- 3 < 1000000000
instruction_in_place_example :
    (f₂ f₃ : Frame (Unit {0})) × ((push 769 >> push 32) frame ≡ done (tt, f₂))
    × (instruction running Op.binary_lt f₂ ≡ done (tt, f₃))
    × (push 16 frame ≡ done (tt, f₃))
unfolding binary binary_lessthan
instruction_in_place_example =
    instruction_in_place running exact (λ w. values) Op.binary_lt "op_lt_" frame 769 32 16
      running-Uses for_lt two_slots-IsValid (omega arith) (comparisons_lem_example.0)
