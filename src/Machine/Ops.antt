-- ===== src/Machine/Ops.antt =====
-- mach_eval of src/interpreter/lky_machine.c: the instructions of more than one action.
use lanky.Prelude.{
  ℕ, ◌+◌, ◌-◌, ◌^◌, ◌*◌, ◌/◌, ◌%◌, not, List, [], ◌∷◌, ◌++◌, ltb, ◌==◌, if◌then◌else◌,
}
use lanky.Machine.Frame.{
  Action, ◌>>=◌, ◌>>◌, skip, push, pop, top, second_top, byte_operand, operand, name_operand,
  constant, jump_to, call, pop_args, set_ret,
}
use lanky.Machine.Dispatch.{
  Runtime, raised, reversed, keys_of, values_of, look, push_reply, truth, jump_if, goto_unless,
  called, loaded_member, closure_value, in_closure, bucket_for, add_members, set_members, pop_if,
  next_or_jump, set_error,
}

-- the text that `lobj_set_member` and `lobj_get_member` are called with
abbrev pub custom_name : List ℕ
custom_name = 99 ∷ 117 ∷ 115 ∷ 116 ∷ 111 ∷ 109 ∷ 95 ∷ []

abbrev pub dirname_name : List ℕ
dirname_name = 100 ∷ 105 ∷ 114 ∷ 110 ∷ 97 ∷ 109 ∷ 101 ∷ 95 ∷ []

-- a signed char as an int
abbrev pub signed_char : ℕ → ℕ
signed_char b = if ltb b 128 then b else b + (2 ^ 32 - 256)

module _ {W : Type 0} (rt : Runtime W) where
  -- `ct` is a signed char: from 128 on, no argument is popped
  abbrev pub arguments : ℕ → ℕ
  arguments ct = if ltb ct 128 then ct else 0

  -- the count of LI_MAKE_OBJECT is a signed int
  abbrev pub members : ℕ → ℕ
  members ct = if ltb ct 2147483648 then ct else 0

  abbrev pub load_const : Action W (Unit {0})
  load_const = operand >>= λ idx. constant idx >>= λ v. push v

  abbrev pub print : Action W (Unit {0})
  print = pop >>= λ a. call (rt.print_object a) >> skip

  abbrev pub jump : Action W (Unit {0})
  jump = operand >>= λ idx. jump_to idx

  abbrev pub jump_false : Action W (Unit {0})
  jump_false = pop >>= λ v. operand >>= λ idx. truth rt v >>= λ t. goto_unless rt t idx

  abbrev pub jump_false_else_pop : Action W (Unit {0})
  jump_false_else_pop = top >>= λ v. operand >>= λ idx. truth rt v >>= λ t. jump_if rt (not t) idx

  abbrev pub jump_true_else_pop : Action W (Unit {0})
  jump_true_else_pop = top >>= λ v. operand >>= λ idx. truth rt v >>= λ t. jump_if rt t idx

  abbrev pub push_bool : Action W (Unit {0})
  push_bool = byte_operand >>= λ b. push (if b == 0 then rt.no else rt.yes)

  abbrev pub call_func : Action W (Unit {0})
  call_func = byte_operand >>= λ ct. pop >>= λ obj. pop_args (arguments ct) >>= λ args.
      call (rt.invoke obj (reversed [] args)) >>= λ v. called rt v

  abbrev pub return : Action W (Unit {0})
  return = pop >>= λ v. set_ret v

  abbrev pub load_member : Action W (Unit {0})
  load_member = pop >>= λ obj. name_operand >>= λ name.
      look rt (λ f. rt.has_no_members obj f.world) >>= λ without. loaded_member rt obj name without

  abbrev pub save_member : Action W (Unit {0})
  save_member =
      pop >>= λ obj. top >>= λ v. name_operand >>= λ name. call (rt.set_member obj name v) >> skip

  abbrev pub make_function : Action W (Unit {0})
  make_function = pop >>= λ code. byte_operand >>= λ argc.
      look rt (λ f. f.parent_stack ++ f.bucket ∷ []) >>= λ stack.
      push_reply rt (rt.build_func code (signed_char argc) stack)

  abbrev pub make_class : Action W (Unit {0})
  make_class = byte_operand >>= λ count. byte_operand >>= λ flags.
      pop_if rt (flags % 2 == 1) >>= λ init. pop_if rt (flags / 2 % 2 == 1) >>= λ super.
      call (rt.init_class init super) >>= λ cls. add_members rt count cls >> push cls

  abbrev pub save_close : Action W (Unit {0})
  save_close = top >>= λ v.
      name_operand >>= λ name. bucket_for rt name >>= λ b. call (rt.set_member b name v) >> skip

  abbrev pub load_close : Action W (Unit {0})
  load_close = name_operand >>= λ name. in_closure rt name >>= λ v. closure_value rt name v

  abbrev pub make_array : Action W (Unit {0})
  make_array =
      operand >>= λ ct. pop_args ct >>= λ items. push_reply rt (rt.make_array (reversed [] items))

  abbrev pub make_table : Action W (Unit {0})
  make_table = operand >>= λ ct. pop_args (2 * ct) >>= λ items.
      push_reply rt (rt.make_table (keys_of (reversed [] items)) (values_of (reversed [] items)))

  abbrev pub make_object : Action W (Unit {0})
  make_object = operand >>= λ ct. pop >>= λ obj. set_members rt (members ct) obj >> push obj

  abbrev pub load_index : Action W (Unit {0})
  load_index = pop >>= λ idx. pop >>= λ target. push_reply rt (rt.load_index target idx)

  abbrev pub save_index : Action W (Unit {0})
  save_index =
      pop >>= λ idx. pop >>= λ target. top >>= λ v. call (rt.save_index target idx v) >> skip

  abbrev pub dduplicate : Action W (Unit {0})
  dduplicate = top >>= λ a. second_top >>= λ b. push b >> push a

  abbrev pub flip_two : Action W (Unit {0})
  flip_two = pop >>= λ a. pop >>= λ b. push a >> push b

  abbrev pub sink_first : Action W (Unit {0})
  sink_first = pop >>= λ a. pop >>= λ b. pop >>= λ c. push a >> push c >> push b

  abbrev pub make_iter : Action W (Unit {0})
  make_iter = pop >>= λ v. push_reply rt (rt.build_iterable v)

  abbrev pub next_iter_or_jump : Action W (Unit {0})
  next_iter_or_jump = top >>= λ it. call (rt.next_iterable it) >>= λ v. next_or_jump rt v

  abbrev pub load_module : Action W (Unit {0})
  load_module = name_operand >>= λ name. in_closure rt dirname_name >>= λ dir.
      call (rt.load_module name dir) >>= λ v. push (if v == 0 then rt.nil else v)

  abbrev pub raise : Action W (Unit {0})
  raise = call (rt.build_error raised) >>= λ e.
      set_error rt e >> pop >>= λ v. call (rt.set_member e custom_name v) >> skip
