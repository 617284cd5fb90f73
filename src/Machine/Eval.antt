-- ===== src/Machine/Eval.antt =====
-- mach_eval of src/interpreter/lky_machine.c: each instruction, and a turn of the loop.
use lanky.Prelude.{
  ℕ, zero, suc, ◌+◌, ◌-◌, Bool, ◌||◌, not, none, some, ltb, ◌==◌, if◌then◌else◌, get_elem?, length,
}
use lanky.Machine.{Access, done, outside, stopped}
use lanky.Machine.Frame.{
  Frame, Action, ◌>>=◌, ◌>>◌, skip, push, pop, top, second_top, byte_operand, operand, name_operand,
  constant, load_local, save_local, jump_to, call, pop_args, set_ret, push_catch, pop_catch, found,
}
use lanky.Machine.Dispatch.{
  Runtime, look, fail, push_reply, binary_op, unary_op, truth, jump_if, goto_unless, called,
  member_value, loaded_member, closure_value, owner_or, owner_of, closure_around, in_closure,
  bucket_for, add_members, set_members, pop_if, next_or_jump, set_error,
}
use lanky.Machine.Ops
use lanky.Bytecode
use lanky.Bytecode.{Op, op_of}

module _ {W : Type 0} (rt : Runtime W) where
  unfoldable pub instruction : Op → Action W (Unit {0})
  unfolding look fail push_reply binary_op unary_op truth jump_if goto_unless called loaded_member
      member_value closure_value owner_or owner_of closure_around in_closure bucket_for add_members
      set_members pop_if next_or_jump set_error push pop top second_top byte_operand operand
      name_operand constant load_local save_local jump_to call pop_args set_ret push_catch pop_catch
  instruction Bytecode.load_const = Ops.load_const rt
  instruction Bytecode.binary_add = binary_op rt Bytecode.binary_add
  instruction Bytecode.binary_subtract = binary_op rt Bytecode.binary_subtract
  instruction Bytecode.binary_multiply = binary_op rt Bytecode.binary_multiply
  instruction Bytecode.binary_divide = binary_op rt Bytecode.binary_divide
  instruction Bytecode.binary_modulo = binary_op rt Bytecode.binary_modulo
  instruction Bytecode.binary_power = binary_op rt Bytecode.binary_power
  instruction Bytecode.binary_lt = binary_op rt Bytecode.binary_lt
  instruction Bytecode.binary_gt = binary_op rt Bytecode.binary_gt
  instruction Bytecode.binary_equal = binary_op rt Bytecode.binary_equal
  instruction Bytecode.binary_lte = binary_op rt Bytecode.binary_lte
  instruction Bytecode.binary_gte = binary_op rt Bytecode.binary_gte
  instruction Bytecode.binary_ne = binary_op rt Bytecode.binary_ne
  instruction Bytecode.binary_and = binary_op rt Bytecode.binary_and
  instruction Bytecode.binary_or = binary_op rt Bytecode.binary_or
  instruction Bytecode.binary_nc = binary_op rt Bytecode.binary_nc
  instruction Bytecode.binary_band = binary_op rt Bytecode.binary_band
  instruction Bytecode.binary_bor = binary_op rt Bytecode.binary_bor
  instruction Bytecode.binary_bxor = binary_op rt Bytecode.binary_bxor
  instruction Bytecode.binary_blshift = binary_op rt Bytecode.binary_blshift
  instruction Bytecode.binary_brshift = binary_op rt Bytecode.binary_brshift
  instruction Bytecode.unary_not = unary_op rt Bytecode.unary_not
  instruction Bytecode.unary_negative = unary_op rt Bytecode.unary_negative
  instruction Bytecode.print = Ops.print rt
  instruction Bytecode.pop = pop >> skip
  instruction Bytecode.jump = Ops.jump rt
  instruction Bytecode.jump_false = Ops.jump_false rt
  instruction Bytecode.jump_false_else_pop = Ops.jump_false_else_pop rt
  instruction Bytecode.jump_true_else_pop = Ops.jump_true_else_pop rt
  instruction Bytecode.save_local = top >>= λ v. operand >>= λ idx. save_local idx v
  instruction Bytecode.load_local = operand >>= λ idx. load_local idx >>= λ v. push v
  instruction Bytecode.push_nil = push rt.nil
  instruction Bytecode.push_bool = Ops.push_bool rt
  instruction Bytecode.push_new_object = push_reply rt rt.alloc
  instruction Bytecode.call_func = Ops.call_func rt
  instruction Bytecode.return = Ops.return rt
  instruction Bytecode.load_member = Ops.load_member rt
  instruction Bytecode.save_member = Ops.save_member rt
  instruction Bytecode.make_function = Ops.make_function rt
  instruction Bytecode.make_class = Ops.make_class rt
  instruction Bytecode.save_close = Ops.save_close rt
  instruction Bytecode.load_close = Ops.load_close rt
  instruction Bytecode.make_array = Ops.make_array rt
  instruction Bytecode.make_table = Ops.make_table rt
  instruction Bytecode.make_object = Ops.make_object rt
  instruction Bytecode.load_index = Ops.load_index rt
  instruction Bytecode.save_index = Ops.save_index rt
  instruction Bytecode.sduplicate = top >>= λ v. push v
  instruction Bytecode.dduplicate = Ops.dduplicate rt
  instruction Bytecode.flip_two = Ops.flip_two rt
  instruction Bytecode.sink_first = Ops.sink_first rt
  instruction Bytecode.make_iter = Ops.make_iter rt
  instruction Bytecode.next_iter_or_jump = Ops.next_iter_or_jump rt
  instruction Bytecode.iter_index = top >>= λ it. push_reply rt (rt.iter_index it)
  instruction Bytecode.load_module = Ops.load_module rt
  instruction Bytecode.push_catch = operand >>= λ idx. push_catch idx
  instruction Bytecode.pop_catch = pop_catch
  instruction Bytecode.raise = Ops.raise rt
  instruction Bytecode.ignore = skip
  instruction Bytecode.jump_true = skip

  -- how a turn of the loop ends
  pub data Turn : Type 0 where
    running : Frame W → Turn
    returned : Frame W → Turn
    threw : ℕ → Frame W → Turn
    no_instruction : Frame W → Turn

  ended : Access (Unit {0} × Frame W) → Access Turn
  ended (done (u, f)) = done (running f)
  ended outside = outside
  ended stopped = stopped

  -- the instruction at `next`; a byte that is none is reported, and the loop goes on
  dispatch : Frame W → Access Turn
  unfolding ended instruction op_of
  dispatch f = elim (get_elem? f.ops f.next) [
    | none ↦ outside
    | some byte ↦ elim (op_of byte) [
      | none ↦ done (no_instruction (record f { next = f.next + 1; world = rt.gc f.world }))
      | some op ↦ ended (instruction op (record f { next = f.next + 1; world = rt.gc f.world }))
    ]
  ]

  -- the handler of the latest try
  to_handler : Action W (Unit {0})
  unfolding found
  to_handler f =
      (found (get_elem? f.catch_stack (f.catch_pointer - 1)) >>= λ idx g.
      done (tt, record g { catch_pointer = f.catch_pointer - 1; next = idx + 1 }))
        f

  catch_error : Frame W → Access (Unit {0} × Frame W)
  unfolding push to_handler
  catch_error f = (push f.error >> to_handler) (record f { error = 0 })

  resumed : Access (Unit {0} × Frame W) → Access Turn
  unfolding dispatch
  resumed (done (u, f)) = dispatch f
  resumed outside = outside
  resumed stopped = stopped

  -- a turn; `has_prev` is whether another frame called this one
  unfoldable pub turn : Bool → Frame W → Access Turn
  unfolding dispatch catch_error to_handler resumed
  turn has_prev f =
      if ltb (length f.ops) f.next || not (f.ret == 0)
      then done (returned f)
      else if f.error == 0
      then dispatch f
      else if f.catch_pointer == 0
      then done (
          if has_prev
          then threw f.error (record f { error = 0 })
          else returned (record f { ret = rt.nil; error = 0 }))
      else resumed (catch_error f)

  -- the loop, for a number of turns; `running` is where it is then
  unfoldable pub mach_eval : ℕ → Bool → Frame W → Access Turn
  unfolding turn
  mach_eval zero has_prev f = done (running f)
  mach_eval (suc n) has_prev f = elim (turn has_prev f) [
    | outside ↦ outside
    | stopped ↦ stopped
    | done t ↦ elim t [
      | running g ↦ mach_eval n has_prev g
      | no_instruction g ↦ mach_eval n has_prev g
      | returned g ↦ done (returned g)
      | threw e g ↦ done (threw e g)
    ]
  ]
