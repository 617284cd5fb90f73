-- ===== src/Machine/Growth.antt =====
-- The data stack of src/interpreter/lky_machine.c against the effects that
-- src/compiler/bytecode_analyzer.c counts.
use lanky.Prelude.{
  ℕ, zero, suc, ◌+◌, ◌*◌, ◌≤◌, ◌≢◌, refl, Bool, true, false, not, Option, none, some, List, [], ◌∷◌,
  ◌++◌, ◌==◌, if◌then◌else◌, arith,
}
use lanky.Machine.Frame.{Reply, Frame, Action}
use lanky.Machine.Dispatch.{
  Runtime, Failure, raised, reversed, keys_of, values_of, look, fail, push_reply, binary_op,
  unary_op, truth, jump_if, goto_unless, called, member_value, loaded_member, closure_value,
  owner_or, owner_of, closure_around, in_closure, bucket_for, add_members, set_members, pop_if,
  next_or_jump, set_error,
}
use lanky.Machine.Eval.{instruction}
use lanky.Machine.Ops.{arguments, members, custom_name, dirname_name, signed_char}
use lanky.Machine.Moves.{
  OnDone, on_done, OnDone-map, if-OnDone, Moves, Moves-bind, Moves-next, Moves-weaken, give-Moves,
  skip-Moves, push-Moves, pop-Moves, top-Moves, second_top-Moves, byte_operand-Moves, operand-Moves,
  name_operand-Moves, constant-Moves, load_local-Moves, save_local-Moves, goto-Moves, jump_to-Moves,
  call-Moves, pop_args-Moves, set_ret-Moves, push_catch-Moves, pop_catch-Moves,
}
use lanky.Bytecode
use lanky.Bytecode.{Op, Effect, down, up, effect_of_op}

-- The number of values after an instruction is not more than what its effect says.
abbrev pub Fits : Option (Effect × ℕ) → ℕ → ℕ → Type 0
Fits none before after = Unit {0}
Fits (some (down, skip)) before after = after + 1 ≤ before
Fits (some (up k, skip)) before after = after ≤ before + k

module _ {W : Type 0} (rt : Runtime W) where
  look-Moves : {A : Type 0} (g : Frame W → A) → Moves 0 0 (look rt g)
  unfolding look
  look-Moves g = record { from_ = λ f. on_done (omega arith) }

  set_error-Moves : (e : ℕ) → Moves 0 0 (set_error rt e)
  unfolding set_error
  set_error-Moves e = record { from_ = λ f. on_done (omega arith) }

  fail-Moves : (why : Failure) → Moves 0 0 (fail rt why)
  unfolding fail
  fail-Moves why = Moves-bind (call-Moves (rt.build_error why)) (λ e. set_error-Moves e)

  push_reply-Moves : (g : W → Reply W) → Moves 0 1 (push_reply rt g)
  unfolding push_reply
  push_reply-Moves g = Moves-bind (call-Moves g) (λ v. push-Moves v)

  binary_op-Moves : (op : Op) → Moves 2 1 (binary_op rt op)
  unfolding binary_op
  binary_op-Moves op =
      Moves-weaken 2 1 (omega arith) (
        Moves-bind pop-Moves (λ a. Moves-bind pop-Moves (λ b. push_reply-Moves (rt.binary op b a))))

  unary_op-Moves : (op : Op) → Moves 1 1 (unary_op rt op)
  unfolding unary_op
  unary_op-Moves op =
      Moves-weaken 1 1 (omega arith) (Moves-bind pop-Moves (λ a. push_reply-Moves (rt.unary op a)))

  truth-Moves : (v : ℕ) → Moves 0 0 (truth rt v)
  unfolding truth
  truth-Moves v = look-Moves (λ f. rt.is_true v f.world)

  jump_if-Moves : (b : Bool) (idx : ℕ) → Moves 0 0 (jump_if rt b idx)
  unfolding jump_if
  jump_if-Moves true idx = goto-Moves idx
  jump_if-Moves false idx = Moves-weaken 0 0 (omega arith) (Moves-next pop-Moves skip-Moves)

  goto_unless-Moves : (b : Bool) (idx : ℕ) → Moves 0 0 (goto_unless rt b idx)
  unfolding goto_unless
  goto_unless-Moves true idx = skip-Moves
  goto_unless-Moves false idx = goto-Moves idx

  called-Moves : (v : ℕ) → Moves 0 1 (called rt v)
  unfolding called
  called-Moves v = record {
    from_ =
        λ f. if-OnDone (rt.thrown f.world == 0) ((push-Moves v).from_ f) (on_done (omega arith));
  }

  member_value-Moves : (name : List ℕ) (v : ℕ) → Moves 0 1 (member_value rt name v)
  unfolding member_value
  member_value-Moves name zero = Moves-weaken 0 1 (omega arith) (fail-Moves _)
  member_value-Moves name (suc v) = push-Moves (suc v)

  loaded_member-Moves :
      (obj : ℕ) (name : List ℕ) (without : Bool) → Moves 0 1 (loaded_member rt obj name without)
  unfolding loaded_member
  loaded_member-Moves obj name true = Moves-weaken 0 1 (omega arith) (fail-Moves _)
  loaded_member-Moves obj name false =
      Moves-bind (call-Moves (rt.get_member obj name)) (λ v. member_value-Moves name v)

  owner_or-Moves : (name : List ℕ) (b owner v : ℕ) → Moves 0 0 (owner_or rt name b owner v)
  unfolding owner_or
  owner_or-Moves name b zero v =
      Moves-bind (call-Moves (rt.get_member b name))
        (λ v'. give-Moves (if v' == 0 then 0 else b, v'))
  owner_or-Moves name b (suc owner) v = give-Moves _

  owner_of-Moves : (name buckets : List ℕ) → Moves 0 0 (owner_of rt name buckets)
  unfolding owner_of
  owner_of-Moves name [] = give-Moves _
  owner_of-Moves name (b ∷ bs) =
      Moves-bind (owner_of-Moves name bs) (λ (owner, v). owner_or-Moves name b owner v)

  closure_around-Moves : (name : List ℕ) (v : ℕ) → Moves 0 0 (closure_around rt name v)
  unfolding closure_around
  closure_around-Moves name zero =
      Moves-bind (look-Moves (λ f. f.parent_stack))
        (λ buckets. Moves-bind (owner_of-Moves name buckets) (λ (owner, v). give-Moves v))
  closure_around-Moves name (suc v) = give-Moves (suc v)

  in_closure-Moves : (name : List ℕ) → Moves 0 0 (in_closure rt name)
  unfolding in_closure
  in_closure-Moves name =
      Moves-bind (look-Moves (λ f. f.bucket))
        (λ b. Moves-bind (call-Moves (rt.get_member b name)) (λ v. closure_around-Moves name v))

  bucket_for-Moves : (name : List ℕ) → Moves 0 0 (bucket_for rt name)
  unfolding bucket_for
  bucket_for-Moves name = Moves-bind (look-Moves (λ f. f.parent_stack)) (λ buckets.
      Moves-bind (owner_of-Moves name buckets)
        (λ (owner, v). Moves-bind (look-Moves (λ f. f.bucket)) (λ b. give-Moves _)))

  closure_value-Moves : (name : List ℕ) (v : ℕ) → Moves 0 1 (closure_value rt name v)
  unfolding closure_value
  closure_value-Moves name zero = Moves-weaken 0 1 (omega arith) (fail-Moves _)
  closure_value-Moves name (suc v) = push-Moves (suc v)

  add_members-Moves : (n cls : ℕ) → Moves n 0 (add_members rt n cls)
  unfolding add_members
  add_members-Moves zero cls = skip-Moves
  add_members-Moves (suc n) cls = Moves-weaken (suc n) 0 (omega arith) (
      Moves-bind byte_operand-Moves (λ prefix. Moves-bind name_operand-Moves (λ name.
        Moves-bind pop-Moves (λ v.
          Moves-next (call-Moves (rt.add_member cls name v prefix)) (add_members-Moves n cls)))))

  set_members-Moves : (n obj : ℕ) → Moves n 0 (set_members rt n obj)
  unfolding set_members
  set_members-Moves zero obj = skip-Moves
  set_members-Moves (suc n) obj = Moves-weaken (suc n) 0 (omega arith) (
      Moves-bind pop-Moves (λ v.
        Moves-bind name_operand-Moves
          (λ name. Moves-next (call-Moves (rt.set_member obj name v)) (set_members-Moves n obj))))

  pop_if-Moves : (b : Bool) → Moves 0 0 (pop_if rt b)
  unfolding pop_if
  pop_if-Moves true = Moves-weaken 0 0 (omega arith) pop-Moves
  pop_if-Moves false = give-Moves 0

  next_or_jump-Moves : (v : ℕ) → Moves 0 1 (next_or_jump rt v)
  unfolding next_or_jump
  next_or_jump-Moves zero =
      Moves-weaken 0 1 (omega arith) (Moves-bind operand-Moves (λ idx. jump_to-Moves idx))
  next_or_jump-Moves (suc v) = Moves-weaken 0 1 (omega arith) (
      Moves-next {d' = 0} {u' = 0} (push-Moves (suc v))
        (record { from_ = λ f. on_done (omega arith) }))

  fits_down :
      {m : Action W (Unit {0})} {d u : ℕ}
      → u + 1 ≤ d
      → Moves d u m
      → (f : Frame W) → OnDone (λ r. r.1.stack.used + 1 ≤ f.stack.used) (m f)
  fits_down le h f = OnDone-map (λ r h'. omega (arith, le, h')) (h.from_ f)

  fits_up :
      (k : ℕ) {m : Action W (Unit {0})} {d u : ℕ}
      → u ≤ k + d
      → Moves d u m
      → (f : Frame W) → OnDone (λ r. r.1.stack.used ≤ f.stack.used + k) (m f)
  fits_up k le h f = OnDone-map (λ r h'. omega (arith, le, h')) (h.from_ f)

  -- No instruction but LI_MAKE_CLASS and the unused LI_JUMP_TRUE leaves more values on the data stack than
  -- the effect that the analyzer counts for it; this holds on every branch that stays inside of the
  -- memory, errors that are raised included.
  pub instruction-Fits :
      (op : Op) (rest : List ℕ) (f : Frame W)
      → op ≢ Bytecode.make_class
      → op ≢ Bytecode.jump_true
      → OnDone (λ r. Fits (effect_of_op op rest) f.stack.used r.1.stack.used) (instruction rt op f)
  unfolding instruction effect_of_op
  instruction-Fits Bytecode.binary_add rest f c j =
      fits_down (omega arith) (binary_op-Moves Bytecode.binary_add) f
  instruction-Fits Bytecode.binary_subtract rest f c j =
      fits_down (omega arith) (binary_op-Moves Bytecode.binary_subtract) f
  instruction-Fits Bytecode.binary_multiply rest f c j =
      fits_down (omega arith) (binary_op-Moves Bytecode.binary_multiply) f
  instruction-Fits Bytecode.binary_divide rest f c j =
      fits_down (omega arith) (binary_op-Moves Bytecode.binary_divide) f
  instruction-Fits Bytecode.binary_modulo rest f c j =
      fits_down (omega arith) (binary_op-Moves Bytecode.binary_modulo) f
  instruction-Fits Bytecode.binary_power rest f c j =
      fits_down (omega arith) (binary_op-Moves Bytecode.binary_power) f
  instruction-Fits Bytecode.binary_lt rest f c j =
      fits_down (omega arith) (binary_op-Moves Bytecode.binary_lt) f
  instruction-Fits Bytecode.binary_gt rest f c j =
      fits_down (omega arith) (binary_op-Moves Bytecode.binary_gt) f
  instruction-Fits Bytecode.binary_equal rest f c j =
      fits_down (omega arith) (binary_op-Moves Bytecode.binary_equal) f
  instruction-Fits Bytecode.binary_lte rest f c j =
      fits_down (omega arith) (binary_op-Moves Bytecode.binary_lte) f
  instruction-Fits Bytecode.binary_gte rest f c j =
      fits_down (omega arith) (binary_op-Moves Bytecode.binary_gte) f
  instruction-Fits Bytecode.binary_ne rest f c j =
      fits_down (omega arith) (binary_op-Moves Bytecode.binary_ne) f
  instruction-Fits Bytecode.binary_and rest f c j =
      fits_down (omega arith) (binary_op-Moves Bytecode.binary_and) f
  instruction-Fits Bytecode.binary_or rest f c j =
      fits_down (omega arith) (binary_op-Moves Bytecode.binary_or) f
  instruction-Fits Bytecode.binary_nc rest f c j =
      fits_down (omega arith) (binary_op-Moves Bytecode.binary_nc) f
  instruction-Fits Bytecode.binary_band rest f c j =
      fits_down (omega arith) (binary_op-Moves Bytecode.binary_band) f
  instruction-Fits Bytecode.binary_bor rest f c j =
      fits_down (omega arith) (binary_op-Moves Bytecode.binary_bor) f
  instruction-Fits Bytecode.binary_bxor rest f c j =
      fits_down (omega arith) (binary_op-Moves Bytecode.binary_bxor) f
  instruction-Fits Bytecode.binary_blshift rest f c j =
      fits_down (omega arith) (binary_op-Moves Bytecode.binary_blshift) f
  instruction-Fits Bytecode.binary_brshift rest f c j =
      fits_down (omega arith) (binary_op-Moves Bytecode.binary_brshift) f
  instruction-Fits Bytecode.load_const rest f c j =
      fits_up 1 (omega arith)
        (Moves-bind operand-Moves (λ idx. Moves-bind (constant-Moves idx) (λ v. push-Moves v))) f
  instruction-Fits Bytecode.unary_not rest f c j =
      fits_up 0 (omega arith) (unary_op-Moves Bytecode.unary_not) f
  instruction-Fits Bytecode.unary_negative rest f c j =
      fits_up 0 (omega arith) (unary_op-Moves Bytecode.unary_negative) f
  instruction-Fits Bytecode.print rest f c j =
      fits_down (omega arith)
        (Moves-bind pop-Moves (λ a. Moves-next (call-Moves (rt.print_object a)) skip-Moves)) f
  instruction-Fits Bytecode.pop rest f c j =
      fits_down (omega arith) (Moves-next pop-Moves skip-Moves) f
  instruction-Fits Bytecode.jump rest f c j =
      fits_up 0 (omega arith) (Moves-bind operand-Moves (λ idx. jump_to-Moves idx)) f
  instruction-Fits Bytecode.jump_false rest f c j =
      fits_down (omega arith)
        (Moves-bind pop-Moves (λ v.
          Moves-bind operand-Moves
            (λ idx. Moves-bind (truth-Moves v) (λ t. goto_unless-Moves t idx))))
        f
  instruction-Fits Bytecode.jump_false_else_pop rest f c j =
      fits_up 0 (omega arith)
        (Moves-bind top-Moves (λ v.
          Moves-bind operand-Moves
            (λ idx. Moves-bind (truth-Moves v) (λ t. jump_if-Moves (not t) idx))))
        f
  instruction-Fits Bytecode.jump_true_else_pop rest f c j =
      fits_up 0 (omega arith)
        (Moves-bind top-Moves (λ v.
          Moves-bind operand-Moves (λ idx. Moves-bind (truth-Moves v) (λ t. jump_if-Moves t idx))))
        f
  instruction-Fits Bytecode.save_local rest f c j =
      fits_up 0 (omega arith)
        (Moves-bind top-Moves (λ v. Moves-bind operand-Moves (λ idx. save_local-Moves idx v))) f
  instruction-Fits Bytecode.load_local rest f c j =
      fits_up 1 (omega arith)
        (Moves-bind operand-Moves (λ idx. Moves-bind (load_local-Moves idx) (λ v. push-Moves v))) f
  instruction-Fits Bytecode.push_nil rest f c j = fits_up 1 (omega arith) (push-Moves rt.nil) f
  instruction-Fits Bytecode.push_bool rest f c j =
      fits_up 1 (omega arith)
        (Moves-bind byte_operand-Moves (λ b. push-Moves (if b == 0 then rt.no else rt.yes))) f
  instruction-Fits Bytecode.push_new_object rest f c j =
      fits_up 1 (omega arith) (push_reply-Moves rt.alloc) f
  instruction-Fits Bytecode.call_func rest f c j =
      fits_up 0 (omega arith)
        (Moves-bind byte_operand-Moves (λ ct. Moves-weaken 0 0 (omega arith) (
          Moves-bind pop-Moves (λ obj. Moves-weaken 0 1 (omega arith) (
            Moves-bind (pop_args-Moves (arguments rt ct)) (λ args.
              Moves-bind (call-Moves (rt.invoke obj (reversed [] args))) (λ v. called-Moves v)))))))
        f
  instruction-Fits Bytecode.return rest f c j =
      fits_down (omega arith) (Moves-bind pop-Moves (λ v. set_ret-Moves v)) f
  instruction-Fits Bytecode.load_member rest f c j =
      fits_up 0 (omega arith)
        (Moves-bind pop-Moves (λ obj. Moves-bind name_operand-Moves (λ name.
          Moves-bind (look-Moves (λ f. rt.has_no_members obj f.world))
            (λ without. loaded_member-Moves obj name without))))
        f
  instruction-Fits Bytecode.save_member rest f c j =
      fits_down (omega arith)
        (Moves-bind pop-Moves (λ obj. Moves-bind top-Moves (λ v.
          Moves-bind name_operand-Moves
            (λ name. Moves-next (call-Moves (rt.set_member obj name v)) skip-Moves))))
        f
  instruction-Fits Bytecode.make_function rest f c j =
      fits_up 0 (omega arith)
        (Moves-bind pop-Moves (λ code. Moves-bind byte_operand-Moves (λ argc.
          Moves-bind (look-Moves (λ f. f.parent_stack ++ f.bucket ∷ []))
            (λ stack. push_reply-Moves (rt.build_func code (signed_char argc) stack)))))
        f
  instruction-Fits Bytecode.make_class rest f c j = absurd (c refl)
  instruction-Fits Bytecode.save_close rest f c j =
      fits_up 0 (omega arith)
        (Moves-bind top-Moves (λ v. Moves-bind name_operand-Moves (λ name.
          Moves-bind (bucket_for-Moves name)
            (λ b. Moves-next (call-Moves (rt.set_member b name v)) skip-Moves))))
        f
  instruction-Fits Bytecode.load_close rest f c j =
      fits_up 1 (omega arith)
        (Moves-bind name_operand-Moves
          (λ name. Moves-bind (in_closure-Moves name) (λ v. closure_value-Moves name v)))
        f
  instruction-Fits Bytecode.make_array rest f c j =
      fits_up 1 (omega arith)
        (Moves-bind operand-Moves (λ ct. Moves-weaken 0 1 (omega arith) (
          Moves-bind (pop_args-Moves ct)
            (λ items. push_reply-Moves (rt.make_array (reversed [] items))))))
        f
  instruction-Fits Bytecode.make_table rest f c j =
      fits_up 1 (omega arith)
        (Moves-bind operand-Moves (λ ct. Moves-weaken 0 1 (omega arith) (
          Moves-bind (pop_args-Moves (2 * ct)) (λ items.
            push_reply-Moves
              (rt.make_table (keys_of (reversed [] items)) (values_of (reversed [] items)))))))
        f
  instruction-Fits Bytecode.make_object rest f c j =
      fits_up 1 (omega arith)
        (Moves-bind operand-Moves (λ ct. Moves-weaken 0 1 (omega arith) (
          Moves-bind pop-Moves
            (λ obj. Moves-next (set_members-Moves (members rt ct) obj) (push-Moves obj)))))
        f
  instruction-Fits Bytecode.load_index rest f c j =
      fits_up 1 (omega arith)
        (Moves-bind pop-Moves
          (λ idx. Moves-bind pop-Moves (λ target. push_reply-Moves (rt.load_index target idx))))
        f
  instruction-Fits Bytecode.save_index rest f c j =
      fits_up 0 (omega arith)
        (Moves-bind pop-Moves (λ idx. Moves-bind pop-Moves (λ target.
          Moves-bind top-Moves
            (λ v. Moves-next (call-Moves (rt.save_index target idx v)) skip-Moves))))
        f
  instruction-Fits Bytecode.sduplicate rest f c j =
      fits_up 1 (omega arith) (Moves-bind top-Moves (λ v. push-Moves v)) f
  instruction-Fits Bytecode.dduplicate rest f c j =
      fits_up 2 (omega arith)
        (Moves-bind top-Moves
          (λ a. Moves-bind second_top-Moves (λ b. Moves-next (push-Moves b) (push-Moves a))))
        f
  instruction-Fits Bytecode.flip_two rest f c j =
      fits_up 0 (omega arith)
        (Moves-bind pop-Moves
          (λ a. Moves-bind pop-Moves (λ b. Moves-next (push-Moves a) (push-Moves b))))
        f
  instruction-Fits Bytecode.sink_first rest f c j =
      fits_up 0 (omega arith)
        (Moves-bind pop-Moves (λ a. Moves-bind pop-Moves (λ b.
          Moves-bind pop-Moves
            (λ c. Moves-next (Moves-next (push-Moves a) (push-Moves c)) (push-Moves b)))))
        f
  instruction-Fits Bytecode.make_iter rest f c j =
      fits_up 0 (omega arith) (Moves-bind pop-Moves (λ v. push_reply-Moves (rt.build_iterable v))) f
  instruction-Fits Bytecode.next_iter_or_jump rest f c j =
      fits_up 1 (omega arith)
        (Moves-bind top-Moves
          (λ it. Moves-bind (call-Moves (rt.next_iterable it)) (λ v. next_or_jump-Moves v)))
        f
  instruction-Fits Bytecode.iter_index rest f c j =
      fits_up 1 (omega arith) (Moves-bind top-Moves (λ it. push_reply-Moves (rt.iter_index it))) f
  instruction-Fits Bytecode.load_module rest f c j =
      fits_up 1 (omega arith)
        (Moves-bind name_operand-Moves (λ name. Moves-bind (in_closure-Moves dirname_name) (λ dir.
          Moves-bind (call-Moves (rt.load_module name dir))
            (λ v. push-Moves (if v == 0 then rt.nil else v)))))
        f
  instruction-Fits Bytecode.push_catch rest f c j =
      fits_up 0 (omega arith) (Moves-bind operand-Moves (λ idx. push_catch-Moves idx)) f
  instruction-Fits Bytecode.pop_catch rest f c j = fits_up 0 (omega arith) (pop_catch-Moves) f
  instruction-Fits Bytecode.raise rest f c j =
      fits_up 0 (omega arith)
        (Moves-bind (call-Moves (rt.build_error raised)) (λ e.
          Moves-bind (Moves-next (set_error-Moves e) pop-Moves)
            (λ v. Moves-next (call-Moves (rt.set_member e custom_name v)) skip-Moves)))
        f
  instruction-Fits Bytecode.ignore rest f c j = fits_up 0 (omega arith) (skip-Moves) f
  instruction-Fits Bytecode.jump_true rest f c j = absurd (j refl)
