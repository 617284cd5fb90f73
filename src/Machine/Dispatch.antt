-- ===== src/Machine/Dispatch.antt =====
-- mach_eval of src/interpreter/lky_machine.c: the instructions, and a turn of its loop. What an instruction
-- calls in other parts is the interface Runtime.
use lanky.Prelude.{ℕ, zero, suc, ◌+◌, Bool, true, false, List, [], ◌∷◌, ◌==◌, if◌then◌else◌}
use lanky.Machine.{done}
use lanky.Machine.Frame.{
  Reply, Frame, Action, ◌>>=◌, ◌>>◌, give, skip, push, pop, byte_operand, operand, name_operand,
  goto, jump_to, call,
}
use lanky.Bytecode.{Op}

-- the errors that the machine raises itself
pub data Failure : Type 0 where
  memberless : ℕ → List ℕ → Failure
  no_member : List ℕ → Failure
  no_closure : List ℕ → Failure
  raised : Failure

-- the functions of src/interpreter and src/stdlib that the instructions call
pub record Runtime (W : Type 0) : Type 0 where
  pub nil : ℕ
  pub yes : ℕ
  pub no : ℕ
  pub binary : Op → ℕ → ℕ → W → Reply W
  pub unary : Op → ℕ → W → Reply W
  pub is_true : ℕ → W → Bool
  pub print_object : ℕ → W → Reply W
  pub alloc : W → Reply W
  pub invoke : ℕ → List ℕ → W → Reply W
  pub thrown : W → ℕ
  pub clear_thrown : W → W
  pub has_no_members : ℕ → W → Bool
  pub get_member : ℕ → List ℕ → W → Reply W
  pub set_member : ℕ → List ℕ → ℕ → W → Reply W
  pub build_error : Failure → W → Reply W
  pub build_func : ℕ → ℕ → List ℕ → W → Reply W
  pub init_class : ℕ → ℕ → W → Reply W
  pub add_member : ℕ → List ℕ → ℕ → ℕ → W → Reply W
  pub make_array : List ℕ → W → Reply W
  pub make_table : List ℕ → List ℕ → W → Reply W
  pub load_index : ℕ → ℕ → W → Reply W
  pub save_index : ℕ → ℕ → ℕ → W → Reply W
  pub build_iterable : ℕ → W → Reply W
  pub next_iterable : ℕ → W → Reply W
  pub iter_index : ℕ → W → Reply W
  pub load_module : List ℕ → ℕ → W → Reply W
  pub gc : W → W

abbrev pub reversed : List ℕ → List ℕ → List ℕ
reversed acc [] = acc
reversed acc (v ∷ vs) = reversed (v ∷ acc) vs

-- keys and values in turn
abbrev pub keys_of : List ℕ → List ℕ
keys_of [] = []
keys_of (k ∷ []) = k ∷ []
keys_of (k ∷ v ∷ rest) = k ∷ keys_of rest

abbrev pub values_of : List ℕ → List ℕ
values_of [] = []
values_of (k ∷ []) = []
values_of (k ∷ v ∷ rest) = v ∷ values_of rest

module _ {W : Type 0} (rt : Runtime W) where
  -- the part of the frame that no instruction changes, and the world
  unfoldable pub look : {A : Type 0} → (Frame W → A) → Action W A
  look g f = done (g f, f)

  unfoldable pub set_error : ℕ → Action W (Unit {0})
  set_error e f = done (tt, record f { error = e })

  unfoldable pub fail : Failure → Action W (Unit {0})
  unfolding call set_error
  fail why = call (rt.build_error why) >>= λ e. set_error e

  unfoldable pub push_reply : (W → Reply W) → Action W (Unit {0})
  unfolding call push
  push_reply g = call g >>= λ v. push v

  unfoldable pub binary_op : Op → Action W (Unit {0})
  unfolding pop push_reply
  binary_op op = pop >>= λ a. pop >>= λ b. push_reply (rt.binary op b a)

  unfoldable pub unary_op : Op → Action W (Unit {0})
  unfolding pop push_reply
  unary_op op = pop >>= λ a. push_reply (rt.unary op a)

  unfoldable pub truth : ℕ → Action W Bool
  unfolding look
  truth v = look (λ f. rt.is_true v f.world)

  -- the test of the two that pop if they do not jump
  unfoldable pub jump_if : Bool → ℕ → Action W (Unit {0})
  unfolding goto pop
  jump_if true idx = goto idx
  jump_if false idx = pop >> skip

  unfoldable pub goto_unless : Bool → ℕ → Action W (Unit {0})
  unfolding goto
  goto_unless true idx = skip
  goto_unless false idx = goto idx

  -- LI_CALL_FUNC after the call: `thrown` of the frame is in the world, since the callee sets it
  unfoldable pub called : ℕ → Action W (Unit {0})
  unfolding push
  called v f =
      if rt.thrown f.world == 0
      then push v f
      else done (tt, record f { error = rt.thrown f.world; world = rt.clear_thrown f.world })

  unfoldable pub member_value : List ℕ → ℕ → Action W (Unit {0})
  unfolding fail push
  member_value name zero = fail (no_member name)
  member_value name (suc v) = push (suc v)

  unfoldable pub loaded_member : ℕ → List ℕ → Bool → Action W (Unit {0})
  unfolding fail call member_value
  loaded_member obj name true = fail (memberless obj name)
  loaded_member obj name false = call (rt.get_member obj name) >>= member_value name

  unfoldable pub closure_value : List ℕ → ℕ → Action W (Unit {0})
  unfolding fail push
  closure_value name zero = fail (no_closure name)
  closure_value name (suc v) = push (suc v)

  -- the owner that is found, or else whether `b` has the name
  unfoldable pub owner_or : List ℕ → ℕ → ℕ → ℕ → Action W (ℕ × ℕ)
  unfolding call
  owner_or name b zero v = call (rt.get_member b name) >>= λ v'. give (if v' == 0 then 0 else b, v')
  owner_or name b (suc owner) v = give (suc owner, v)

  -- the last of the buckets that has a name, 0 if none has it, and its value
  unfoldable pub owner_of : List ℕ → List ℕ → Action W (ℕ × ℕ)
  unfolding owner_or
  owner_of name [] = give (0, 0)
  owner_of name (b ∷ bs) = owner_of name bs >>= λ (owner, v). owner_or name b owner v

  unfoldable pub closure_around : List ℕ → ℕ → Action W ℕ
  unfolding look owner_of
  closure_around name zero =
      look (λ f. f.parent_stack) >>= λ buckets. owner_of name buckets >>= λ (owner, v). give v
  closure_around name (suc v) = give (suc v)

  -- a name in the bucket of the frame, or else in the ones around it
  unfoldable pub in_closure : List ℕ → Action W ℕ
  unfolding look call closure_around
  in_closure name =
      look (λ f. f.bucket) >>= λ b. call (rt.get_member b name) >>= λ v. closure_around name v

  -- where a closure's name is saved
  unfoldable pub bucket_for : List ℕ → Action W ℕ
  unfolding look owner_of
  bucket_for name = look (λ f. f.parent_stack) >>= λ buckets.
      owner_of name buckets >>= λ (owner, v).
      look (λ f. f.bucket) >>= λ b. give (if owner == 0 then b else owner)

  unfoldable pub add_members : ℕ → ℕ → Action W (Unit {0})
  unfolding byte_operand name_operand pop call
  add_members zero cls = skip
  add_members (suc n) cls = byte_operand >>= λ prefix. name_operand >>= λ name.
      pop >>= λ v. call (rt.add_member cls name v prefix) >> add_members n cls

  unfoldable pub set_members : ℕ → ℕ → Action W (Unit {0})
  unfolding pop name_operand call
  set_members zero obj = skip
  set_members (suc n) obj =
      pop >>= λ v. name_operand >>= λ name. call (rt.set_member obj name v) >> set_members n obj

  unfoldable pub pop_if : Bool → Action W ℕ
  unfolding pop
  pop_if true = pop
  pop_if false = give 0

  unfoldable pub next_or_jump : ℕ → Action W (Unit {0})
  unfolding operand jump_to push
  next_or_jump zero = operand >>= λ idx. jump_to idx
  next_or_jump (suc v) = push (suc v) >> λ f. done (tt, record f { next = f.next + 4 })
