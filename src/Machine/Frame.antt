-- ===== src/Machine/Frame.antt =====
-- src/interpreter/lky_machine.c: a frame of the machine and the actions that its instructions are composed
-- of. `next` is one more than `pc`, the position that is read next. A value is an address, 0 is NULL.
use lanky.Prelude.{
  ℕ, zero, suc, ◌+◌, ◌-◌, ◌*◌, ◌^◌, Option, none, some, List, [], ◌∷◌, ltb, ◌==◌, if◌then◌else◌,
  get_elem?, get_or, set, length,
}
use lanky.Machine.{DataStack, Access, done, outside, stopped, push_node, top_node, pop_node}

-- What a function of another part gives: its value, `interp->error` if it sets it, and the state of
-- everything outside of the frame.
pub record Reply (W : Type 0) : Type 0 where
  pub value : ℕ
  pub raised : ℕ
  pub after : W

pub record Frame (W : Type 0) : Type 0 where
  pub next : ℕ
  pub ops : List ℕ
  pub constants : List ℕ
  pub names : List (List ℕ)
  pub locals : List ℕ
  pub stack : DataStack
  pub catch_stack : List ℕ
  pub catch_pointer : ℕ
  pub ret : ℕ
  pub error : ℕ
  pub bucket : ℕ
  pub parent_stack : List ℕ
  pub world : W

-- an action on a frame, with a result
abbrev pub Action : Type 0 → Type 0 → Type 0
Action W A = Frame W → Access (A × Frame W)

abbrev pub and_then :
    {W A B : Type 0} → Access (A × Frame W) → (A → Action W B) → Access (B × Frame W)
and_then (done (a, f)) k = k a f
and_then outside k = outside
and_then stopped k = stopped

infixl 5 ◌>>=◌ ◌>>◌
abbrev pub ◌>>=◌ : {W A B : Type 0} → Action W A → (A → Action W B) → Action W B
(m >>= k) f = and_then (m f) k

abbrev pub ◌>>◌ : {W A B : Type 0} → Action W A → Action W B → Action W B
(m >> k) f = and_then (m f) (λ _. k)

module _ {W : Type 0} where
  abbrev pub give : {A : Type 0} → A → Action W A
  give a f = done (a, f)

  abbrev pub skip : Action W (Unit {0})
  skip f = done (tt, f)

  unfoldable pub on_stack : Frame W → Access DataStack → Access (Unit {0} × Frame W)
  on_stack f (done s) = done (tt, record f { stack = s })
  on_stack f outside = outside
  on_stack f stopped = stopped

  -- PUSH
  unfoldable pub push : ℕ → Action W (Unit {0})
  unfolding on_stack push_node
  push v f = on_stack f (push_node f.stack v)

  unfoldable pub popped : Frame W → Access (ℕ × DataStack) → Access (ℕ × Frame W)
  popped f (done (v, s)) = done (v, record f { stack = s })
  popped f outside = outside
  popped f stopped = stopped

  -- POP
  unfoldable pub pop : Action W ℕ
  unfolding popped pop_node
  pop f = popped f (pop_node f.stack)

  unfoldable pub seen : Frame W → Access ℕ → Access (ℕ × Frame W)
  seen f (done v) = done (v, f)
  seen f outside = outside
  seen f stopped = stopped

  -- TOP
  unfoldable pub top : Action W ℕ
  unfolding seen top_node
  top f = seen f (top_node f.stack)

  -- SECOND_TOP
  unfoldable pub second_top : Action W ℕ
  second_top f =
      if ltb f.stack.used 2
      then outside
      else done (get_or f.stack.data_stack (f.stack.used - 2) 0, f)

  unfoldable pub found : {A : Type 0} → Option A → Action W A
  found none f = outside
  found (some a) f = done (a, f)

  unfoldable pub advance : ℕ → Action W (Unit {0})
  advance k f = done (tt, record f { next = f.next + k })

  -- a byte behind the instruction
  unfoldable pub byte_operand : Action W ℕ
  unfolding found advance
  byte_operand f = (found (get_elem? f.ops f.next) >>= λ b. advance 1 >> give b) f

  -- `*(unsigned int *)`, the lowest byte first
  unfoldable pub operand : Action W ℕ
  unfolding byte_operand
  operand = byte_operand >>= λ a. byte_operand >>= λ b.
      byte_operand >>= λ c. byte_operand >>= λ d. give (a + 256 * b + 65536 * c + 16777216 * d)

  -- the name that an operand is the number of
  unfoldable pub name_operand : Action W (List ℕ)
  unfolding operand found
  name_operand = operand >>= λ idx. λ f. found (get_elem? f.names idx) f

  unfoldable pub constant : ℕ → Action W ℕ
  unfolding found
  constant idx f = found (get_elem? f.constants idx) f

  unfoldable pub load_local : ℕ → Action W ℕ
  unfolding found
  load_local idx f = found (get_elem? f.locals idx) f

  unfoldable pub save_local : ℕ → ℕ → Action W (Unit {0})
  save_local idx v f =
      if ltb idx (length f.locals)
      then done (tt, record f { locals = set f.locals idx v })
      else outside

  -- The next instruction is the one behind the position: `pc` is set to it.
  unfoldable pub goto : ℕ → Action W (Unit {0})
  goto idx f = done (tt, record f { next = idx + 1 })

  -- LI_JUMP, whose target is the instruction itself if it is in front of the jump
  unfoldable pub jump_to : ℕ → Action W (Unit {0})
  jump_to idx f =
      if idx == 0
      then done (tt, record f { next = 0 })
      else done (tt, record f { next = if ltb idx (f.next - 1) then idx else idx + 1 })

  -- a function of another part, called
  unfoldable pub call : (W → Reply W) → Action W ℕ
  call g f =
      let r = g f.world in
      done
        (r.value, record f { world = r.after; error = if r.raised == 0 then f.error else r.raised })

  -- arguments, the last first
  unfoldable pub pop_args : ℕ → Action W (List ℕ)
  unfolding pop
  pop_args zero = give []
  pop_args (suc n) = pop >>= λ v. pop_args n >>= λ vs. give (v ∷ vs)

  unfoldable pub set_ret : ℕ → Action W (Unit {0})
  set_ret v f = done (tt, record f { ret = v })

  unfoldable pub push_catch : ℕ → Action W (Unit {0})
  push_catch idx f =
      if ltb f.catch_pointer (length f.catch_stack)
      then done (
        tt,
        record f {
          catch_stack = set f.catch_stack f.catch_pointer idx;
          catch_pointer = f.catch_pointer + 1;
        },
      )
      else outside

  -- It clears the slot behind the top; the pointer is an int on 32 bits.
  unfoldable pub pop_catch : Action W (Unit {0})
  pop_catch f =
      if ltb f.catch_pointer (length f.catch_stack)
      then done (
        tt,
        record f {
          catch_stack = set f.catch_stack f.catch_pointer 0;
          catch_pointer = if f.catch_pointer == 0 then 2 ^ 32 - 1 else f.catch_pointer - 1;
        },
      )
      else outside
