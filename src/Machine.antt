-- ===== src/Machine.antt =====
-- src/interpreter/lky_machine.c: the data stack of a frame. `used` counts the values on the stack; it is
-- one more than `stack_pointer`, which is -1 at the start. 0 is NULL.
pub mod Stack
pub mod Frame
pub mod Dispatch
mod Ops
pub mod Eval
mod Moves
mod Growth
mod Classes
mod Catches
mod Tests
use lanky.Prelude.{
  ℕ, zero, suc, ◌+◌, ◌-◌, List, [], ◌∷◌, ltb, ◌==◌, if◌then◌else◌, get_or, set, replicate,
}

pub record DataStack : Type 0 where
  pub data_stack : List ℕ
  pub used : ℕ
  pub stack_size : ℕ

-- `outside` is an access outside of `data_stack`, `stopped` the exit after "Stack Overflow!".
pub data Access (A : Type 0) : Type 0 where
  done : A → Access A
  outside : Access A
  stopped : Access A

-- `void *stack[code->stack_size]`, cleared
pub new_stack : ℕ → DataStack
new_stack size = record { data_stack = replicate size 0; used = 0; stack_size = size }

pub push_node : DataStack → ℕ → Access DataStack
push_node frame value =
    if ltb frame.stack_size frame.used
    then stopped
    else if ltb frame.used frame.stack_size
    then done
        (record frame { data_stack = set frame.data_stack frame.used value; used = frame.used + 1 })
    else outside

pub top_node : DataStack → Access ℕ
top_node frame =
    if frame.used == 0 then outside else done (get_or frame.data_stack (frame.used - 1) 0)

-- the value and the frame; the slot is cleared
pub pop_node : DataStack → Access (ℕ × DataStack)
pop_node frame =
    let top = frame.used - 1 in
    if frame.used == 0
    then outside
    else done (
      get_or frame.data_stack top 0,
      record frame { data_stack = set frame.data_stack top 0; used = top },
    )
