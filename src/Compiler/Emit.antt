-- ===== src/Compiler/Emit.antt =====
-- src/compiler/ast_compiler.c: the pieces that its compile_ functions are composed of. Each is a step of
-- the compilation: `none` is where the code reads through NULL.
use lanky.Prelude.{
  ℕ, suc, Bool, true, false, Option, none, some, List, [], ◌∷◌, ◌++◌, if◌then◌else◌, length, ◌>>=◌,
}
use lanky.Compiler.{
  CompilerWrapper, State, append_op, append_ops, int_to_byte_array, append_with_int,
  append_with_tag, next_if_tag, intern_name, append_var_info,
}
use lanky.Compiler.Objects.{Object, quick_compare}
use lanky.Instructions.{li_pop, li_load_const}

abbrev pub Emit : Type 0
Emit = State → Option State

infixr 4 ◌>=>◌
abbrev pub ◌>=>◌ : Emit → Emit → Emit
(f >=> g) s = f s >>= g

unfoldable pub on : (CompilerWrapper → CompilerWrapper) → Emit
on f s = some (record s { cw = f s.cw })

unfoldable pub emit : ℕ → ℕ → Emit
unfolding on append_op
emit ins line = on (λ c. append_op c ins line)

-- an instruction and its operand of four bytes
unfoldable pub emit_int : ℕ → ℕ → ℕ → Emit
unfolding on append_with_int
emit_int ins val line = on (λ c. append_with_int c ins val line)

-- an instruction and the tag of where it goes
unfoldable pub emit_jump : ℕ → ℕ → ℕ → Emit
unfolding on append_with_tag
emit_jump ins tag line = on (λ c. append_with_tag c ins tag line)

unfoldable pub set_save_val : Bool → CompilerWrapper → CompilerWrapper
set_save_val b c = record c { save_val = b }

unfoldable pub saved : Bool → Emit
unfolding on set_save_val
saved b = on (set_save_val b)

unfoldable pub fresh : (ℕ → Emit) → Emit
unfolding next_if_tag
fresh k s = let (tag, c) = next_if_tag s.cw in k tag (record s { cw = c })

unfoldable pub named : List ℕ → (ℕ → Emit) → Emit
unfolding intern_name
named name k s = let (idx, c) = intern_name s.cw name in k idx (record s { cw = c })

unfoldable pub emit_name : ℕ → List ℕ → ℕ → Emit
unfolding named emit_int
emit_name ins name line = named name (λ idx. emit_int ins idx line)

-- `rops.count`
unfoldable pub here : (ℕ → Emit) → Emit
here k s = k (length s.cw.rops) s

unfoldable pub emit_var : List ℕ → Bool → ℕ → Emit
unfolding append_var_info
emit_var name is_load line s = some (append_var_info s name is_load line)

unfoldable pub pop_unless : Bool → ℕ → Emit
unfolding emit
pop_unless true line = some
pop_unless false line = emit li_pop line

unfoldable pub emit_pop_unless_saved : ℕ → Emit
unfolding pop_unless
emit_pop_unless_saved line s = pop_unless s.cw.save_val line s

-- an iteration of `compile_compound`
unfoldable pub statement : ℕ → Emit → Emit
unfolding saved emit_pop_unless_saved
statement line e = saved false >=> e >=> emit_pop_unless_saved line

-- `init` and `onloop` of a loop, after which `save_val` is what it was
unfoldable pub aside : ℕ → Emit → Emit
unfolding statement saved
aside line e s = (statement line e >=> saved s.cw.save_val) s

unfoldable pub push_loop : ℕ → ℕ → CompilerWrapper → CompilerWrapper
push_loop again out c = record c {
  loop_start_stack = again ∷ c.loop_start_stack;
  loop_end_stack = out ∷ c.loop_end_stack;
}

unfoldable pub tail : List ℕ → List ℕ
tail [] = []
tail (x ∷ xs) = xs

unfoldable pub pop_loop : CompilerWrapper → CompilerWrapper
unfolding tail
pop_loop c = record c {
  loop_start_stack = tail c.loop_start_stack;
  loop_end_stack = tail c.loop_end_stack;
}

unfoldable pub in_loop : ℕ → ℕ → Emit → Emit
unfolding on push_loop pop_loop
in_loop again out e = on (push_loop again out) >=> e >=> on pop_loop

unfoldable pub find_prev_const : List Object → Object → ℕ → Option ℕ
unfolding quick_compare
find_prev_const [] obj i = none
find_prev_const (o ∷ os) obj i =
    if quick_compare obj o then some i else find_prev_const os obj (suc i)

unfoldable pub add_const : Object → CompilerWrapper → CompilerWrapper
add_const obj c = record c { rcon = c.rcon ++ obj ∷ [] }

-- a constant that is new
unfoldable pub emit_new_const : Object → ℕ → Emit
unfolding on add_const emit_int
emit_new_const obj line s =
    (on (add_const obj) >=> emit_int li_load_const (length s.cw.rcon) line) s

-- a constant that was there before, or a new one
unfoldable pub emit_const_at : Option ℕ → Object → ℕ → Emit
unfolding emit_new_const emit_int
emit_const_at (some idx) obj line = emit_int li_load_const idx line
emit_const_at none obj line = emit_new_const obj line

unfoldable pub emit_const : Object → ℕ → Emit
unfolding find_prev_const emit_const_at
emit_const obj line s = emit_const_at (find_prev_const s.cw.rcon obj 0) obj line s

unfoldable pub emit_bytes : ℕ → ℕ → Emit
unfolding on append_ops int_to_byte_array
emit_bytes val line = on (λ c. append_ops c (int_to_byte_array val) line)

-- the names of an object's members, the last first
unfoldable pub emit_names : List (List ℕ) → ℕ → Emit
unfolding named emit_bytes
emit_names [] line = some
emit_names (n ∷ ns) line = emit_names ns line >=> named n (λ idx. emit_bytes idx line)
