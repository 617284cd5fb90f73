-- ===== src/Compiler/Function.antt =====
-- src/compiler/ast_compiler.c: the compilation of a function inside another, of a conditional, and the
-- instructions of operators.
use lanky.Prelude.{
  ℕ, Bool, true, false, ◌&&◌, not, Option, none, some, List, [], ◌∷◌, ltb, ◌==◌, if◌then◌else◌,
  length, ◌>>=◌,
}
use lanky.HashMap
use lanky.HashTable.{bytes_equal}
use lanky.Compiler.{CompilerWrapper, State, NameWrapper, filler, op, append_cell, switch_to_close}
use lanky.Compiler.Objects.{Object}
use lanky.Compiler.Emit.{Emit, ◌>=>◌, on, emit, emit_jump, saved, emit_new_const}
use lanky.Compiler.Tags.{build_code}
use lanky.Instructions.{
  li_binary_add, li_binary_subtract, li_binary_multiply, li_binary_divide, li_binary_modulo,
  li_binary_power, li_binary_lt, li_binary_gt, li_binary_lte, li_binary_gte, li_binary_equal,
  li_binary_ne, li_binary_and, li_binary_or, li_binary_nc, li_binary_band, li_binary_bor,
  li_binary_bxor, li_binary_blshift, li_binary_brshift, li_ignore, li_print, li_return, li_raise,
  li_push_nil, li_push_new_object, li_unary_not, li_unary_negative, li_push_bool, li_jump,
  li_jump_false, li_jump_true_else_pop, li_jump_false_else_pop, li_make_function,
}

-- the value of a character in a list of them
unfoldable pub lookup : List (ℕ × ℕ) → ℕ → ℕ
lookup [] c = li_ignore
lookup ((k, v) ∷ kvs) c = if k == c then v else lookup kvs c

unfoldable pub instr_for_char : ℕ → ℕ
unfolding lookup
instr_for_char opt =
    lookup
      ((43, li_binary_add)
        ∷ (45, li_binary_subtract)
        ∷ (42, li_binary_multiply)
        ∷ (47, li_binary_divide)
        ∷ (37, li_binary_modulo)
        ∷ (94, li_binary_power)
        ∷ (108, li_binary_lt)
        ∷ (103, li_binary_gt)
        ∷ (76, li_binary_lte)
        ∷ (71, li_binary_gte)
        ∷ (69, li_binary_equal)
        ∷ (110, li_binary_ne)
        ∷ (38, li_binary_and)
        ∷ (124, li_binary_or)
        ∷ (63, li_binary_nc)
        ∷ (97, li_binary_band)
        ∷ (111, li_binary_bor)
        ∷ (120, li_binary_bxor)
        ∷ (60, li_binary_blshift)
        ∷ (62, li_binary_brshift)
        ∷ [])
      opt

-- `compile_unary` after its target: 'p' 'r' 't' '!' '0' '1' '-' 'Y' 'N'
unfoldable pub emit_unary : ℕ → Bool → ℕ → Emit
unfolding lookup emit saved
emit_unary opt has_target line =
    if opt == 112
    then saved true >=> emit li_print line
    else if opt == 114
    then (if has_target then some else emit li_push_nil line) >=> saved true >=> emit li_return line
    else if opt == 116
    then saved true >=> emit li_raise line
    else if opt == 89
    then emit li_push_bool line >=> emit 1 line
    else if opt == 78
    then emit li_push_bool line >=> emit 0 line
    else emit
        (lookup
          ((33, li_unary_not)
            ∷ (48, li_push_nil)
            ∷ (49, li_push_new_object)
            ∷ (45, li_unary_negative)
            ∷ [])
          opt)
        line

-- the instruction of `compile_cond_ex`
unfoldable pub cond_instr : ℕ → ℕ
cond_instr opt =
    if opt == 124
    then li_jump_true_else_pop
    else if opt == 38
    then li_jump_false_else_pop
    else li_ignore

-- `compile_single_if`, of a compiled condition and a compiled payload
unfoldable pub single_if : ℕ → Bool → Emit → Emit → ℕ → ℕ → Emit
unfolding emit_jump
single_if line has_condition condition payload out next =
    (if has_condition then condition >=> emit_jump li_jump_false next line else some)
    >=> payload
    >=> (if has_condition && not (out == next) then emit_jump li_jump out line else some)

unfoldable pub jump_unknown : ℕ → CompilerWrapper → CompilerWrapper
unfolding append_cell
jump_unknown line c =
    append_cell
      (append_cell
        (append_cell (append_cell (append_cell c (op li_jump) line) filler line) filler line) filler
        line)
      filler line

unfoldable pub emit_to_top : List ℕ → ℕ → Emit
unfolding emit_jump
emit_to_top [] line s = none
emit_to_top (tag ∷ tags) line s = emit_jump li_jump tag line s

-- `compile_one_off`: 'c' and 'b', the top of a stack that must not be empty
unfoldable pub compile_one_off : ℕ → ℕ → Emit
unfolding emit_to_top on jump_unknown
compile_one_off opt line s =
    if opt == 99
    then emit_to_top s.cw.loop_start_stack line s
    else if opt == 98
    then emit_to_top s.cw.loop_end_stack line s
    else on (jump_unknown line) s

-- the use of a name in the running code, which must be there
unfoldable pub close_name : List ℕ → ℕ → Emit
unfolding on switch_to_close
close_name refname idx s =
    if ltb idx (length s.cw.rops) then on (switch_to_close refname idx) s else none

-- the uses of a name under which an object is declared
unfoldable pub close_names : List ℕ → List NameWrapper → Emit
unfolding close_name
close_names refname [] = some
close_names refname (w ∷ ws) =
    (if bytes_equal w.name refname then close_name refname w.idx else some)
    >=> close_names refname ws

-- the compilation of a function's body before its first statement
unfoldable pub new_wrapper : List (List ℕ) → List NameWrapper → CompilerWrapper
unfolding HashMap.create
new_wrapper params used = record {
  rops = [];
  rcon = [];
  rnames = params;
  loop_start_stack = [];
  loop_end_stack = [];
  saved_locals = HashMap.create 100;
  save_val = false;
  local_idx = 0;
  if_tag = 1000;
  used_names = used;
  rindices = [];
  repl = false;
}

unfoldable pub enter : CompilerWrapper → State → State
enter cw s = record { cw = cw; outer = s.cw ∷ s.outer }

-- back to the compilation around the one that is finished
unfoldable pub leave : List CompilerWrapper → Option State
leave [] = none
leave (c ∷ cs) = some (record { cw = c; outer = cs })

-- `compile_function` after its body
unfoldable pub finish_function : ℕ → ℕ → Option Object → State → Option State
unfolding leave emit_new_const emit
finish_function line argc none inner = none
finish_function line argc (some obj) inner =
    leave inner.outer
    >>= (emit_new_const obj line >=> emit li_make_function line >=> emit argc line)

-- `compile_function`, of a compiled payload
unfoldable pub compile_function : ℕ → List (List ℕ) → Option (List ℕ) → Option ℕ → Emit → Emit
unfolding new_wrapper enter build_code finish_function
compile_function line params refname root payload s =
    payload (enter (new_wrapper params s.cw.used_names) s) >>= λ inner.
    finish_function line (length params) (build_code refname root inner.cw) inner
