-- ===== src/Compiler/ShapeSteps.antt =====
-- src/compiler/ast_compiler.c: what the compile_ function of each kind of node leaves.
use lanky.Prelude.{ℕ, ◌≡◌, Bool, true, false, Option, List, if◌then◌else◌}
use lanky.Compiler.Ast.{Members, ValueWrapper}
use lanky.Instructions.{
  li_pop, li_jump, li_jump_false, li_push_catch, li_pop_catch, li_make_iter, li_next_iter_or_jump,
  li_make_array, li_make_table, li_make_object, li_push_new_object, li_load_index, li_save_index,
  li_dduplicate, li_sduplicate, li_sink_first, li_flip_two, li_load_member, li_save_member,
  li_load_module, li_call_func, li_make_class, li_load_close,
}
use lanky.Compiler.Objects.{regex_object, unit_object, wrapper_to_obj}
use lanky.Compiler.Function.{instr_for_char}
use lanky.Compiler.Steps.{
  Runs, ◌then◌, emit-Runs, emit_int-Runs, emit_jump-Runs, saved-Runs, fresh-Runs, named-Runs,
  emit_name-Runs, here-Runs, emit_var-Runs, emit_new_const-Runs, emit_const-Runs, emit_names-Runs,
  in_loop-Runs,
}
use lanky.Compiler.FunctionSteps.{
  emit_unary-Runs, close_used-Runs, optional_index-Runs, emit_members-Runs,
}
use lanky.Compiler.Emit.{Emit}
use lanky.Compiler.Shapes.{
  compile_binary, compile_assign, compile_set_member, compile_set_index, compile_triple_index,
  compile_triple_member, compile_unary, compile_value, compile_var, compile_regex,
  compile_unit_value, compile_loop, compile_iter_loop, compile_try_catch, compile_array,
  compile_table, compile_object_simple, compile_object, compile_indx, compile_ternary, compile_load,
  compile_member_access, compile_function_call, compile_class_decl,
}
use lanky.Compiler.FunctionSteps.{if-Runs}

module _ {may_fail d : Bool} where
  pub compile_binary-Runs :
      (line opt : ℕ) {l r : Emit}
      → Runs may_fail d l
      → Runs may_fail d r
      → Runs may_fail d (compile_binary line opt l r)
  unfolding compile_binary
  compile_binary-Runs line opt hl hr = hl then hr then emit-Runs (instr_for_char opt) line

  pub compile_assign-Runs :
      (line : ℕ) (name : List ℕ) {r : Emit}
      → Runs may_fail d r
      → Runs may_fail d (compile_assign line name r)
  unfolding compile_assign
  compile_assign-Runs line name hr = hr then emit_var-Runs name false line

  pub compile_set_member-Runs :
      (line : ℕ) (ident : List ℕ) {o r : Emit}
      → Runs may_fail d o
      → Runs may_fail d r
      → Runs may_fail d (compile_set_member line ident o r)
  unfolding compile_set_member
  compile_set_member-Runs line ident ho hr =
      hr then ho then emit_name-Runs li_save_member ident line

  pub compile_set_index-Runs :
      (line : ℕ) {t i r : Emit}
      → Runs may_fail d t
      → Runs may_fail d i
      → Runs may_fail d r
      → Runs may_fail d (compile_set_index line t i r)
  unfolding compile_set_index
  compile_set_index-Runs line ht hi hr = hr then ht then hi then emit-Runs li_save_index line

  pub compile_triple_index-Runs :
      (line opt : ℕ) {t i v : Emit}
      → Runs may_fail d t
      → Runs may_fail d i
      → Runs may_fail d v
      → Runs may_fail d (compile_triple_index line opt t i v)
  unfolding compile_triple_index
  compile_triple_index-Runs line opt ht hi hv =
      ht
      then hi
      then emit-Runs li_dduplicate line
      then emit-Runs li_load_index line
      then hv
      then emit-Runs (instr_for_char opt) line
      then emit-Runs li_sink_first line
      then emit-Runs li_save_index line

  pub compile_triple_member-Runs :
      (line opt : ℕ) (ident : List ℕ) {o v : Emit}
      → Runs may_fail d o
      → Runs may_fail d v
      → Runs may_fail d (compile_triple_member line opt ident o v)
  unfolding compile_triple_member
  compile_triple_member-Runs line opt ident ho hv = named-Runs ident (λ idx.
      ho
      then emit-Runs li_sduplicate line
      then emit_int-Runs li_load_member idx line
      then hv
      then emit-Runs (instr_for_char opt) line
      then emit-Runs li_flip_two line
      then emit_int-Runs li_save_member idx line)

  pub compile_unary-Runs :
      (line opt : ℕ) (has_target : Bool) {t : Emit}
      → Runs may_fail d t
      → Runs may_fail d (compile_unary line opt has_target t)
  unfolding compile_unary
  compile_unary-Runs line opt has_target ht = ht then emit_unary-Runs opt has_target line

  pub compile_value-Runs : (line : ℕ) (w : ValueWrapper) → Runs may_fail d (compile_value line w)
  unfolding compile_value
  compile_value-Runs line w = emit_const-Runs (wrapper_to_obj w) line

  pub compile_var-Runs : (line : ℕ) (name : List ℕ) → Runs may_fail d (compile_var line name)
  unfolding compile_var
  compile_var-Runs line name = emit_var-Runs name true line

  pub compile_regex-Runs : (line : ℕ) (p f : List ℕ) → Runs may_fail d (compile_regex line p f)
  unfolding compile_regex
  compile_regex-Runs line p f = emit_new_const-Runs (regex_object p f) line

  pub compile_unit_value-Runs :
      (line : ℕ) (v f : List ℕ) → Runs may_fail d (compile_unit_value line v f)
  unfolding compile_unit_value
  compile_unit_value-Runs line v f = emit_new_const-Runs (unit_object v f) line

  pub compile_loop-Runs :
      (line : ℕ) {init c onloop p : Emit}
      → Runs may_fail d init
      → Runs may_fail d c
      → Runs may_fail d onloop
      → Runs may_fail true p
      → Runs may_fail d (compile_loop line init c onloop p)
  unfolding compile_loop
  compile_loop-Runs line hi hc ho hp = fresh-Runs (λ out. fresh-Runs (λ again.
      hi
      then here-Runs (λ start.
        hc
        then emit_jump-Runs li_jump_false out line
        then in_loop-Runs again out hp
        then emit-Runs again line
        then ho
        then emit_int-Runs li_jump start line
        then emit-Runs out line
        then saved-Runs true)))

  pub compile_iter_loop-Runs :
      (line : ℕ) (name : List ℕ) (i : Option (List ℕ)) {on p : Emit}
      → Runs may_fail d on
      → Runs may_fail true p
      → Runs may_fail d (compile_iter_loop line name i on p)
  unfolding compile_iter_loop
  compile_iter_loop-Runs line name i ho hp =
      ho
      then emit-Runs li_make_iter line
      then fresh-Runs (λ out. fresh-Runs (λ again. here-Runs (λ start.
        emit_jump-Runs li_next_iter_or_jump out line
        then emit_var-Runs name false line
        then emit-Runs li_pop line
        then optional_index-Runs i line
        then in_loop-Runs again out hp
        then emit-Runs again line
        then emit_int-Runs li_jump start line
        then emit-Runs out line
        then emit-Runs li_pop line
        then saved-Runs true)))

  pub compile_try_catch-Runs :
      (line : ℕ) (name : List ℕ) {t c : Emit}
      → Runs may_fail d t
      → Runs may_fail d c
      → Runs may_fail d (compile_try_catch line name t c)
  unfolding compile_try_catch
  compile_try_catch-Runs line name ht hc = fresh-Runs (λ catch. fresh-Runs (λ out.
      emit_jump-Runs li_push_catch catch line
      then ht
      then emit-Runs li_pop_catch line
      then emit_jump-Runs li_jump out line
      then emit-Runs catch line
      then emit_var-Runs name false line
      then emit-Runs li_pop line
      then hc
      then emit-Runs out line
      then saved-Runs true))

  pub compile_array-Runs :
      (line ct : ℕ) {list : Emit}
      → Runs may_fail d list
      → Runs may_fail d (compile_array line ct list)
  unfolding compile_array
  compile_array-Runs line ct h = h then emit_int-Runs li_make_array ct line

  pub compile_table-Runs :
      (line ct : ℕ) {list : Emit}
      → Runs may_fail d list
      → Runs may_fail d (compile_table line ct list)
  unfolding compile_table
  compile_table-Runs line ct h = h then emit_int-Runs li_make_table ct line

  pub compile_object_simple-Runs :
      (line ct : ℕ) (names : List (List ℕ)) (has_obj : Bool) {fields obj : Emit}
      → Runs may_fail d fields
      → Runs may_fail d obj
      → Runs may_fail d (compile_object_simple line ct names has_obj fields obj)
  unfolding compile_object_simple
  compile_object_simple-Runs line ct names has_obj hf ho =
      hf
      then if-Runs has_obj ho (emit-Runs li_push_new_object line)
      then emit_int-Runs li_make_object ct line
      then emit_names-Runs names line

  pub compile_object-Runs :
      (line ct : ℕ) (names : List (List ℕ)) (refname : List ℕ) {fields : Emit}
      → may_fail ≡ true
      → Runs may_fail d fields
      → Runs may_fail d (compile_object line ct names refname fields)
  unfolding compile_object
  compile_object-Runs line ct names refname may hf =
      close_used-Runs refname may
      then hf
      then emit_name-Runs li_load_close refname line
      then emit_int-Runs li_make_object ct line
      then emit_names-Runs names line

  pub compile_indx-Runs :
      (line : ℕ) {t i : Emit}
      → Runs may_fail d t
      → Runs may_fail d i
      → Runs may_fail d (compile_indx line t i)
  unfolding compile_indx
  compile_indx-Runs line ht hi = ht then hi then emit-Runs li_load_index line

  pub compile_ternary-Runs :
      (line : ℕ) {c a b : Emit}
      → Runs may_fail d c
      → Runs may_fail d a
      → Runs may_fail d b
      → Runs may_fail d (compile_ternary line c a b)
  unfolding compile_ternary
  compile_ternary-Runs line hc ha hb = fresh-Runs (λ next. fresh-Runs (λ out.
      hc
      then emit_jump-Runs li_jump_false next line
      then ha
      then emit_jump-Runs li_jump out line
      then emit-Runs next line
      then hb
      then emit-Runs out line))

  pub compile_load-Runs : (line : ℕ) (name : List ℕ) → Runs may_fail d (compile_load line name)
  unfolding compile_load
  compile_load-Runs line name = emit_name-Runs li_load_module name line

  pub compile_member_access-Runs :
      (line : ℕ) (ident : List ℕ) {o : Emit}
      → Runs may_fail d o
      → Runs may_fail d (compile_member_access line ident o)
  unfolding compile_member_access
  compile_member_access-Runs line ident h =
      named-Runs ident (λ idx. h then emit_int-Runs li_load_member idx line)

  pub compile_function_call-Runs :
      (line ct : ℕ) {ident args : Emit}
      → Runs may_fail d ident
      → Runs may_fail d args
      → Runs may_fail d (compile_function_call line ct ident args)
  unfolding compile_function_call
  compile_function_call-Runs line ct hi ha =
      ha then hi then emit-Runs li_call_func line then emit-Runs ct line

  pub compile_class_decl-Runs :
      (line ct flag : ℕ) (members : Members) {payloads init super : Emit}
      → Runs may_fail d payloads
      → Runs may_fail d init
      → Runs may_fail d super
      → Runs may_fail d (compile_class_decl line ct flag members payloads init super)
  unfolding compile_class_decl
  compile_class_decl-Runs line ct flag members hm hi hs =
      hm
      then hs
      then hi
      then emit-Runs li_make_class line
      then emit-Runs ct line
      then emit-Runs flag line
      then emit_members-Runs members line
