-- ===== src/Compiler/Lines/ShapeSteps.antt =====
-- src/compiler/ast_compiler.c: the compile_ function of each kind of node records its line.
use lanky.Prelude.{ℕ, Bool, true, false, Option, List, if◌then◌else◌}
use lanky.Compiler.Ast.{Members, ValueWrapper, vdouble, vint, vstring}
use lanky.Compiler.Lines.{IsLined}
use lanky.Instructions.{
  li_pop, li_jump, li_jump_false, li_push_catch, li_pop_catch, li_make_iter, li_next_iter_or_jump,
  li_make_array, li_make_table, li_make_object, li_push_new_object, li_load_index, li_save_index,
  li_dduplicate, li_sduplicate, li_sink_first, li_flip_two, li_load_member, li_save_member,
  li_load_module, li_call_func, li_make_class, li_load_close,
}
use lanky.Compiler.Objects.{regex_object, unit_object, wrapper_to_obj}
use lanky.Compiler.Function.{instr_for_char}
use lanky.Compiler.Lines.Steps.{
  Records, ◌then◌, emit-Records, emit_int-Records, emit_jump-Records, saved-Records, fresh-Records,
  named-Records, emit_name-Records, here-Records, emit_var-Records, emit_new_const-Records,
  emit_const-Records, emit_names-Records, in_loop-Records,
}
use lanky.Compiler.Lines.FunctionSteps.{
  emit_unary-Records, close_used-Records, optional_index-Records, emit_members-Records,
}
use lanky.Compiler.Emit.{Emit}
use lanky.Compiler.Shapes.{
  compile_binary, compile_assign, compile_set_member, compile_set_index, compile_triple_index,
  compile_triple_member, compile_unary, compile_value, compile_var, compile_regex,
  compile_unit_value, compile_loop, compile_iter_loop, compile_try_catch, compile_array,
  compile_table, compile_object_simple, compile_object, compile_indx, compile_ternary, compile_load,
  compile_member_access, compile_function_call, compile_class_decl,
}
use lanky.Compiler.Lines.FunctionSteps.{if-Records}

wrapper_to_obj-IsLined : (P : ℕ → Type 0) (w : ValueWrapper) → IsLined P (wrapper_to_obj w)
unfolding wrapper_to_obj IsLined
wrapper_to_obj-IsLined P (vdouble d) = tt
wrapper_to_obj-IsLined P (vint i) = tt
wrapper_to_obj-IsLined P (vstring s) = tt

module _ {P : ℕ → Type 0} where
  pub compile_binary-Records :
      (line : ℕ) (known : P line) (opt : ℕ) {l r : Emit}
      → Records P l
      → Records P r
      → Records P (compile_binary line opt l r)
  unfolding compile_binary
  compile_binary-Records line known opt hl hr =
      hl then hr then emit-Records (instr_for_char opt) line known

  pub compile_assign-Records :
      (line : ℕ) (known : P line) (name : List ℕ) {r : Emit}
      → Records P r
      → Records P (compile_assign line name r)
  unfolding compile_assign
  compile_assign-Records line known name hr = hr then emit_var-Records name false line known

  pub compile_set_member-Records :
      (line : ℕ) (known : P line) (ident : List ℕ) {o r : Emit}
      → Records P o
      → Records P r
      → Records P (compile_set_member line ident o r)
  unfolding compile_set_member
  compile_set_member-Records line known ident ho hr =
      hr then ho then emit_name-Records li_save_member ident line known

  pub compile_set_index-Records :
      (line : ℕ) (known : P line) {t i r : Emit}
      → Records P t
      → Records P i
      → Records P r
      → Records P (compile_set_index line t i r)
  unfolding compile_set_index
  compile_set_index-Records line known ht hi hr =
      hr then ht then hi then emit-Records li_save_index line known

  pub compile_triple_index-Records :
      (line : ℕ) (known : P line) (opt : ℕ) {t i v : Emit}
      → Records P t
      → Records P i
      → Records P v
      → Records P (compile_triple_index line opt t i v)
  unfolding compile_triple_index
  compile_triple_index-Records line known opt ht hi hv =
      ht
      then hi
      then emit-Records li_dduplicate line known
      then emit-Records li_load_index line known
      then hv
      then emit-Records (instr_for_char opt) line known
      then emit-Records li_sink_first line known
      then emit-Records li_save_index line known

  pub compile_triple_member-Records :
      (line : ℕ) (known : P line) (opt : ℕ) (ident : List ℕ) {o v : Emit}
      → Records P o
      → Records P v
      → Records P (compile_triple_member line opt ident o v)
  unfolding compile_triple_member
  compile_triple_member-Records line known opt ident ho hv = named-Records ident (λ idx.
      ho
      then emit-Records li_sduplicate line known
      then emit_int-Records li_load_member idx line known
      then hv
      then emit-Records (instr_for_char opt) line known
      then emit-Records li_flip_two line known
      then emit_int-Records li_save_member idx line known)

  pub compile_unary-Records :
      (line : ℕ) (known : P line) (opt : ℕ) (has_target : Bool) {t : Emit}
      → Records P t
      → Records P (compile_unary line opt has_target t)
  unfolding compile_unary
  compile_unary-Records line known opt has_target ht =
      ht then emit_unary-Records opt has_target line known

  pub compile_value-Records :
      (line : ℕ) (known : P line) (w : ValueWrapper) → Records P (compile_value line w)
  unfolding compile_value
  compile_value-Records line known w =
      emit_const-Records (wrapper_to_obj w) (wrapper_to_obj-IsLined P w) line known

  pub compile_var-Records :
      (line : ℕ) (known : P line) (name : List ℕ) → Records P (compile_var line name)
  unfolding compile_var
  compile_var-Records line known name = emit_var-Records name true line known

  pub compile_regex-Records :
      (line : ℕ) (known : P line) (p f : List ℕ) → Records P (compile_regex line p f)
  unfolding compile_regex IsLined
  compile_regex-Records line known p f = emit_new_const-Records (regex_object p f) tt line known

  pub compile_unit_value-Records :
      (line : ℕ) (known : P line) (v f : List ℕ) → Records P (compile_unit_value line v f)
  unfolding compile_unit_value IsLined
  compile_unit_value-Records line known v f = emit_new_const-Records (unit_object v f) tt line known

  pub compile_loop-Records :
      (line : ℕ) (known : P line) {init c onloop p : Emit}
      → Records P init
      → Records P c
      → Records P onloop
      → Records P p
      → Records P (compile_loop line init c onloop p)
  unfolding compile_loop
  compile_loop-Records line known hi hc ho hp = fresh-Records (λ out. fresh-Records (λ again.
      hi
      then here-Records (λ start.
        hc
        then emit_jump-Records li_jump_false out line known
        then in_loop-Records again out hp
        then emit-Records again line known
        then ho
        then emit_int-Records li_jump start line known
        then emit-Records out line known
        then saved-Records true)))

  pub compile_iter_loop-Records :
      (line : ℕ) (known : P line) (name : List ℕ) (i : Option (List ℕ)) {on p : Emit}
      → Records P on
      → Records P p
      → Records P (compile_iter_loop line name i on p)
  unfolding compile_iter_loop
  compile_iter_loop-Records line known name i ho hp =
      ho
      then emit-Records li_make_iter line known
      then fresh-Records (λ out. fresh-Records (λ again. here-Records (λ start.
        emit_jump-Records li_next_iter_or_jump out line known
        then emit_var-Records name false line known
        then emit-Records li_pop line known
        then optional_index-Records i line known
        then in_loop-Records again out hp
        then emit-Records again line known
        then emit_int-Records li_jump start line known
        then emit-Records out line known
        then emit-Records li_pop line known
        then saved-Records true)))

  pub compile_try_catch-Records :
      (line : ℕ) (known : P line) (name : List ℕ) {t c : Emit}
      → Records P t
      → Records P c
      → Records P (compile_try_catch line name t c)
  unfolding compile_try_catch
  compile_try_catch-Records line known name ht hc = fresh-Records (λ catch. fresh-Records (λ out.
      emit_jump-Records li_push_catch catch line known
      then ht
      then emit-Records li_pop_catch line known
      then emit_jump-Records li_jump out line known
      then emit-Records catch line known
      then emit_var-Records name false line known
      then emit-Records li_pop line known
      then hc
      then emit-Records out line known
      then saved-Records true))

  pub compile_array-Records :
      (line : ℕ) (known : P line) (ct : ℕ) {list : Emit}
      → Records P list
      → Records P (compile_array line ct list)
  unfolding compile_array
  compile_array-Records line known ct h = h then emit_int-Records li_make_array ct line known

  pub compile_table-Records :
      (line : ℕ) (known : P line) (ct : ℕ) {list : Emit}
      → Records P list
      → Records P (compile_table line ct list)
  unfolding compile_table
  compile_table-Records line known ct h = h then emit_int-Records li_make_table ct line known

  pub compile_object_simple-Records :
      (line : ℕ) (known : P line) (ct : ℕ) (names : List (List ℕ)) (has_obj : Bool)
      {fields obj : Emit}
      → Records P fields
      → Records P obj
      → Records P (compile_object_simple line ct names has_obj fields obj)
  unfolding compile_object_simple
  compile_object_simple-Records line known ct names has_obj hf ho =
      hf
      then if-Records has_obj ho (emit-Records li_push_new_object line known)
      then emit_int-Records li_make_object ct line known
      then emit_names-Records names line known

  pub compile_object-Records :
      (line : ℕ) (known : P line) (ct : ℕ) (names : List (List ℕ)) (refname : List ℕ)
      {fields : Emit}
      → Records P fields
      → Records P (compile_object line ct names refname fields)
  unfolding compile_object
  compile_object-Records line known ct names refname hf =
      close_used-Records refname
      then hf
      then emit_name-Records li_load_close refname line known
      then emit_int-Records li_make_object ct line known
      then emit_names-Records names line known

  pub compile_indx-Records :
      (line : ℕ) (known : P line) {t i : Emit}
      → Records P t
      → Records P i
      → Records P (compile_indx line t i)
  unfolding compile_indx
  compile_indx-Records line known ht hi = ht then hi then emit-Records li_load_index line known

  pub compile_ternary-Records :
      (line : ℕ) (known : P line) {c a b : Emit}
      → Records P c
      → Records P a
      → Records P b
      → Records P (compile_ternary line c a b)
  unfolding compile_ternary
  compile_ternary-Records line known hc ha hb = fresh-Records (λ next. fresh-Records (λ out.
      hc
      then emit_jump-Records li_jump_false next line known
      then ha
      then emit_jump-Records li_jump out line known
      then emit-Records next line known
      then hb
      then emit-Records out line known))

  pub compile_load-Records :
      (line : ℕ) (known : P line) (name : List ℕ) → Records P (compile_load line name)
  unfolding compile_load
  compile_load-Records line known name = emit_name-Records li_load_module name line known

  pub compile_member_access-Records :
      (line : ℕ) (known : P line) (ident : List ℕ) {o : Emit}
      → Records P o
      → Records P (compile_member_access line ident o)
  unfolding compile_member_access
  compile_member_access-Records line known ident h =
      named-Records ident (λ idx. h then emit_int-Records li_load_member idx line known)

  pub compile_function_call-Records :
      (line : ℕ) (known : P line) (ct : ℕ) {ident args : Emit}
      → Records P ident
      → Records P args
      → Records P (compile_function_call line ct ident args)
  unfolding compile_function_call
  compile_function_call-Records line known ct hi ha =
      ha then hi then emit-Records li_call_func line known then emit-Records ct line known

  pub compile_class_decl-Records :
      (line : ℕ) (known : P line) (ct flag : ℕ) (members : Members) {payloads init super : Emit}
      → Records P payloads
      → Records P init
      → Records P super
      → Records P (compile_class_decl line ct flag members payloads init super)
  unfolding compile_class_decl
  compile_class_decl-Records line known ct flag members hm hi hs =
      hm
      then hs
      then hi
      then emit-Records li_make_class line known
      then emit-Records ct line known
      then emit-Records flag line known
      then emit_members-Records members line known
