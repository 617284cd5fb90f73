-- ===== src/Compiler/Shapes.antt =====
-- src/compiler/ast_compiler.c: the compile_ function of each kind of node, of what its parts are compiled to.
use lanky.Prelude.{ℕ, Bool, true, false, Option, none, some, List, if◌then◌else◌}
use lanky.Compiler.Ast.{Members, no_member, member, ValueWrapper}
use lanky.Compiler.Objects.{regex_object, unit_object, wrapper_to_obj}
use lanky.Compiler.Emit.{
  Emit, ◌>=>◌, emit, emit_int, emit_jump, saved, fresh, named, emit_name, here, emit_var, in_loop,
  emit_const, emit_new_const, emit_bytes, emit_names,
}
use lanky.Compiler.Function.{instr_for_char, emit_unary, close_names}
use lanky.Instructions.{
  li_pop, li_jump, li_jump_false, li_push_catch, li_pop_catch, li_make_iter, li_next_iter_or_jump,
  li_iter_index, li_make_array, li_make_table, li_make_object, li_push_new_object, li_load_index,
  li_save_index, li_dduplicate, li_sduplicate, li_sink_first, li_flip_two, li_load_member,
  li_save_member, li_load_module, li_call_func, li_make_class, li_load_close,
}

-- the prefix and the name of each member, the last first
unfoldable pub emit_members : Members → ℕ → Emit
unfolding emit named emit_bytes
emit_members no_member line = some
emit_members (member prefix name p rest) line =
    emit_members rest line >=> emit prefix line >=> named name (λ idx. emit_bytes idx line)

unfoldable pub optional_index : Option (List ℕ) → ℕ → Emit
unfolding emit emit_var
optional_index none line = some
optional_index (some name) line =
    emit li_iter_index line >=> emit_var name false line >=> emit li_pop line

unfoldable pub close_used : List ℕ → Emit
unfolding close_names
close_used refname s = close_names refname s.cw.used_names s

unfoldable pub compile_binary : (line opt : ℕ) (l r : Emit) → Emit
unfolding emit instr_for_char
compile_binary line opt l r = l >=> r >=> emit (instr_for_char opt) line

-- `=` with a name on the left
unfoldable pub compile_assign : (line : ℕ) (name : List ℕ) (r : Emit) → Emit
unfolding emit_var
compile_assign line name r = r >=> emit_var name false line

unfoldable pub compile_set_member : (line : ℕ) (ident : List ℕ) (o r : Emit) → Emit
unfolding emit_name
compile_set_member line ident o r = r >=> o >=> emit_name li_save_member ident line

unfoldable pub compile_set_index : (line : ℕ) (t i r : Emit) → Emit
unfolding emit
compile_set_index line t i r = r >=> t >=> i >=> emit li_save_index line

-- `compile_triple_set` of an index
unfoldable pub compile_triple_index : (line opt : ℕ) (t i v : Emit) → Emit
unfolding emit instr_for_char
compile_triple_index line opt t i v =
    t
    >=> i
    >=> emit li_dduplicate line
    >=> emit li_load_index line
    >=> v
    >=> emit (instr_for_char opt) line
    >=> emit li_sink_first line
    >=> emit li_save_index line

-- `compile_triple_set` of a member
unfoldable pub compile_triple_member : (line opt : ℕ) (ident : List ℕ) (o v : Emit) → Emit
unfolding emit emit_int instr_for_char named
compile_triple_member line opt ident o v = named ident (λ idx.
    o
    >=> emit li_sduplicate line
    >=> emit_int li_load_member idx line
    >=> v
    >=> emit (instr_for_char opt) line
    >=> emit li_flip_two line
    >=> emit_int li_save_member idx line)

unfoldable pub compile_unary : (line opt : ℕ) (has_target : Bool) (t : Emit) → Emit
unfolding emit_unary
compile_unary line opt has_target t = t >=> emit_unary opt has_target line

unfoldable pub compile_value : (line : ℕ) (w : ValueWrapper) → Emit
unfolding emit_const wrapper_to_obj
compile_value line w = emit_const (wrapper_to_obj w) line

unfoldable pub compile_var : (line : ℕ) (name : List ℕ) → Emit
unfolding emit_var
compile_var line name = emit_var name true line

unfoldable pub compile_regex : (line : ℕ) (p f : List ℕ) → Emit
unfolding emit_new_const
compile_regex line p f = emit_new_const (regex_object p f) line

unfoldable pub compile_unit_value : (line : ℕ) (v f : List ℕ) → Emit
unfolding emit_new_const
compile_unit_value line v f = emit_new_const (unit_object v f) line

-- `init` and `onloop` come with what is done about their value.
unfoldable pub compile_loop : (line : ℕ) (init c onloop p : Emit) → Emit
unfolding emit emit_int emit_jump fresh here in_loop saved
compile_loop line init c onloop p = fresh (λ out. fresh (λ again.
    init
    >=> here (λ start.
      c
      >=> emit_jump li_jump_false out line
      >=> in_loop again out p
      >=> emit again line
      >=> onloop
      >=> emit_int li_jump start line
      >=> emit out line
      >=> saved true)))

unfoldable pub compile_iter_loop :
    (line : ℕ) (name : List ℕ) (i : Option (List ℕ)) (on p : Emit) → Emit
unfolding emit emit_int emit_jump emit_var fresh here in_loop optional_index saved
compile_iter_loop line name i on p =
    on
    >=> emit li_make_iter line
    >=> fresh (λ out. fresh (λ again. here (λ start.
      emit_jump li_next_iter_or_jump out line
      >=> emit_var name false line
      >=> emit li_pop line
      >=> optional_index i line
      >=> in_loop again out p
      >=> emit again line
      >=> emit_int li_jump start line
      >=> emit out line
      >=> emit li_pop line
      >=> saved true)))

unfoldable pub compile_try_catch : (line : ℕ) (name : List ℕ) (t c : Emit) → Emit
unfolding emit emit_jump emit_var fresh saved
compile_try_catch line name t c = fresh (λ catch. fresh (λ out.
    emit_jump li_push_catch catch line
    >=> t
    >=> emit li_pop_catch line
    >=> emit_jump li_jump out line
    >=> emit catch line
    >=> emit_var name false line
    >=> emit li_pop line
    >=> c
    >=> emit out line
    >=> saved true))

unfoldable pub compile_array : (line ct : ℕ) (list : Emit) → Emit
unfolding emit_int
compile_array line ct list = list >=> emit_int li_make_array ct line

unfoldable pub compile_table : (line ct : ℕ) (list : Emit) → Emit
unfolding emit_int
compile_table line ct list = list >=> emit_int li_make_table ct line

unfoldable pub compile_object_simple :
    (line ct : ℕ) (names : List (List ℕ)) (has_obj : Bool) (fields obj : Emit) → Emit
unfolding emit emit_int emit_names
compile_object_simple line ct names has_obj fields obj =
    fields
    >=> (if has_obj then obj else emit li_push_new_object line)
    >=> emit_int li_make_object ct line
    >=> emit_names names line

unfoldable pub compile_object :
    (line ct : ℕ) (names : List (List ℕ)) (refname : List ℕ) (fields : Emit) → Emit
unfolding close_used emit_int emit_name emit_names
compile_object line ct names refname fields =
    close_used refname
    >=> fields
    >=> emit_name li_load_close refname line
    >=> emit_int li_make_object ct line
    >=> emit_names names line

unfoldable pub compile_indx : (line : ℕ) (t i : Emit) → Emit
unfolding emit
compile_indx line t i = t >=> i >=> emit li_load_index line

unfoldable pub compile_ternary : (line : ℕ) (c a b : Emit) → Emit
unfolding emit emit_jump fresh
compile_ternary line c a b = fresh (λ next. fresh (λ out.
    c
    >=> emit_jump li_jump_false next line
    >=> a
    >=> emit_jump li_jump out line
    >=> emit next line
    >=> b
    >=> emit out line))

unfoldable pub compile_load : (line : ℕ) (name : List ℕ) → Emit
unfolding emit_name
compile_load line name = emit_name li_load_module name line

unfoldable pub compile_member_access : (line : ℕ) (ident : List ℕ) (o : Emit) → Emit
unfolding emit_int named
compile_member_access line ident o = named ident (λ idx. o >=> emit_int li_load_member idx line)

unfoldable pub compile_function_call : (line ct : ℕ) (ident args : Emit) → Emit
unfolding emit
compile_function_call line ct ident args =
    args >=> ident >=> emit li_call_func line >=> emit ct line

-- `members` has the names, `payloads` is what they are compiled to.
unfoldable pub compile_class_decl :
    (line ct flag : ℕ) (members : Members) (payloads init super : Emit) → Emit
unfolding emit emit_members
compile_class_decl line ct flag members payloads init super =
    payloads
    >=> super
    >=> init
    >=> emit li_make_class line
    >=> emit ct line
    >=> emit flag line
    >=> emit_members members line
