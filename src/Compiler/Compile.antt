-- ===== src/Compiler/Compile.antt =====
-- src/compiler/ast_compiler.c: `compile` and the compile_ function of each kind of node.
use lanky.Prelude.{
  ℕ, suc, ◌+◌, Bool, true, false, Option, none, some, List, [], ◌∷◌, if◌then◌else◌, ◌>>=◌,
}
use lanky.HashMap
use lanky.Compiler.{CompilerWrapper}
use lanky.Compiler.Ast
use lanky.Compiler.Ast.{
  Node, MaybeNode, Conds, Ifs, Nodes, Entries, Fields, Members, absent, present, last, chain, only,
  next_if, nil, cons, no_entry, entry, no_field, field, no_member, member, line_of, line_of_ifs,
}
use lanky.Compiler.Objects.{Object}
use lanky.Compiler.Emit.{Emit, ◌>=>◌, emit, emit_jump, saved, fresh, statement, aside}
use lanky.Compiler.Function.{cond_instr, single_if, compile_one_off, compile_function, new_wrapper}
use lanky.Compiler.Shapes.{
  compile_binary, compile_assign, compile_set_member, compile_set_index, compile_triple_index,
  compile_triple_member, compile_unary, compile_value, compile_var, compile_regex,
  compile_unit_value, compile_loop, compile_iter_loop, compile_try_catch, compile_array,
  compile_table, compile_object_simple, compile_object, compile_indx, compile_ternary, compile_load,
  compile_member_access, compile_function_call, compile_class_decl,
}
use lanky.Compiler.Tags.{build_code}

abbrev pub has_node : MaybeNode → Bool
has_node absent = false
has_node (present n) = true

-- a list that is linked by `next`, counted
abbrev pub count : Nodes → ℕ
count nil = 0
count (cons n ns) = suc (count ns)

abbrev pub count_entries : Entries → ℕ
count_entries no_entry = 0
count_entries (entry k v rest) = suc (count_entries rest)

abbrev pub field_names : Fields → List (List ℕ)
field_names no_field = []
field_names (field name v rest) = name ∷ field_names rest

abbrev pub count_fields : Fields → ℕ
count_fields no_field = 0
count_fields (field name v rest) = suc (count_fields rest)

abbrev pub count_members : Members → ℕ
count_members no_member = 0
count_members (member prefix name p rest) = suc (count_members rest)

-- `init_flag` of a class
abbrev pub init_flag : MaybeNode → MaybeNode → ℕ
init_flag super init = (if has_node super then 2 else 0) + (if has_node init then 1 else 0)

-- the line of the first statement
abbrev pub first_line : Nodes → Option ℕ
first_line nil = none
first_line (cons n ns) = some (line_of n)

unfoldable mutual
  unfolding emit emit_jump saved fresh statement aside cond_instr single_if compile_one_off
      compile_function compile_binary compile_assign compile_set_member compile_set_index
      compile_triple_index compile_triple_member compile_unary compile_value compile_var
      compile_regex compile_unit_value compile_loop compile_iter_loop compile_try_catch
      compile_array compile_table compile_object_simple compile_object compile_indx compile_ternary
      compile_load compile_member_access compile_function_call compile_class_decl

  pub compile : Node → Emit
  compile (Ast.binary line opt l r) = compile_binary line opt (compile l) (compile r)
  compile (Ast.assign line name r) = compile_assign line name (compile r)
  compile (Ast.set_member line o ident r) = compile_set_member line ident (compile o) (compile r)
  compile (Ast.set_index line t i r) = compile_set_index line (compile t) (compile i) (compile r)
  compile (Ast.triple_index line opt t i v) =
      compile_triple_index line opt (compile t) (compile i) (compile v)
  compile (Ast.triple_member line opt o ident v) =
      compile_triple_member line opt ident (compile o) (compile v)
  compile (Ast.unary line opt t) = compile_unary line opt (has_node t) (compile_maybe t)
  compile (Ast.value line w) = compile_value line w
  compile (Ast.variable line name) = compile_var line name
  compile (Ast.regex line p f) = compile_regex line p f
  compile (Ast.unit_value line v f) = compile_unit_value line v f
  compile (Ast.cond conds) = fresh (λ out. compile_cond_ex conds out)
  compile (Ast.if_node ifs) = fresh (λ next. fresh (λ out. compile_if ifs next out)) >=> saved true
  compile (Ast.loop line init c onloop p) =
      compile_loop line (compile_aside init line) (compile c) (compile_aside onloop line)
        (compile_compound p)
  compile (Ast.iter_loop line name i on p) =
      compile_iter_loop line name i (compile on) (compile_compound p)
  compile (Ast.try_catch line t name c) =
      compile_try_catch line name (compile_compound t) (compile_compound c)
  compile (Ast.one_off line opt) = compile_one_off opt line
  compile (Ast.array line list) = compile_array line (count list) (compile_each list)
  compile (Ast.table line list) = compile_table line (count_entries list) (compile_entries list)
  compile (Ast.object_decl line fields none obj) =
      compile_object_simple line (count_fields fields) (field_names fields) (has_node obj)
        (compile_fields fields) (compile_maybe obj)
  compile (Ast.object_decl line fields (some refname) obj) =
      compile_object line (count_fields fields) (field_names fields) refname (compile_fields fields)
  compile (Ast.index line t i) = compile_indx line (compile t) (compile i)
  compile (Ast.ternary line c a b) = compile_ternary line (compile c) (compile a) (compile b)
  compile (Ast.load line name) = compile_load line name
  compile (Ast.member_access line o ident) = compile_member_access line ident (compile o)
  compile (Ast.func_decl line params p refname) =
      compile_function line params refname (first_line p) (compile_compound p)
  compile (Ast.func_call line ident args) =
      compile_function_call line (count args) (compile ident) (compile_each args)
  compile (Ast.class_decl line members init super) =
      compile_class_decl line (count_members members) (init_flag super init) members
        (compile_members members) (compile_maybe init) (compile_maybe super)

  -- a node that may be NULL
  pub compile_maybe : MaybeNode → Emit
  compile_maybe absent = some
  compile_maybe (present n) = compile n

  pub compile_aside : MaybeNode → ℕ → Emit
  compile_aside absent line = some
  compile_aside (present n) line = aside line (compile n)

  pub compile_cond_ex : Conds → ℕ → Emit
  compile_cond_ex (last line opt l r) out =
      compile l >=> emit_jump (cond_instr opt) out line >=> compile r >=> emit out line
  compile_cond_ex (chain line opt l r) out =
      compile l >=> emit_jump (cond_instr opt) out line >=> compile_cond_ex r out

  pub compile_if : Ifs → ℕ → ℕ → Emit
  compile_if (only line c p) next out =
      single_if line (has_node c) (compile_maybe c) (compile_compound p) next next
      >=> emit next line
  compile_if (next_if line c p rest) next out =
      single_if line (has_node c) (compile_maybe c) (compile_compound p) out next
      >=> compile_elifs rest out next
      >=> emit out line

  -- the loop over the other branches
  pub compile_elifs : Ifs → ℕ → ℕ → Emit
  compile_elifs (only line c p) out here_tag =
      emit here_tag line
      >=> single_if line (has_node c) (compile_maybe c) (compile_compound p) out out
  compile_elifs (next_if line c p rest) out here_tag =
      emit here_tag line
      >=> fresh (λ next.
        single_if line (has_node c) (compile_maybe c) (compile_compound p) out next
        >=> compile_elifs rest out next)

  pub compile_compound : Nodes → Emit
  compile_compound nil = some
  compile_compound (cons n ns) = statement (line_of n) (compile n) >=> compile_compound ns

  -- the elements of an array, the arguments of a call
  pub compile_each : Nodes → Emit
  compile_each nil = some
  compile_each (cons n ns) = compile n >=> compile_each ns

  pub compile_entries : Entries → Emit
  compile_entries no_entry = some
  compile_entries (entry k v rest) = compile k >=> compile v >=> compile_entries rest

  pub compile_fields : Fields → Emit
  compile_fields no_field = some
  compile_fields (field name v rest) = compile v >=> compile_fields rest

  pub compile_members : Members → Emit
  compile_members no_member = some
  compile_members (member prefix name p rest) = compile p >=> compile_members rest

-- `compile_ast_ext` of the whole program, in the wrapper that the caller gives
unfoldable pub compile_ast_ext : Nodes → CompilerWrapper → Option Object
unfolding compile_compound build_code
compile_ast_ext root cw = do
  s ← compile_compound root (record { cw = cw; outer = [] })
  build_code none (first_line root) s.cw

unfoldable pub compile_ast : Nodes → Option Object
unfolding compile_ast_ext new_wrapper
compile_ast root = compile_ast_ext root (new_wrapper [] [])

-- every name of a line that is typed in is a closure's
unfoldable pub compile_ast_repl : Nodes → Option Object
unfolding compile_ast_ext new_wrapper
compile_ast_repl root =
    let cw : CompilerWrapper = record (new_wrapper [] []) {
      saved_locals = HashMap.create 10;
      repl = true;
    } in
    compile_ast_ext root cw
