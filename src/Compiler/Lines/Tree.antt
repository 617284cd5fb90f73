-- ===== src/Compiler/Lines/Tree.antt =====
-- src/compiler/ast_compiler.c: the compilation of a tree records lines of its nodes, by induction on the tree.
use lanky.Prelude.{ℕ, true, none, some, if◌then◌else◌}
use lanky.Compiler.Ast
use lanky.Compiler.Ast.{
  Node, MaybeNode, Conds, Ifs, Nodes, Entries, Fields, Members, absent, present, last, chain, only,
  next_if, nil, cons, no_entry, entry, no_field, field, no_member, member, line_of,
}
use lanky.Compiler.Compile.{
  compile, compile_maybe, compile_aside, compile_cond_ex, compile_if, compile_elifs,
  compile_compound, compile_each, compile_entries, compile_fields, compile_members, has_node,
  first_line, field_names, count, count_entries, count_fields, count_members, init_flag,
}
use lanky.Compiler.Function.{cond_instr}
use lanky.Compiler.Lines.Known.{
  IsKnown, IsKnownMaybe, AreKnown, AreKnownConds, AreKnownIfs, AreKnownEntries, AreKnownFields,
  AreKnownMembers, line_of-known, first_line-known,
}
use lanky.Compiler.Lines.Steps.{
  Records, ◌then◌, some-Records, emit-Records, emit_jump-Records, saved-Records, fresh-Records,
  statement-Records, aside-Records,
}
use lanky.Compiler.Lines.FunctionSteps.{
  single_if-Records, compile_one_off-Records, compile_function-Records,
}
use lanky.Compiler.Lines.ShapeSteps.{
  compile_binary-Records, compile_assign-Records, compile_set_member-Records,
  compile_set_index-Records, compile_triple_index-Records, compile_triple_member-Records,
  compile_unary-Records, compile_value-Records, compile_var-Records, compile_regex-Records,
  compile_unit_value-Records, compile_loop-Records, compile_iter_loop-Records,
  compile_try_catch-Records, compile_array-Records, compile_table-Records,
  compile_object_simple-Records, compile_object-Records, compile_indx-Records,
  compile_ternary-Records, compile_load-Records, compile_member_access-Records,
  compile_function_call-Records, compile_class_decl-Records,
}

module _ {P : ℕ → Type 0} where
  mutual
    unfolding compile compile_maybe compile_aside compile_cond_ex compile_if compile_elifs
        compile_compound compile_each compile_entries compile_fields compile_members IsKnown
        IsKnownMaybe AreKnown AreKnownConds AreKnownIfs AreKnownEntries AreKnownFields
        AreKnownMembers

    pub compile-Records : (n : Node) → IsKnown P n → Records P (compile n)
    compile-Records (Ast.binary line opt l r) (known, hl, hr) =
        compile_binary-Records line known opt (compile-Records l hl) (compile-Records r hr)
    compile-Records (Ast.assign line name r) (known, hr) =
        compile_assign-Records line known name (compile-Records r hr)
    compile-Records (Ast.set_member line o ident r) (known, hr, ho) =
        compile_set_member-Records line known ident (compile-Records o ho) (compile-Records r hr)
    compile-Records (Ast.set_index line t i r) (known, hr, ht, hi) =
        compile_set_index-Records line known (compile-Records t ht) (compile-Records i hi)
          (compile-Records r hr)
    compile-Records (Ast.triple_index line opt t i v) (known, ht, hi, hv) =
        compile_triple_index-Records line known opt (compile-Records t ht) (compile-Records i hi)
          (compile-Records v hv)
    compile-Records (Ast.triple_member line opt o ident v) (known, ho, hv) =
        compile_triple_member-Records line known opt ident (compile-Records o ho)
          (compile-Records v hv)
    compile-Records (Ast.unary line opt t) (known, ht) =
        compile_unary-Records line known opt (has_node t) (compile_maybe-Records t ht)
    compile-Records (Ast.value line w) known = compile_value-Records line known w
    compile-Records (Ast.variable line name) known = compile_var-Records line known name
    compile-Records (Ast.regex line p f) known = compile_regex-Records line known p f
    compile-Records (Ast.unit_value line v f) known = compile_unit_value-Records line known v f
    compile-Records (Ast.cond conds) h = fresh-Records (λ out. compile_cond_ex-Records conds h out)
    compile-Records (Ast.if_node ifs) h =
        fresh-Records (λ next. fresh-Records (λ out. compile_if-Records ifs h next out))
        then saved-Records true
    compile-Records (Ast.loop line init c onloop p) (known, hi, hc, ho, hp) =
        compile_loop-Records line known (compile_aside-Records init hi line known)
          (compile-Records c hc) (compile_aside-Records onloop ho line known)
          (compile_compound-Records p hp)
    compile-Records (Ast.iter_loop line name i on p) (known, ho, hp) =
        compile_iter_loop-Records line known name i (compile-Records on ho)
          (compile_compound-Records p hp)
    compile-Records (Ast.try_catch line t name c) (known, ht, hc) =
        compile_try_catch-Records line known name (compile_compound-Records t ht)
          (compile_compound-Records c hc)
    compile-Records (Ast.one_off line opt) known = compile_one_off-Records opt line known
    compile-Records (Ast.array line list) (known, h) =
        compile_array-Records line known (count list) (compile_each-Records list h)
    compile-Records (Ast.table line list) (known, h) =
        compile_table-Records line known (count_entries list) (compile_entries-Records list h)
    compile-Records (Ast.object_decl line fields none obj) (known, hf, ho) =
        compile_object_simple-Records line known (count_fields fields) (field_names fields)
          (has_node obj) (compile_fields-Records fields hf) (compile_maybe-Records obj ho)
    compile-Records (Ast.object_decl line fields (some refname) obj) (known, hf) =
        compile_object-Records line known (count_fields fields) (field_names fields) refname
          (compile_fields-Records fields hf)
    compile-Records (Ast.index line t i) (known, ht, hi) =
        compile_indx-Records line known (compile-Records t ht) (compile-Records i hi)
    compile-Records (Ast.ternary line c a b) (known, hc, ha, hb) =
        compile_ternary-Records line known (compile-Records c hc) (compile-Records a ha)
          (compile-Records b hb)
    compile-Records (Ast.load line name) known = compile_load-Records line known name
    compile-Records (Ast.member_access line o ident) (known, h) =
        compile_member_access-Records line known ident (compile-Records o h)
    compile-Records (Ast.func_decl line params p refname) (known, hp) =
        compile_function-Records line known params refname (first_line p) (first_line-known P p hp)
          (compile_compound-Records p hp)
    compile-Records (Ast.func_call line ident args) (known, ha, hi) =
        compile_function_call-Records line known (count args) (compile-Records ident hi)
          (compile_each-Records args ha)
    compile-Records (Ast.class_decl line members init super) (known, hm, hs, hi) =
        compile_class_decl-Records line known (count_members members) (init_flag super init) members
          (compile_members-Records members hm) (compile_maybe-Records init hi)
          (compile_maybe-Records super hs)

    compile_maybe-Records : (n : MaybeNode) → IsKnownMaybe P n → Records P (compile_maybe n)
    compile_maybe-Records absent h = some-Records
    compile_maybe-Records (present n) h = compile-Records n h

    compile_aside-Records :
        (n : MaybeNode) → IsKnownMaybe P n → (line : ℕ) → P line → Records P (compile_aside n line)
    compile_aside-Records absent h line known = some-Records
    compile_aside-Records (present n) h line known = aside-Records line known (compile-Records n h)

    compile_cond_ex-Records :
        (cs : Conds) → AreKnownConds P cs → (out : ℕ) → Records P (compile_cond_ex cs out)
    compile_cond_ex-Records (last line opt l r) (known, hl, hr) out =
        compile-Records l hl
        then emit_jump-Records (cond_instr opt) out line known
        then compile-Records r hr
        then emit-Records out line known
    compile_cond_ex-Records (chain line opt l rest) (known, hl, hr) out =
        compile-Records l hl
        then emit_jump-Records (cond_instr opt) out line known
        then compile_cond_ex-Records rest hr out

    compile_if-Records :
        (ifs : Ifs) → AreKnownIfs P ifs → (next out : ℕ) → Records P (compile_if ifs next out)
    compile_if-Records (only line c p) (known, hc, hp) next out =
        single_if-Records line known (has_node c) (compile_maybe-Records c hc)
          (compile_compound-Records p hp) next next
        then emit-Records next line known
    compile_if-Records (next_if line c p rest) (known, hc, hp, hr) next out =
        single_if-Records line known (has_node c) (compile_maybe-Records c hc)
          (compile_compound-Records p hp) out next
        then compile_elifs-Records rest hr out next
        then emit-Records out line known

    compile_elifs-Records :
        (ifs : Ifs) → AreKnownIfs P ifs → (out next : ℕ) → Records P (compile_elifs ifs out next)
    compile_elifs-Records (only line c p) (known, hc, hp) out here_tag =
        emit-Records here_tag line known
        then single_if-Records line known (has_node c) (compile_maybe-Records c hc)
            (compile_compound-Records p hp) out out
    compile_elifs-Records (next_if line c p rest) (known, hc, hp, hr) out here_tag =
        emit-Records here_tag line known
        then fresh-Records (λ next.
          single_if-Records line known (has_node c) (compile_maybe-Records c hc)
            (compile_compound-Records p hp) out next
          then compile_elifs-Records rest hr out next)

    pub compile_compound-Records : (ns : Nodes) → AreKnown P ns → Records P (compile_compound ns)
    compile_compound-Records nil h = some-Records
    compile_compound-Records (cons n ns) (hn, hns) =
        statement-Records (line_of n) (line_of-known P n hn) (compile-Records n hn)
        then compile_compound-Records ns hns

    compile_each-Records : (ns : Nodes) → AreKnown P ns → Records P (compile_each ns)
    compile_each-Records nil h = some-Records
    compile_each-Records (cons n ns) (hn, hns) =
        compile-Records n hn then compile_each-Records ns hns

    compile_entries-Records : (es : Entries) → AreKnownEntries P es → Records P (compile_entries es)
    compile_entries-Records no_entry h = some-Records
    compile_entries-Records (entry k v rest) (hk, hv, hr) =
        compile-Records k hk then compile-Records v hv then compile_entries-Records rest hr

    compile_fields-Records : (fs : Fields) → AreKnownFields P fs → Records P (compile_fields fs)
    compile_fields-Records no_field h = some-Records
    compile_fields-Records (field name v rest) (hv, hr) =
        compile-Records v hv then compile_fields-Records rest hr

    compile_members-Records : (ms : Members) → AreKnownMembers P ms → Records P (compile_members ms)
    compile_members-Records no_member h = some-Records
    compile_members-Records (member prefix name p rest) (hp, hr) =
        compile-Records p hp then compile_members-Records rest hr
