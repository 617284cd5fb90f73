-- ===== src/Compiler/Returns.antt =====
-- src/compiler/ast_compiler.c: what the compilation of a tree leaves, by induction on the tree.
use lanky.Prelude.{ℕ, Bool, true, none, some, if◌then◌else◌}
use lanky.Compiler.Ast
use lanky.Compiler.Ast.{
  Node, MaybeNode, Conds, Ifs, Nodes, Entries, Fields, Members, absent, present, last, chain, only,
  next_if, nil, cons, no_entry, entry, no_field, field, no_member, member, line_of,
}
use lanky.Compiler.Compile.{
  compile, compile_maybe, compile_aside, compile_cond_ex, compile_if, compile_elifs,
  compile_compound, compile_each, compile_entries, compile_fields, compile_members, has_node,
  first_line, field_names, count, count_entries, count_fields, count_members, init_flag,
}
use lanky.Compiler.Function.{cond_instr}
use lanky.Compiler.Placed.{
  IsPlaced, IsPlacedMaybe, ArePlaced, ArePlacedConds, ArePlacedIfs, ArePlacedEntries,
  ArePlacedFields, ArePlacedMembers,
}
use lanky.Compiler.Steps.{
  Runs, ◌then◌, some-Runs, emit-Runs, emit_jump-Runs, saved-Runs, fresh-Runs, statement-Runs,
  aside-Runs,
}
use lanky.Compiler.FunctionSteps.{single_if-Runs, compile_one_off-Runs, compile_function-Runs}
use lanky.Compiler.ShapeSteps.{
  compile_binary-Runs, compile_assign-Runs, compile_set_member-Runs, compile_set_index-Runs,
  compile_triple_index-Runs, compile_triple_member-Runs, compile_unary-Runs, compile_value-Runs,
  compile_var-Runs, compile_regex-Runs, compile_unit_value-Runs, compile_loop-Runs,
  compile_iter_loop-Runs, compile_try_catch-Runs, compile_array-Runs, compile_table-Runs,
  compile_object_simple-Runs, compile_object-Runs, compile_indx-Runs, compile_ternary-Runs,
  compile_load-Runs, compile_member_access-Runs, compile_function_call-Runs,
  compile_class_decl-Runs,
}

module _ {may_fail : Bool} where
  mutual
    unfolding compile compile_maybe compile_aside compile_cond_ex compile_if compile_elifs
        compile_compound compile_each compile_entries compile_fields compile_members IsPlaced
        IsPlacedMaybe ArePlaced ArePlacedConds ArePlacedIfs ArePlacedEntries ArePlacedFields
        ArePlacedMembers

    pub compile-Runs : {d : Bool} (n : Node) → IsPlaced may_fail d n → Runs may_fail d (compile n)
    compile-Runs (Ast.binary line opt l r) (hl, hr) =
        compile_binary-Runs line opt (compile-Runs l hl) (compile-Runs r hr)
    compile-Runs (Ast.assign line name r) hr = compile_assign-Runs line name (compile-Runs r hr)
    compile-Runs (Ast.set_member line o ident r) (hr, ho) =
        compile_set_member-Runs line ident (compile-Runs o ho) (compile-Runs r hr)
    compile-Runs (Ast.set_index line t i r) (hr, ht, hi) =
        compile_set_index-Runs line (compile-Runs t ht) (compile-Runs i hi) (compile-Runs r hr)
    compile-Runs (Ast.triple_index line opt t i v) (ht, hi, hv) =
        compile_triple_index-Runs line opt (compile-Runs t ht) (compile-Runs i hi)
          (compile-Runs v hv)
    compile-Runs (Ast.triple_member line opt o ident v) (ho, hv) =
        compile_triple_member-Runs line opt ident (compile-Runs o ho) (compile-Runs v hv)
    compile-Runs (Ast.unary line opt t) ht =
        compile_unary-Runs line opt (has_node t) (compile_maybe-Runs t ht)
    compile-Runs (Ast.value line w) h = compile_value-Runs line w
    compile-Runs (Ast.variable line name) h = compile_var-Runs line name
    compile-Runs (Ast.regex line p f) h = compile_regex-Runs line p f
    compile-Runs (Ast.unit_value line v f) h = compile_unit_value-Runs line v f
    compile-Runs (Ast.cond conds) h = fresh-Runs (λ out. compile_cond_ex-Runs conds h out)
    compile-Runs (Ast.if_node ifs) h =
        fresh-Runs (λ next. fresh-Runs (λ out. compile_if-Runs ifs h next out)) then saved-Runs true
    compile-Runs (Ast.loop line init c onloop p) (hi, hc, ho, hp) =
        compile_loop-Runs line (compile_aside-Runs init hi line) (compile-Runs c hc)
          (compile_aside-Runs onloop ho line) (compile_compound-Runs p hp)
    compile-Runs (Ast.iter_loop line name i on p) (ho, hp) =
        compile_iter_loop-Runs line name i (compile-Runs on ho) (compile_compound-Runs p hp)
    compile-Runs (Ast.try_catch line t name c) (ht, hc) =
        compile_try_catch-Runs line name (compile_compound-Runs t ht) (compile_compound-Runs c hc)
    compile-Runs (Ast.one_off line opt) h = compile_one_off-Runs opt line h
    compile-Runs (Ast.array line list) h =
        compile_array-Runs line (count list) (compile_each-Runs list h)
    compile-Runs (Ast.table line list) h =
        compile_table-Runs line (count_entries list) (compile_entries-Runs list h)
    compile-Runs (Ast.object_decl line fields none obj) (hf, ho) =
        compile_object_simple-Runs line (count_fields fields) (field_names fields) (has_node obj)
          (compile_fields-Runs fields hf) (compile_maybe-Runs obj ho)
    compile-Runs (Ast.object_decl line fields (some refname) obj) (may, hf) =
        compile_object-Runs line (count_fields fields) (field_names fields) refname may
          (compile_fields-Runs fields hf)
    compile-Runs (Ast.index line t i) (ht, hi) =
        compile_indx-Runs line (compile-Runs t ht) (compile-Runs i hi)
    compile-Runs (Ast.ternary line c a b) (hc, ha, hb) =
        compile_ternary-Runs line (compile-Runs c hc) (compile-Runs a ha) (compile-Runs b hb)
    compile-Runs (Ast.load line name) h = compile_load-Runs line name
    compile-Runs (Ast.member_access line o ident) h =
        compile_member_access-Runs line ident (compile-Runs o h)
    compile-Runs (Ast.func_decl line params p refname) (may, hp) =
        compile_function-Runs line params refname (first_line p) may (compile_compound-Runs p hp)
    compile-Runs (Ast.func_call line ident args) (ha, hi) =
        compile_function_call-Runs line (count args) (compile-Runs ident hi)
          (compile_each-Runs args ha)
    compile-Runs (Ast.class_decl line members init super) (hm, hs, hi) =
        compile_class_decl-Runs line (count_members members) (init_flag super init) members
          (compile_members-Runs members hm) (compile_maybe-Runs init hi)
          (compile_maybe-Runs super hs)

    compile_maybe-Runs :
        {d : Bool} (n : MaybeNode) → IsPlacedMaybe may_fail d n → Runs may_fail d (compile_maybe n)
    compile_maybe-Runs absent h = some-Runs
    compile_maybe-Runs (present n) h = compile-Runs n h

    compile_aside-Runs :
        {d : Bool} (n : MaybeNode)
        → IsPlacedMaybe may_fail d n
        → (line : ℕ) → Runs may_fail d (compile_aside n line)
    compile_aside-Runs absent h line = some-Runs
    compile_aside-Runs (present n) h line = aside-Runs line (compile-Runs n h)

    compile_cond_ex-Runs :
        {d : Bool} (cs : Conds)
        → ArePlacedConds may_fail d cs
        → (out : ℕ) → Runs may_fail d (compile_cond_ex cs out)
    compile_cond_ex-Runs (last line opt l r) (hl, hr) out =
        compile-Runs l hl
        then emit_jump-Runs (cond_instr opt) out line
        then compile-Runs r hr
        then emit-Runs out line
    compile_cond_ex-Runs (chain line opt l rest) (hl, hr) out =
        compile-Runs l hl
        then emit_jump-Runs (cond_instr opt) out line
        then compile_cond_ex-Runs rest hr out

    compile_if-Runs :
        {d : Bool} (ifs : Ifs)
        → ArePlacedIfs may_fail d ifs
        → (next out : ℕ) → Runs may_fail d (compile_if ifs next out)
    compile_if-Runs (only line c p) (hc, hp) next out =
        single_if-Runs line (has_node c) (compile_maybe-Runs c hc) (compile_compound-Runs p hp) next
          next
        then emit-Runs next line
    compile_if-Runs (next_if line c p rest) (hc, hp, hr) next out =
        single_if-Runs line (has_node c) (compile_maybe-Runs c hc) (compile_compound-Runs p hp) out
          next
        then compile_elifs-Runs rest hr out next
        then emit-Runs out line

    compile_elifs-Runs :
        {d : Bool} (ifs : Ifs)
        → ArePlacedIfs may_fail d ifs
        → (out next : ℕ) → Runs may_fail d (compile_elifs ifs out next)
    compile_elifs-Runs (only line c p) (hc, hp) out here_tag =
        emit-Runs here_tag line
        then single_if-Runs line (has_node c) (compile_maybe-Runs c hc) (compile_compound-Runs p hp)
            out out
    compile_elifs-Runs (next_if line c p rest) (hc, hp, hr) out here_tag =
        emit-Runs here_tag line
        then fresh-Runs (λ next.
          single_if-Runs line (has_node c) (compile_maybe-Runs c hc) (compile_compound-Runs p hp)
            out next
          then compile_elifs-Runs rest hr out next)

    pub compile_compound-Runs :
        {d : Bool} (ns : Nodes) → ArePlaced may_fail d ns → Runs may_fail d (compile_compound ns)
    compile_compound-Runs nil h = some-Runs
    compile_compound-Runs (cons n ns) (hn, hns) =
        statement-Runs (line_of n) (compile-Runs n hn) then compile_compound-Runs ns hns

    compile_each-Runs :
        {d : Bool} (ns : Nodes) → ArePlaced may_fail d ns → Runs may_fail d (compile_each ns)
    compile_each-Runs nil h = some-Runs
    compile_each-Runs (cons n ns) (hn, hns) = compile-Runs n hn then compile_each-Runs ns hns

    compile_entries-Runs :
        {d : Bool} (es : Entries)
        → ArePlacedEntries may_fail d es
        → Runs may_fail d (compile_entries es)
    compile_entries-Runs no_entry h = some-Runs
    compile_entries-Runs (entry k v rest) (hk, hv, hr) =
        compile-Runs k hk then compile-Runs v hv then compile_entries-Runs rest hr

    compile_fields-Runs :
        {d : Bool} (fs : Fields)
        → ArePlacedFields may_fail d fs
        → Runs may_fail d (compile_fields fs)
    compile_fields-Runs no_field h = some-Runs
    compile_fields-Runs (field name v rest) (hv, hr) =
        compile-Runs v hv then compile_fields-Runs rest hr

    compile_members-Runs :
        {d : Bool} (ms : Members)
        → ArePlacedMembers may_fail d ms
        → Runs may_fail d (compile_members ms)
    compile_members-Runs no_member h = some-Runs
    compile_members-Runs (member prefix name p rest) (hp, hr) =
        compile-Runs p hp then compile_members-Runs rest hr
