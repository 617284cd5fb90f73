-- ===== src/Compiler/Lines/Known.antt =====
-- src/compiler/ast.h: the trees whose nodes, as far as they are compiled, have lines of a set.
use lanky.Prelude.{ℕ, none, some, OnSome, on_none, on_some}
use lanky.Compiler.Ast
use lanky.Compiler.Ast.{
  Node, MaybeNode, Conds, Ifs, Nodes, Entries, Fields, Members, absent, present, last, chain, only,
  next_if, nil, cons, no_entry, entry, no_field, field, no_member, member, line_of, line_of_ifs,
  line_of_conds,
}
use lanky.Compiler.Compile.{first_line}

module _ (P : ℕ → Type 0) where
  unfoldable mutual
    pub IsKnown : Node → Type 0
    IsKnown (Ast.binary line opt l r) = P line × IsKnown l × IsKnown r
    IsKnown (Ast.assign line name r) = P line × IsKnown r
    IsKnown (Ast.set_member line o ident r) = P line × IsKnown r × IsKnown o
    IsKnown (Ast.set_index line t i r) = P line × IsKnown r × IsKnown t × IsKnown i
    IsKnown (Ast.triple_index line opt t i v) = P line × IsKnown t × IsKnown i × IsKnown v
    IsKnown (Ast.triple_member line opt o ident v) = P line × IsKnown o × IsKnown v
    IsKnown (Ast.unary line opt t) = P line × IsKnownMaybe t
    IsKnown (Ast.value line w) = P line
    IsKnown (Ast.variable line name) = P line
    IsKnown (Ast.regex line p f) = P line
    IsKnown (Ast.unit_value line v f) = P line
    IsKnown (Ast.cond conds) = AreKnownConds conds
    IsKnown (Ast.if_node ifs) = AreKnownIfs ifs
    IsKnown (Ast.loop line init c onloop p) =
        P line × IsKnownMaybe init × IsKnown c × IsKnownMaybe onloop × AreKnown p
    IsKnown (Ast.iter_loop line name i on p) = P line × IsKnown on × AreKnown p
    IsKnown (Ast.try_catch line t name c) = P line × AreKnown t × AreKnown c
    IsKnown (Ast.one_off line opt) = P line
    IsKnown (Ast.array line list) = P line × AreKnown list
    IsKnown (Ast.table line list) = P line × AreKnownEntries list
    IsKnown (Ast.object_decl line fields none obj) =
        P line × AreKnownFields fields × IsKnownMaybe obj
    IsKnown (Ast.object_decl line fields (some refname) obj) = P line × AreKnownFields fields
    IsKnown (Ast.index line t i) = P line × IsKnown t × IsKnown i
    IsKnown (Ast.ternary line c a b) = P line × IsKnown c × IsKnown a × IsKnown b
    IsKnown (Ast.load line name) = P line
    IsKnown (Ast.member_access line o ident) = P line × IsKnown o
    IsKnown (Ast.func_decl line params p refname) = P line × AreKnown p
    IsKnown (Ast.func_call line ident args) = P line × AreKnown args × IsKnown ident
    IsKnown (Ast.class_decl line members init super) =
        P line × AreKnownMembers members × IsKnownMaybe super × IsKnownMaybe init

    pub IsKnownMaybe : MaybeNode → Type 0
    IsKnownMaybe absent = Unit {0}
    IsKnownMaybe (present n) = IsKnown n

    pub AreKnown : Nodes → Type 0
    AreKnown nil = Unit {0}
    AreKnown (cons n ns) = IsKnown n × AreKnown ns

    pub AreKnownConds : Conds → Type 0
    AreKnownConds (last line opt l r) = P line × IsKnown l × IsKnown r
    AreKnownConds (chain line opt l rest) = P line × IsKnown l × AreKnownConds rest

    pub AreKnownIfs : Ifs → Type 0
    AreKnownIfs (only line c p) = P line × IsKnownMaybe c × AreKnown p
    AreKnownIfs (next_if line c p rest) = P line × IsKnownMaybe c × AreKnown p × AreKnownIfs rest

    pub AreKnownEntries : Entries → Type 0
    AreKnownEntries no_entry = Unit {0}
    AreKnownEntries (entry k v rest) = IsKnown k × IsKnown v × AreKnownEntries rest

    pub AreKnownFields : Fields → Type 0
    AreKnownFields no_field = Unit {0}
    AreKnownFields (field name v rest) = IsKnown v × AreKnownFields rest

    pub AreKnownMembers : Members → Type 0
    AreKnownMembers no_member = Unit {0}
    AreKnownMembers (member prefix name p rest) = IsKnown p × AreKnownMembers rest

module _ (P : ℕ → Type 0) where
  line_of_conds-known : (cs : Conds) → AreKnownConds P cs → P (line_of_conds cs)
  unfolding AreKnownConds
  line_of_conds-known (last line opt l r) h = h.0
  line_of_conds-known (chain line opt l r) h = h.0

  line_of_ifs-known : (ifs : Ifs) → AreKnownIfs P ifs → P (line_of_ifs ifs)
  unfolding AreKnownIfs
  line_of_ifs-known (only line c p) h = h.0
  line_of_ifs-known (next_if line c p r) h = h.0

  pub line_of-known : (n : Node) → IsKnown P n → P (line_of n)
  unfolding IsKnown
  line_of-known (Ast.binary line opt l r) h = h.0
  line_of-known (Ast.assign line name r) h = h.0
  line_of-known (Ast.set_member line o ident r) h = h.0
  line_of-known (Ast.set_index line t i r) h = h.0
  line_of-known (Ast.triple_index line opt t i v) h = h.0
  line_of-known (Ast.triple_member line opt o ident v) h = h.0
  line_of-known (Ast.unary line opt t) h = h.0
  line_of-known (Ast.value line w) h = h
  line_of-known (Ast.variable line name) h = h
  line_of-known (Ast.regex line p f) h = h
  line_of-known (Ast.unit_value line v f) h = h
  line_of-known (Ast.loop line init c onloop p) h = h.0
  line_of-known (Ast.iter_loop line name i on p) h = h.0
  line_of-known (Ast.try_catch line t name c) h = h.0
  line_of-known (Ast.one_off line opt) h = h
  line_of-known (Ast.array line list) h = h.0
  line_of-known (Ast.table line list) h = h.0
  line_of-known (Ast.object_decl line fields none obj) h = h.0
  line_of-known (Ast.object_decl line fields (some refname) obj) h = h.0
  line_of-known (Ast.index line t i) h = h.0
  line_of-known (Ast.ternary line c a b) h = h.0
  line_of-known (Ast.load line name) h = h
  line_of-known (Ast.member_access line o ident) h = h.0
  line_of-known (Ast.func_decl line params p refname) h = h.0
  line_of-known (Ast.func_call line ident args) h = h.0
  line_of-known (Ast.class_decl line members init super) h = h.0
  line_of-known (Ast.cond conds) h = line_of_conds-known conds h
  line_of-known (Ast.if_node ifs) h = line_of_ifs-known ifs h

  pub first_line-known : (ns : Nodes) → AreKnown P ns → OnSome P (first_line ns)
  unfolding AreKnown
  first_line-known nil h = on_none
  first_line-known (cons n ns) (h, hs) = on_some (line_of-known n h)
