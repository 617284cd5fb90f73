-- ===== src/Compiler/Placed.antt =====
-- src/compiler/ast_compiler.c: the programs that the compiler does not read through NULL for. A break or
-- a continue stands in a loop of the same function. Where `may_fail` is false there is no function and no
-- object that has a name, since the compilation of these can read outside what is there.
use lanky.Prelude.{◌≡◌, ◌⊎◌, Bool, true, false, none, some}
use lanky.Compiler.Ast
use lanky.Compiler.Ast.{
  Node, MaybeNode, Conds, Ifs, Nodes, Entries, Fields, Members, absent, present, last, chain, only,
  next_if, nil, cons, no_entry, entry, no_field, field, no_member, member,
}

module _ (may_fail : Bool) where
  unfoldable mutual
    pub IsPlaced : Bool → Node → Type 0
    IsPlaced in_loop (Ast.binary line opt l r) = IsPlaced in_loop l × IsPlaced in_loop r
    IsPlaced in_loop (Ast.assign line name r) = IsPlaced in_loop r
    IsPlaced in_loop (Ast.set_member line o ident r) = IsPlaced in_loop r × IsPlaced in_loop o
    IsPlaced in_loop (Ast.set_index line t i r) =
        IsPlaced in_loop r × IsPlaced in_loop t × IsPlaced in_loop i
    IsPlaced in_loop (Ast.triple_index line opt t i v) =
        IsPlaced in_loop t × IsPlaced in_loop i × IsPlaced in_loop v
    IsPlaced in_loop (Ast.triple_member line opt o ident v) =
        IsPlaced in_loop o × IsPlaced in_loop v
    IsPlaced in_loop (Ast.unary line opt t) = IsPlacedMaybe in_loop t
    IsPlaced in_loop (Ast.value line w) = Unit {0}
    IsPlaced in_loop (Ast.variable line name) = Unit {0}
    IsPlaced in_loop (Ast.regex line p f) = Unit {0}
    IsPlaced in_loop (Ast.unit_value line v f) = Unit {0}
    IsPlaced in_loop (Ast.cond conds) = ArePlacedConds in_loop conds
    IsPlaced in_loop (Ast.if_node ifs) = ArePlacedIfs in_loop ifs
    IsPlaced in_loop (Ast.loop line init c onloop p) =
        IsPlacedMaybe in_loop init
        × IsPlaced in_loop c
        × IsPlacedMaybe in_loop onloop
        × ArePlaced true p
    IsPlaced in_loop (Ast.iter_loop line name i on p) = IsPlaced in_loop on × ArePlaced true p
    IsPlaced in_loop (Ast.try_catch line t name c) = ArePlaced in_loop t × ArePlaced in_loop c
    IsPlaced in_loop (Ast.one_off line opt) = (in_loop ≡ true) ⊎ (may_fail ≡ true)
    IsPlaced in_loop (Ast.array line list) = ArePlaced in_loop list
    IsPlaced in_loop (Ast.table line list) = ArePlacedEntries in_loop list
    IsPlaced in_loop (Ast.object_decl line fields none obj) =
        ArePlacedFields in_loop fields × IsPlacedMaybe in_loop obj
    IsPlaced in_loop (Ast.object_decl line fields (some refname) obj) =
        (may_fail ≡ true) × ArePlacedFields in_loop fields
    IsPlaced in_loop (Ast.index line t i) = IsPlaced in_loop t × IsPlaced in_loop i
    IsPlaced in_loop (Ast.ternary line c a b) =
        IsPlaced in_loop c × IsPlaced in_loop a × IsPlaced in_loop b
    IsPlaced in_loop (Ast.load line name) = Unit {0}
    IsPlaced in_loop (Ast.member_access line o ident) = IsPlaced in_loop o
    IsPlaced in_loop (Ast.func_decl line params p refname) = (may_fail ≡ true) × ArePlaced false p
    IsPlaced in_loop (Ast.func_call line ident args) =
        ArePlaced in_loop args × IsPlaced in_loop ident
    IsPlaced in_loop (Ast.class_decl line members init super) =
        ArePlacedMembers in_loop members × IsPlacedMaybe in_loop super × IsPlacedMaybe in_loop init

    pub IsPlacedMaybe : Bool → MaybeNode → Type 0
    IsPlacedMaybe in_loop absent = Unit {0}
    IsPlacedMaybe in_loop (present n) = IsPlaced in_loop n

    pub ArePlaced : Bool → Nodes → Type 0
    ArePlaced in_loop nil = Unit {0}
    ArePlaced in_loop (cons n ns) = IsPlaced in_loop n × ArePlaced in_loop ns

    pub ArePlacedConds : Bool → Conds → Type 0
    ArePlacedConds in_loop (last line opt l r) = IsPlaced in_loop l × IsPlaced in_loop r
    ArePlacedConds in_loop (chain line opt l rest) =
        IsPlaced in_loop l × ArePlacedConds in_loop rest

    pub ArePlacedIfs : Bool → Ifs → Type 0
    ArePlacedIfs in_loop (only line c p) = IsPlacedMaybe in_loop c × ArePlaced in_loop p
    ArePlacedIfs in_loop (next_if line c p rest) =
        IsPlacedMaybe in_loop c × ArePlaced in_loop p × ArePlacedIfs in_loop rest

    pub ArePlacedEntries : Bool → Entries → Type 0
    ArePlacedEntries in_loop no_entry = Unit {0}
    ArePlacedEntries in_loop (entry k v rest) =
        IsPlaced in_loop k × IsPlaced in_loop v × ArePlacedEntries in_loop rest

    pub ArePlacedFields : Bool → Fields → Type 0
    ArePlacedFields in_loop no_field = Unit {0}
    ArePlacedFields in_loop (field name v rest) = IsPlaced in_loop v × ArePlacedFields in_loop rest

    pub ArePlacedMembers : Bool → Members → Type 0
    ArePlacedMembers in_loop no_member = Unit {0}
    ArePlacedMembers in_loop (member prefix name p rest) =
        IsPlaced in_loop p × ArePlacedMembers in_loop rest
