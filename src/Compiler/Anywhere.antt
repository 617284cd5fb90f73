-- ===== src/Compiler/Anywhere.antt =====
-- src/compiler/ast_compiler.c: every program is placed where a failure is allowed.
use lanky.Prelude.{refl, inr, Bool, true, false, none, some}
use lanky.Compiler.Ast
use lanky.Compiler.Ast.{
  Node, MaybeNode, Conds, Ifs, Nodes, Entries, Fields, Members, absent, present, last, chain, only,
  next_if, nil, cons, no_entry, entry, no_field, field, no_member, member,
}
use lanky.Compiler.Placed.{
  IsPlaced, IsPlacedMaybe, ArePlaced, ArePlacedEntries, ArePlacedFields, ArePlacedMembers,
  ArePlacedIfs, ArePlacedConds,
}

mutual
  unfolding IsPlaced IsPlacedMaybe ArePlaced ArePlacedEntries ArePlacedFields ArePlacedMembers
      ArePlacedIfs ArePlacedConds

  pub all-IsPlaced : (in_loop : Bool) (n : Node) → IsPlaced true in_loop n
  all-IsPlaced in_loop (Ast.binary line opt l r) = (all-IsPlaced in_loop l, all-IsPlaced in_loop r)
  all-IsPlaced in_loop (Ast.assign line name r) = all-IsPlaced in_loop r
  all-IsPlaced in_loop (Ast.set_member line o ident r) =
      (all-IsPlaced in_loop r, all-IsPlaced in_loop o)
  all-IsPlaced in_loop (Ast.set_index line t i r) =
      (all-IsPlaced in_loop r, all-IsPlaced in_loop t, all-IsPlaced in_loop i)
  all-IsPlaced in_loop (Ast.triple_index line opt t i v) =
      (all-IsPlaced in_loop t, all-IsPlaced in_loop i, all-IsPlaced in_loop v)
  all-IsPlaced in_loop (Ast.triple_member line opt o ident v) =
      (all-IsPlaced in_loop o, all-IsPlaced in_loop v)
  all-IsPlaced in_loop (Ast.unary line opt t) = all-IsPlacedMaybe in_loop t
  all-IsPlaced in_loop (Ast.value line w) = tt
  all-IsPlaced in_loop (Ast.variable line name) = tt
  all-IsPlaced in_loop (Ast.regex line p f) = tt
  all-IsPlaced in_loop (Ast.unit_value line v f) = tt
  all-IsPlaced in_loop (Ast.cond conds) = all-ArePlacedConds in_loop conds
  all-IsPlaced in_loop (Ast.if_node ifs) = all-ArePlacedIfs in_loop ifs
  all-IsPlaced in_loop (Ast.loop line init c onloop p) = (
    all-IsPlacedMaybe in_loop init,
    all-IsPlaced in_loop c,
    all-IsPlacedMaybe in_loop onloop,
    all-ArePlaced true p,
  )
  all-IsPlaced in_loop (Ast.iter_loop line name i on p) =
      (all-IsPlaced in_loop on, all-ArePlaced true p)
  all-IsPlaced in_loop (Ast.try_catch line t name c) =
      (all-ArePlaced in_loop t, all-ArePlaced in_loop c)
  all-IsPlaced in_loop (Ast.one_off line opt) = inr refl
  all-IsPlaced in_loop (Ast.array line list) = all-ArePlaced in_loop list
  all-IsPlaced in_loop (Ast.table line list) = all-ArePlacedEntries in_loop list
  all-IsPlaced in_loop (Ast.object_decl line fields none obj) =
      (all-ArePlacedFields in_loop fields, all-IsPlacedMaybe in_loop obj)
  all-IsPlaced in_loop (Ast.object_decl line fields (some refname) obj) =
      (refl, all-ArePlacedFields in_loop fields)
  all-IsPlaced in_loop (Ast.index line t i) = (all-IsPlaced in_loop t, all-IsPlaced in_loop i)
  all-IsPlaced in_loop (Ast.ternary line c a b) =
      (all-IsPlaced in_loop c, all-IsPlaced in_loop a, all-IsPlaced in_loop b)
  all-IsPlaced in_loop (Ast.load line name) = tt
  all-IsPlaced in_loop (Ast.member_access line o ident) = all-IsPlaced in_loop o
  all-IsPlaced in_loop (Ast.func_decl line params p refname) = (refl, all-ArePlaced false p)
  all-IsPlaced in_loop (Ast.func_call line ident args) =
      (all-ArePlaced in_loop args, all-IsPlaced in_loop ident)
  all-IsPlaced in_loop (Ast.class_decl line members init super) = (
    all-ArePlacedMembers in_loop members,
    all-IsPlacedMaybe in_loop super,
    all-IsPlacedMaybe in_loop init,
  )

  pub all-IsPlacedMaybe : (in_loop : Bool) (n : MaybeNode) → IsPlacedMaybe true in_loop n
  all-IsPlacedMaybe in_loop absent = tt
  all-IsPlacedMaybe in_loop (present n) = all-IsPlaced in_loop n

  pub all-ArePlaced : (in_loop : Bool) (n : Nodes) → ArePlaced true in_loop n
  all-ArePlaced in_loop nil = tt
  all-ArePlaced in_loop (cons n ns) = (all-IsPlaced in_loop n, all-ArePlaced in_loop ns)

  pub all-ArePlacedConds : (in_loop : Bool) (n : Conds) → ArePlacedConds true in_loop n
  all-ArePlacedConds in_loop (last line opt l r) = (all-IsPlaced in_loop l, all-IsPlaced in_loop r)
  all-ArePlacedConds in_loop (chain line opt l rest) =
      (all-IsPlaced in_loop l, all-ArePlacedConds in_loop rest)

  pub all-ArePlacedIfs : (in_loop : Bool) (n : Ifs) → ArePlacedIfs true in_loop n
  all-ArePlacedIfs in_loop (only line c p) = (all-IsPlacedMaybe in_loop c, all-ArePlaced in_loop p)
  all-ArePlacedIfs in_loop (next_if line c p rest) =
      (all-IsPlacedMaybe in_loop c, all-ArePlaced in_loop p, all-ArePlacedIfs in_loop rest)

  pub all-ArePlacedEntries : (in_loop : Bool) (n : Entries) → ArePlacedEntries true in_loop n
  all-ArePlacedEntries in_loop no_entry = tt
  all-ArePlacedEntries in_loop (entry k v rest) =
      (all-IsPlaced in_loop k, all-IsPlaced in_loop v, all-ArePlacedEntries in_loop rest)

  pub all-ArePlacedFields : (in_loop : Bool) (n : Fields) → ArePlacedFields true in_loop n
  all-ArePlacedFields in_loop no_field = tt
  all-ArePlacedFields in_loop (field name v rest) =
      (all-IsPlaced in_loop v, all-ArePlacedFields in_loop rest)

  pub all-ArePlacedMembers : (in_loop : Bool) (n : Members) → ArePlacedMembers true in_loop n
  all-ArePlacedMembers in_loop no_member = tt
  all-ArePlacedMembers in_loop (member prefix name p rest) =
      (all-IsPlaced in_loop p, all-ArePlacedMembers in_loop rest)
