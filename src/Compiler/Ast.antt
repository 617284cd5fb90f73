-- ===== src/Compiler/Ast.antt =====
-- The syntax tree of src/compiler/ast.h that src/compiler/ast_compiler.c walks. `line` is `lineno`, a
-- list that is linked by `next` is a data type of the block, and a pointer that can be NULL is `absent`
-- or `present`. An operator is its character. A node whose type does not say what is compiled has a
-- constructor for each case that the compiler tells apart: a binary node with '=' by its left side, and
-- a compound assignment by its target. A conditional whose right side is one again is a `chain`.
use lanky.Prelude.{ℕ, Option, List}

-- `ast_value_wrapper` of a constant
pub data ValueWrapper : Type 0 where
  vdouble : List ℕ → ValueWrapper
  vint : ℕ → ValueWrapper
  vstring : List ℕ → ValueWrapper

mutual
  pub data Node : Type 0 where
    binary : (line opt : ℕ) (left right : Node) → Node
    assign : (line : ℕ) (name : List ℕ) (right : Node) → Node
    set_member : (line : ℕ) (object : Node) (ident : List ℕ) (right : Node) → Node
    set_index : (line : ℕ) (target indexer right : Node) → Node
    triple_index : (line op : ℕ) (target indexer new_val : Node) → Node
    triple_member : (line op : ℕ) (object : Node) (ident : List ℕ) (new_val : Node) → Node
    unary : (line opt : ℕ) (target : MaybeNode) → Node
    value : (line : ℕ) (wrap : ValueWrapper) → Node
    variable : (line : ℕ) (name : List ℕ) → Node
    regex : (line : ℕ) (pattern_text flags : List ℕ) → Node
    unit_value : (line : ℕ) (val fmt : List ℕ) → Node
    cond : Conds → Node
    if_node : Ifs → Node
    loop :
        (line : ℕ) (init : MaybeNode) (condition : Node) (onloop : MaybeNode) (payload : Nodes)
        → Node
    iter_loop :
        (line : ℕ) (init : List ℕ) (condition : Option (List ℕ)) (onloop : Node) (payload : Nodes)
        → Node
    try_catch : (line : ℕ) (tryblock : Nodes) (exception_name : List ℕ) (catchblock : Nodes) → Node
    one_off : (line opt : ℕ) → Node
    array : (line : ℕ) (list : Nodes) → Node
    table : (line : ℕ) (list : Entries) → Node
    object_decl : (line : ℕ) (payload : Fields) (refname : Option (List ℕ)) (obj : MaybeNode) → Node
    index : (line : ℕ) (target indexer : Node) → Node
    ternary : (line : ℕ) (condition first second : Node) → Node
    load : (line : ℕ) (name : List ℕ) → Node
    member_access : (line : ℕ) (object : Node) (ident : List ℕ) → Node
    func_decl :
        (line : ℕ) (params : List (List ℕ)) (payload : Nodes) (refname : Option (List ℕ)) → Node
    func_call : (line : ℕ) (ident : Node) (arguments : Nodes) → Node
    class_decl : (line : ℕ) (members : Members) (init super : MaybeNode) → Node

  pub data MaybeNode : Type 0 where
    absent : MaybeNode
    present : Node → MaybeNode

  -- the node, and the ones that its right side leads to
  pub data Conds : Type 0 where
    last : (line opt : ℕ) (left right : Node) → Conds
    chain : (line opt : ℕ) (left : Node) (right : Conds) → Conds

  -- the `if` and what `next_if` leads to
  pub data Ifs : Type 0 where
    only : (line : ℕ) (condition : MaybeNode) (payload : Nodes) → Ifs
    next_if : (line : ℕ) (condition : MaybeNode) (payload : Nodes) (rest : Ifs) → Ifs

  pub data Nodes : Type 0 where
    nil : Nodes
    cons : Node → Nodes → Nodes

  pub data Entries : Type 0 where
    no_entry : Entries
    entry : (key val : Node) (rest : Entries) → Entries

  pub data Fields : Type 0 where
    no_field : Fields
    field : (name : List ℕ) (val : Node) (rest : Fields) → Fields

  pub data Members : Type 0 where
    no_member : Members
    member : (prefix : ℕ) (name : List ℕ) (payload : Node) (rest : Members) → Members

-- `lineno` of the node itself
abbrev pub line_of_ifs : Ifs → ℕ
line_of_ifs (only line c p) = line
line_of_ifs (next_if line c p r) = line

abbrev pub line_of_conds : Conds → ℕ
line_of_conds (last line opt l r) = line
line_of_conds (chain line opt l r) = line

abbrev pub line_of : Node → ℕ
line_of (binary line opt l r) = line
line_of (assign line name r) = line
line_of (set_member line o i r) = line
line_of (set_index line t i r) = line
line_of (triple_index line op t i v) = line
line_of (triple_member line op o i v) = line
line_of (unary line opt t) = line
line_of (value line w) = line
line_of (variable line name) = line
line_of (regex line p f) = line
line_of (unit_value line v f) = line
line_of (cond conds) = line_of_conds conds
line_of (if_node ifs) = line_of_ifs ifs
line_of (loop line i c o p) = line
line_of (iter_loop line i c o p) = line
line_of (try_catch line t n c) = line
line_of (one_off line opt) = line
line_of (array line l) = line
line_of (table line l) = line
line_of (object_decl line p r o) = line
line_of (index line t i) = line
line_of (ternary line c f s) = line
line_of (load line name) = line
line_of (member_access line o i) = line
line_of (func_decl line ps p r) = line
line_of (func_call line i a) = line
line_of (class_decl line m i s) = line
