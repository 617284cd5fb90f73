-- ===== src/Compiler/Tests.antt =====
-- The compiler on small programs.
use lanky.Prelude.{ℕ, ◌≤◌, Option, none, some, List, [], ◌∷◌, ◌≡◌, refl, true, false, inl, arith}
use lanky.Compiler.Ast
use lanky.Compiler.Ast.{Node, Nodes, nil, cons, vint, present, absent, only, last}
use lanky.Compiler.Objects
use lanky.Compiler.Objects.{Object}
use lanky.HashTable.{djb2, bytes_equal}
use lanky.Compiler.{State, op, int_to_byte_array}
use lanky.Compiler.Objects.{quick_compare}
use lanky.Compiler.Compile.{compile_ast, compile_compound}
use lanky.Compiler.Function.{new_wrapper}
use lanky.Compiler.Placed.{ArePlaced}
use lanky.Compiler.Kept.{Extends}
use lanky.Compiler.Programs.{
  compile_compound_returns, compile_compound-Extends, compile_ast-IsLined,
}
use lanky.Compiler.Tags.{replace_tags}
use lanky.Compiler.Lines.{IsLined}
use lanky.Compiler.Lines.Known.{AreKnown}
use lanky.Compiler.Tags.Assemble.{Item, byte, jump, label, cells_of, IsTagged, replace_tags-resolve}

ops_of : Option Object → List ℕ
ops_of (some (Objects.code info cs)) = info.ops
ops_of _ = []

abbrev x : List ℕ
x = 120 ∷ []

abbrev y : List ℕ
y = 121 ∷ []

abbrev num : ℕ → Node
num n = Ast.value 1 (vint n)

-- x = 1
-- prt x + 2
abbrev short : Nodes
short =
    cons (Ast.assign 1 x (num 1))
      (cons (Ast.unary 2 112 (present (Ast.binary 2 43 (Ast.variable 2 x) (num 2)))) nil)

short-ops :
    ops_of (compile_ast short)
    ≡ 72 ∷ 0 ∷ 0 ∷ 0 ∷ 0 ∷ 81 ∷ 0 ∷ 0 ∷ 0 ∷ 0 ∷ 74 ∷ 82 ∷ 0 ∷ 0 ∷ 0 ∷ 0 ∷ 72 ∷ 1 ∷ 0 ∷ 0 ∷ 0 ∷ 50
      ∷ 73 ∷ 83 ∷ 87 ∷ []
unfolding ops_of compile_ast djb2 bytes_equal
short-ops = refl

-- loop x < 3 { x = x + 1 break }
abbrev looping : Nodes
looping = cons (Ast.assign 1 x (num 0)) (
    cons
      (Ast.loop 2 absent (Ast.binary 2 108 (Ast.variable 2 x) (num 3)) absent (
        cons (Ast.assign 3 x (Ast.binary 3 43 (Ast.variable 3 x) (num 1)))
          (cons (Ast.one_off 4 98) nil)))
      nil)

-- The jump out goes to byte 56, the jump back to byte 11.
looping-ops :
    ops_of (compile_ast looping)
    ≡ 72 ∷ 0 ∷ 0 ∷ 0 ∷ 0 ∷ 81 ∷ 0 ∷ 0 ∷ 0 ∷ 0 ∷ 74 ∷ 82 ∷ 0 ∷ 0 ∷ 0 ∷ 0 ∷ 72 ∷ 1 ∷ 0 ∷ 0 ∷ 0 ∷ 56
      ∷ 75 ∷ 56 ∷ 0 ∷ 0 ∷ 0 ∷ 82 ∷ 0 ∷ 0 ∷ 0 ∷ 0 ∷ 72 ∷ 2 ∷ 0 ∷ 0 ∷ 0 ∷ 50 ∷ 81 ∷ 0 ∷ 0 ∷ 0 ∷ 0 ∷ 74
      ∷ 77 ∷ 56 ∷ 0 ∷ 0 ∷ 0 ∷ 74 ∷ 80 ∷ 77 ∷ 11 ∷ 0 ∷ 0 ∷ 0 ∷ 80 ∷ 83 ∷ 87 ∷ []
unfolding ops_of compile_ast djb2 bytes_equal
looping-ops = refl

-- x = 0
-- y = func (y) { ret x }
abbrev nested : Nodes
nested = cons (Ast.assign 1 x (num 0)) (
    cons
      (Ast.assign 2 y
        (Ast.func_decl 2 (y ∷ []) (cons (Ast.unary 3 114 (present (Ast.variable 3 x))) nil) none))
      nil)

-- The first use of x is made a save to the closure.
nested-ops :
    ops_of (compile_ast nested)
    ≡ 72 ∷ 0 ∷ 0 ∷ 0 ∷ 0 ∷ 92 ∷ 0 ∷ 0 ∷ 0 ∷ 0 ∷ 74 ∷ 72 ∷ 1 ∷ 0 ∷ 0 ∷ 0 ∷ 90 ∷ 1 ∷ 81 ∷ 1 ∷ 0 ∷ 0
      ∷ 0 ∷ 74 ∷ 83 ∷ 87 ∷ []
unfolding ops_of compile_ast djb2 bytes_equal
nested-ops = refl

-- 3.0 after 3 is the constant 3
same_number :
    quick_compare (Objects.float (0 ∷ 0 ∷ 0 ∷ 0 ∷ 0 ∷ 0 ∷ 8 ∷ 64 ∷ [])) (Objects.integer 3) ≡ true
unfolding quick_compare
same_number = refl

start : State
start = record { cw = new_wrapper [] []; outer = [] }

looping-ArePlaced : ArePlaced false false looping
unfolding ArePlaced
looping-ArePlaced = (tt, ((tt, (tt, tt), tt, ((tt, tt), (inl refl, tt))), tt))

compile_compound_returns_example :
    (s' : State) × (compile_compound looping start ≡ some s') × Extends start s'
compile_compound_returns_example =
    compile_compound_returns looping false looping-ArePlaced start (λ e. cc)

-- what a computation gives, and something else where it gives nothing
abbrev value_or {ℓ} : {A : Type ℓ} → A → Option A → A
value_or d none = d
value_or d (some a) = a

compile_compound-Extends_example : Extends start (value_or start (compile_compound nested start))
unfolding compile_compound start djb2 bytes_equal
compile_compound-Extends_example = compile_compound-Extends nested start refl

abbrev IsLineOfNested : ℕ → Type 0
IsLineOfNested line = (1 ≤ line) × (line ≤ 3)

nested-AreKnown : AreKnown IsLineOfNested nested
unfolding AreKnown
nested-AreKnown =
    let first : IsLineOfNested 1 = (omega arith, omega arith) in
    let second : IsLineOfNested 2 = (omega arith, omega arith) in
    let third : IsLineOfNested 3 = (omega arith, omega arith) in
    ((first, first), ((second, (second, ((third, third), tt))), tt))

compile_ast-IsLined_example :
    IsLined IsLineOfNested (value_or (Objects.integer 0) (compile_ast nested))
unfolding compile_ast djb2 bytes_equal
compile_ast-IsLined_example = compile_ast-IsLined IsLineOfNested nested nested-AreKnown refl

abbrev jumping : List Item
jumping = jump 1000 ∷ byte 74 ∷ label 1001 ∷ byte 77 ∷ label 1000 ∷ []

jumping-IsTagged : IsTagged jumping
jumping-IsTagged =
    (omega arith, refl, (omega arith, (omega arith, refl, (omega arith, (omega arith, refl, tt)))))

replace_tags-resolve_example :
    replace_tags (cells_of jumping) ≡ op 7 ∷ op 0 ∷ op 0 ∷ op 0 ∷ op 74 ∷ op 80 ∷ op 77 ∷ op 80 ∷ []
unfolding int_to_byte_array
replace_tags-resolve_example = replace_tags-resolve jumping jumping-IsTagged
