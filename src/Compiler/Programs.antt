-- ===== src/Compiler/Programs.antt =====
-- src/compiler/ast_compiler.c: the compilation of the statements of a program, and of the program.
use lanky.Prelude.{
  ℕ, ◌≡◌, refl, Bool, true, false, Option, none, some, [], OnSome, on_none, on_some, OnSome-bind,
  OnSome-value,
}
use lanky.Compiler.Tags.Build.{build_code-IsLined}
use lanky.Compiler.Lines.{IsLined, AreLined, IsRecorded}
use lanky.Compiler.Lines.Known.{AreKnown, first_line-known}
use lanky.Compiler.Lines.Tree.{compile_compound-Records}
use lanky.Compiler.{State, CompilerWrapper}
use lanky.Compiler.Ast.{Nodes}
use lanky.Compiler.Objects.{Object, make_cons_array}
use lanky.Compiler.Compile.{compile_compound, compile_ast_ext, compile_ast, first_line}
use lanky.Compiler.Function.{new_wrapper}
use lanky.Compiler.Placed.{ArePlaced}
use lanky.Compiler.Anywhere.{all-ArePlaced}
use lanky.Compiler.Kept.{Extends}
use lanky.Compiler.Steps.{Outcome, refused, returned, InLoop}
use lanky.Compiler.Returns.{compile_compound-Runs}

Outcome-returns :
    {s : State} {m : Option State} → Outcome false s m → (s' : State) × (m ≡ some s') × Extends s s'
Outcome-returns (refused e) = cc
Outcome-returns (returned {s' = s'} h) = (s', refl, h)

Outcome-OnSome : {s : State} {m : Option State} → Outcome true s m → OnSome (Extends s) m
Outcome-OnSome (refused h) = on_none
Outcome-OnSome (returned h) = on_some h

-- Statements without functions and named objects, in which each break and each continue stands in a
-- loop, are compiled, and the state that results extends the one before. If the statements stand in a
-- loop themselves, its tags are on the stacks of the state.
pub compile_compound_returns :
    (statements : Nodes) (in_loop : Bool)
    → ArePlaced false in_loop statements
    → (s : State) → (in_loop ≡ true → InLoop s)
    → (s' : State) × (compile_compound statements s ≡ some s') × Extends s s'
compile_compound_returns statements in_loop placed s loop =
    Outcome-returns (compile_compound-Runs statements placed s loop)

-- Whenever statements are compiled, functions and named objects included, the compilation that runs and
-- every one around it has the loops it was in, takes back no tag, no slot of a local and no cell, and has
-- a line for each cell if it had before.
pub compile_compound-Extends :
    (statements : Nodes) (s : State) {s' : State}
    → compile_compound statements s ≡ some s'
    → Extends s s'
compile_compound-Extends statements s e =
    OnSome-value
      (Outcome-OnSome
        (compile_compound-Runs statements (all-ArePlaced false statements) s (λ e. cc)))
      e

compile_ast_ext-IsLined :
    (P : ℕ → Type 0) (root : Nodes) (cw : CompilerWrapper)
    → AreKnown P root
    → IsRecorded P cw
    → OnSome (IsLined P) (compile_ast_ext root cw)
unfolding compile_ast_ext
compile_ast_ext-IsLined P root cw known h =
    OnSome-bind
      (compile_compound-Records root known (record { cw = cw; outer = [] })
        (record { running = h; around = tt }))
      (λ s' h'.
        build_code-IsLined none (first_line root) s'.cw (first_line-known P root known) h'.running)

-- For any set of lines with the `lineno` of each node that is compiled: the code object of a program,
-- and the code object of each function among its constants and of those inside it, has a list of lines
-- that is as long as its bytes, and has lines of the set only.
pub compile_ast-IsLined :
    (P : ℕ → Type 0) (root : Nodes)
    → AreKnown P root
    → {obj : Object} → compile_ast root ≡ some obj
    → IsLined P obj
unfolding compile_ast new_wrapper make_cons_array AreLined
compile_ast-IsLined P root known e =
    OnSome-value
      (compile_ast_ext-IsLined P root (new_wrapper [] []) known
        (record { aligned = refl; known = tt; lined = tt }))
      e
