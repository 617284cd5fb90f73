-- ===== src/Compiler/Lines.antt =====
-- src/compiler/ast_compiler.c: the lines that a `compiler_wrapper` records beside its cells, for a set of
-- lines that the nodes of the tree have.
pub mod Known
pub mod Cells
mod Steps
mod FunctionSteps
mod ShapeSteps
pub mod Tree
use lanky.Prelude.{ℕ, ◌≡◌, Option, none, some, List, [], ◌∷◌, length}
use lanky.Compiler.{CompilerWrapper, State}
use lanky.Compiler.Objects
use lanky.Compiler.Objects.{Object, Objects, make_cons_array}

module _ (P : ℕ → Type 0) where
  abbrev pub AllLines : List ℕ → Type 0
  AllLines [] = Unit {0}
  AllLines (line ∷ lines) = P line × AllLines lines

  -- A code object, and each one among its constants, has a line of the set for each of its bytes.
  unfoldable mutual
    pub IsLined : Object → Type 0
    IsLined (Objects.integer n) = Unit {0}
    IsLined (Objects.float d) = Unit {0}
    IsLined (Objects.string s) = Unit {0}
    IsLined (Objects.regex_object p f) = Unit {0}
    IsLined (Objects.unit_object v f) = Unit {0}
    IsLined (Objects.code info cs) =
        ((lines : List ℕ) × (info.indices ≡ some lines)
          × (length lines ≡ length info.ops)
          × AllLines lines)
        × AreLined cs

    pub AreLined : Objects → Type 0
    AreLined Objects.nil = Unit {0}
    AreLined (Objects.cons o os) = IsLined o × AreLined os

  -- A line of the set is beside each cell, and the constants are lined.
  pub record IsRecorded (c : CompilerWrapper) : Type 0 where
    pub aligned : length c.rindices ≡ length c.rops
    pub known : AllLines c.rindices
    pub lined : AreLined (make_cons_array c.rcon)

  abbrev pub AllRecorded : List CompilerWrapper → Type 0
  AllRecorded [] = Unit {0}
  AllRecorded (c ∷ cs) = IsRecorded c × AllRecorded cs

  -- of the compilation that runs and of the ones around it
  pub record AreRecorded (s : State) : Type 0 where
    pub running : IsRecorded s.cw
    pub around : AllRecorded s.outer
