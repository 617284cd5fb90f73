-- ===== src/Compiler/Tags.antt =====
-- src/compiler/ast_compiler.c: tags replaced by positions, and the code object that results.
pub mod Lengths
pub mod Build
pub mod Assemble
use lanky.Prelude.{
  ℕ, suc, ◌%◌, Bool, true, false, Option, none, some, List, [], ◌∷◌, ◌++◌, map, ltb, ◌==◌,
  if◌then◌else◌, length, ◌>>=◌,
}
use lanky.Compiler.{
  Cell, filler, op, CompilerWrapper, cell_is, write_ops, append_op, int_to_byte_array,
}
use lanky.Compiler.Objects.{Object, code, make_cons_array}
use lanky.Serialize.{CodeInfo}
use lanky.Bytecode.{Analysis, depth, calculate_max_stack_depth, calculate_max_catch_depth}
use lanky.Instructions.{li_ignore, li_push_nil, li_return}

-- a tag and the position that it stands for
pub record TagNode : Type 0 where
  pub tag : ℕ
  pub line : ℕ

pub get_line : List TagNode → ℕ → Option ℕ
get_line [] tag = none
get_line (n ∷ ns) tag = if n.tag == tag then some n.line else get_line ns tag

-- `append_tag`
pub append_tag : List TagNode → ℕ → ℕ → List TagNode
append_tag nodes tag line = nodes ++ record { tag = tag; line = line } ∷ []

-- The tag `n` in position `i`, before the cells that are done: it is seen for the first time, or it is
-- replaced by the bytes of the position that was found for it.
pub replace_seen : Option ℕ → ℕ → ℕ → List TagNode × List Cell → List TagNode × List Cell
unfolding append_tag write_ops int_to_byte_array
replace_seen none i n (tags, done) = (append_tag tags n i, op li_ignore ∷ done)
replace_seen (some line) i n (tags, done) =
    (tags, write_ops (op n ∷ done) 0 (int_to_byte_array line))

pub replace_tag : ℕ → ℕ → List TagNode × List Cell → List TagNode × List Cell
unfolding get_line replace_seen
replace_tag i n (tags, done) =
    if ltb 999 n then replace_seen (get_line tags n) i n (tags, done) else (tags, op n ∷ done)

-- The loop runs from the end: the cells behind the current one are done before it.
pub replace_from : ℕ → List Cell → List TagNode × List Cell
unfolding replace_tag
replace_from i [] = ([], [])
replace_from i (filler ∷ cells) =
    let (tags, done) = replace_from (suc i) cells in (tags, filler ∷ done)
replace_from i (op n ∷ cells) = replace_tag i n (replace_from (suc i) cells)

unfoldable pub replace_tags : List Cell → List Cell
unfolding replace_from
replace_tags cells = let (tags, done) = replace_from 0 cells in done

-- the cast of a `long` to an unsigned char
abbrev pub to_byte : Cell → ℕ
to_byte filler = 255
to_byte (op n) = n % 256

unfoldable pub finalize_ops : List Cell → List ℕ
finalize_ops cells = map to_byte cells

ends_with_return : List Cell → Bool
unfolding cell_is
ends_with_return [] = false
ends_with_return (c ∷ []) = cell_is c li_return
ends_with_return (c ∷ d ∷ cells) = ends_with_return (d ∷ cells)

-- `nil` is returned where the code does not return. The line is the first statement's, which is NULL
-- for an empty body.
pub return_nil : Bool → Option ℕ → CompilerWrapper → Option CompilerWrapper
unfolding append_op
return_nil true root cw = some cw
return_nil false none cw = none
return_nil false (some line) cw = some (append_op (append_op cw li_push_nil line) li_return line)

pub end_with_return : Option ℕ → CompilerWrapper → Option CompilerWrapper
unfolding ends_with_return return_nil
end_with_return root cw = return_nil (ends_with_return cw.rops) root cw

stack_size : Analysis → Option ℕ
stack_size (depth n) = some n
stack_size _ = none

pub code_info : CompilerWrapper → Option (List ℕ) → ℕ → CodeInfo
unfolding finalize_ops calculate_max_catch_depth
code_info cw refname stack = record {
  num_locals = cw.local_idx;
  names = cw.rnames;
  ops = finalize_ops cw.rops;
  stack_size = stack;
  refname = refname;
  indices = some cw.rindices;
  catch_size = some (calculate_max_catch_depth (finalize_ops cw.rops));
}

pub sized_code : Option (List ℕ) → CompilerWrapper → Option ℕ → Option Object
unfolding code_info make_cons_array
sized_code refname cw none = none
sized_code refname cw (some stack) =
    some (code (code_info cw refname stack) (make_cons_array cw.rcon))

-- what `compile_ast_ext` does when the statements are compiled
unfoldable pub build_code : Option (List ℕ) → Option ℕ → CompilerWrapper → Option Object
unfolding replace_tags end_with_return stack_size sized_code calculate_max_stack_depth finalize_ops
build_code refname root cw =
    end_with_return root (record cw { rops = replace_tags cw.rops }) >>= λ c.
    sized_code refname c (stack_size (calculate_max_stack_depth (finalize_ops c.rops)))
