-- ===== src/Compiler/Tags/Build.antt =====
-- src/compiler/ast_compiler.c: the code object that is built from a compilation has its lines.
use lanky.Prelude.{
  ℕ, refl, sym, ◌∙◌, Bool, true, false, Option, none, some, List, OnSome, on_none, on_some,
  OnSome-bind,
}
use lanky.Compiler.{CompilerWrapper}
use lanky.Compiler.Tags.{
  return_nil, sized_code, code_info, end_with_return, ends_with_return, build_code, replace_tags,
  finalize_ops, stack_size,
}
use lanky.Compiler.Tags.Lengths.{length-replace_tags, length-finalize_ops}
use lanky.Compiler.Lines.{IsLined, IsRecorded}
use lanky.Compiler.Lines.Cells.{append_op-IsRecorded}
use lanky.Bytecode.{calculate_max_stack_depth}

module _ {P : ℕ → Type 0} where
  return_nil-IsRecorded :
      (ends : Bool) (root : Option ℕ) (cw : CompilerWrapper)
      → OnSome P root
      → IsRecorded P cw
      → OnSome (IsRecorded P) (return_nil ends root cw)
  unfolding return_nil
  return_nil-IsRecorded true root cw p h = on_some h
  return_nil-IsRecorded false none cw p h = on_none
  return_nil-IsRecorded false (some line) cw (on_some p) h =
      on_some (append_op-IsRecorded _ _ line p (append_op-IsRecorded cw _ line p h))

  sized_code-IsLined :
      (refname : Option (List ℕ)) (cw : CompilerWrapper) (stack : Option ℕ)
      → IsRecorded P cw
      → OnSome (IsLined P) (sized_code refname cw stack)
  unfolding sized_code code_info IsLined
  sized_code-IsLined refname cw none h = on_none
  sized_code-IsLined refname cw (some stack) h =
      on_some ((cw.rindices, refl, h.aligned ∙ sym (length-finalize_ops cw.rops), h.known), h.lined)

  pub build_code-IsLined :
      (refname : Option (List ℕ)) (root : Option ℕ) (cw : CompilerWrapper)
      → OnSome P root
      → IsRecorded P cw
      → OnSome (IsLined P) (build_code refname root cw)
  unfolding build_code end_with_return
  build_code-IsLined refname root cw p h =
      let replaced : CompilerWrapper = record cw { rops = replace_tags cw.rops } in
      OnSome-bind
        (return_nil-IsRecorded (ends_with_return replaced.rops) root replaced p (record {
          aligned = h.aligned ∙ sym (length-replace_tags cw.rops);
          known = h.known;
          lined = h.lined;
        }))
        (λ c h'.
          sized_code-IsLined refname c
            (stack_size (calculate_max_stack_depth (finalize_ops c.rops))) h')
