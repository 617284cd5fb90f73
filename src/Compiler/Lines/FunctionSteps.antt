-- ===== src/Compiler/Lines/FunctionSteps.antt =====
-- src/compiler/ast_compiler.c: the steps of operators, conditionals and functions record their lines.
use lanky.Prelude.{
  ℕ, refl, Bool, true, false, Option, none, some, List, [], ◌∷◌, ◌==◌, if◌then◌else◌, length, ltb,
  OnSome, on_none, on_some, OnSome-bind,
}
use lanky.Compiler.{CompilerWrapper, State, NameWrapper, filler}
use lanky.Compiler.Objects.{Object, make_cons_array}
use lanky.Compiler.Emit.{Emit, on}
use lanky.Compiler.Function.{
  emit_unary, single_if, jump_unknown, emit_to_top, compile_one_off, close_name, close_names, enter,
  leave, finish_function, compile_function, new_wrapper,
}
use lanky.Compiler.Tags.{build_code}
use lanky.Compiler.Ast.{Members, no_member, member}
use lanky.Compiler.Shapes.{emit_members, optional_index, close_used}
use lanky.Compiler.Lines.{IsLined, AreLined, AllRecorded, AreRecorded}
use lanky.Compiler.Lines.Cells.{
  append_cell-IsRecorded, fillers-IsRecorded, switch_to_close-IsRecorded,
}
use lanky.Compiler.Lines.Steps.{
  Records, ◌then◌, some-Records, on-Records, emit-Records, emit_jump-Records, saved-Records,
  named-Records, emit_bytes-Records, emit_var-Records, emit_new_const-Records,
}
use lanky.Compiler.Tags.Build.{build_code-IsLined}

module _ {P : ℕ → Type 0} where
  if-OnSome :
      (b : Bool) {m n : Option State}
      → OnSome (AreRecorded P) m
      → OnSome (AreRecorded P) n
      → OnSome (AreRecorded P) (if b then m else n)
  if-OnSome true hm hn = hm
  if-OnSome false hm hn = hn

  leave-AreRecorded :
      (outer : List CompilerWrapper) → AllRecorded P outer → OnSome (AreRecorded P) (leave outer)
  unfolding leave
  leave-AreRecorded [] h = on_none
  leave-AreRecorded (c ∷ cs) (h, hs) = on_some (record { running = h; around = hs })

  pub if-Records :
      (b : Bool) {e f : Emit} → Records P e → Records P f → Records P (if b then e else f)
  if-Records true he hf = he
  if-Records false he hf = hf

  pub emit_unary-Records :
      (opt : ℕ) (has_target : Bool) (line : ℕ) → P line → Records P (emit_unary opt has_target line)
  unfolding emit_unary
  emit_unary-Records opt has_target line p =
      if-Records (opt == 112) (saved-Records true then emit-Records _ line p) (
        if-Records (opt == 114)
          (if-Records has_target some-Records (emit-Records _ line p)
            then saved-Records true
            then emit-Records _ line p)
          (if-Records (opt == 116) (saved-Records true then emit-Records _ line p) (
            if-Records (opt == 89) (emit-Records _ line p then emit-Records 1 line p) (
              if-Records (opt == 78) (emit-Records _ line p then emit-Records 0 line p)
                (emit-Records _ line p)))))

  pub single_if-Records :
      (line : ℕ)
      → P line
      → (has : Bool) {condition payload : Emit} → Records P condition
      → Records P payload
      → (out next : ℕ) → Records P (single_if line has condition payload out next)
  unfolding single_if
  single_if-Records line p has hc hp out next =
      if-Records has (hc then emit_jump-Records _ next line p) some-Records
      then hp
      then if-Records _ (emit_jump-Records _ out line p) some-Records

  jump_unknown-Records : (line : ℕ) → P line → Records P (on (jump_unknown line))
  unfolding jump_unknown
  jump_unknown-Records line p = on-Records (λ c h.
      append_cell-IsRecorded _ filler line p
        (fillers-IsRecorded _ line p (append_cell-IsRecorded c _ line p h)))

  emit_to_top-Records : (tags : List ℕ) (line : ℕ) → P line → Records P (emit_to_top tags line)
  unfolding emit_to_top
  emit_to_top-Records [] line p s h = on_none
  emit_to_top-Records (tag ∷ tags) line p s h = emit_jump-Records _ tag line p s h

  pub compile_one_off-Records : (opt line : ℕ) → P line → Records P (compile_one_off opt line)
  unfolding compile_one_off
  compile_one_off-Records opt line p s h =
      if-OnSome (opt == 99) (emit_to_top-Records s.cw.loop_start_stack line p s h) (
        if-OnSome (opt == 98) (emit_to_top-Records s.cw.loop_end_stack line p s h)
          (jump_unknown-Records line p s h))

  close_name-Records : (refname : List ℕ) (idx : ℕ) → Records P (close_name refname idx)
  unfolding close_name
  close_name-Records refname idx s h =
      if-OnSome (ltb idx (length s.cw.rops))
        (on-Records (switch_to_close-IsRecorded refname idx) s h) on_none

  close_names-Records :
      (refname : List ℕ) (ws : List NameWrapper) → Records P (close_names refname ws)
  unfolding close_names
  close_names-Records refname [] = some-Records
  close_names-Records refname (w ∷ ws) =
      if-Records _ (close_name-Records refname w.idx) some-Records
      then close_names-Records refname ws

  pub close_used-Records : (refname : List ℕ) → Records P (close_used refname)
  unfolding close_used
  close_used-Records refname s h = close_names-Records refname s.cw.used_names s h

  finish_function-AreRecorded :
      (line argc : ℕ) (o : Option Object) (inner : State)
      → P line
      → OnSome (IsLined P) o
      → AllRecorded P inner.outer
      → OnSome (AreRecorded P) (finish_function line argc o inner)
  unfolding finish_function
  finish_function-AreRecorded line argc none inner p lined h = on_none
  finish_function-AreRecorded line argc (some obj) inner p (on_some lined) h =
      OnSome-bind (leave-AreRecorded inner.outer h) (
        emit_new_const-Records obj lined line p
        then emit-Records _ line p
        then emit-Records argc line p)

  -- in a compilation of its own
  pub compile_function-Records :
      (line : ℕ)
      → P line
      → (params : List (List ℕ)) (refname : Option (List ℕ)) (root : Option ℕ) {payload : Emit}
      → OnSome P root
      → Records P payload
      → Records P (compile_function line params refname root payload)
  unfolding compile_function enter new_wrapper make_cons_array AreLined
  compile_function-Records line p params refname root first k s h =
      OnSome-bind
        (k (enter (new_wrapper params s.cw.used_names) s) (record {
          running = record { aligned = refl; known = tt; lined = tt };
          around = (h.running, h.around);
        }))
        (λ inner h'.
          finish_function-AreRecorded line (length params) (build_code refname root inner.cw) inner
            p (build_code-IsLined refname root inner.cw first h'.running) h'.around)

  pub optional_index-Records :
      (o : Option (List ℕ)) (line : ℕ) → P line → Records P (optional_index o line)
  unfolding optional_index
  optional_index-Records none line p = some-Records
  optional_index-Records (some name) line p =
      emit-Records _ line p then emit_var-Records name false line p then emit-Records _ line p

  pub emit_members-Records : (ms : Members) (line : ℕ) → P line → Records P (emit_members ms line)
  unfolding emit_members
  emit_members-Records no_member line p = some-Records
  emit_members-Records (member prefix name payload rest) line p =
      emit_members-Records rest line p
      then emit-Records prefix line p
      then named-Records name (λ idx. emit_bytes-Records idx line p)
