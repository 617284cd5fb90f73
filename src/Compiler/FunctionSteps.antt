-- ===== src/Compiler/FunctionSteps.antt =====
-- src/compiler/ast_compiler.c: what the steps of operators, conditionals and functions leave.
use lanky.Prelude.{
  ℕ, ◌≡◌, ◌≢◌, refl, Bool, true, false, ◌⊎◌, inl, inr, Option, none, some, List, [], ◌∷◌, ◌==◌,
  if◌then◌else◌, length, ltb, ◌>>=◌,
}
use lanky.Compiler.{CompilerWrapper, State, NameWrapper, filler}
use lanky.Compiler.Objects.{Object}
use lanky.Compiler.Emit.{Emit, on}
use lanky.Compiler.Function.{
  emit_unary, single_if, jump_unknown, emit_to_top, compile_one_off, close_name, close_names, enter,
  leave, finish_function, compile_function, new_wrapper,
}
use lanky.Compiler.Tags.{build_code}
use lanky.Compiler.Ast.{Members, no_member, member}
use lanky.Compiler.Shapes.{emit_members, optional_index, close_used}
use lanky.Compiler.Kept.{KeptAll, kept_cons, Kept-trans, append_cell-Kept, switch_to_close-Kept}
use lanky.Compiler.Steps.{
  Outcome, refused, returned, InLoop, Runs, Outcome-bind, InLoop-kept, ◌then◌, some-Runs, on-Runs,
  emit-Runs, emit_jump-Runs, saved-Runs, named-Runs, emit_bytes-Runs, emit_var-Runs,
  emit_new_const-Runs,
}

module _ {may_fail : Bool} where
  if-Outcome :
      (b : Bool) {s : State} {m n : Option State}
      → Outcome may_fail s m
      → Outcome may_fail s n
      → Outcome may_fail s (if b then m else n)
  if-Outcome true hm hn = hm
  if-Outcome false hm hn = hn

  leave-Outcome :
      {s : State} {outer : List CompilerWrapper}
      → KeptAll (s.cw ∷ s.outer) outer
      → Outcome may_fail s (leave outer)
  unfolding leave
  leave-Outcome (kept_cons h hs) = returned (record { running = h; around = hs })

module _ {may_fail d : Bool} where
  pub if-Runs :
      (b : Bool) {e f : Emit}
      → Runs may_fail d e
      → Runs may_fail d f
      → Runs may_fail d (if b then e else f)
  if-Runs true he hf = he
  if-Runs false he hf = hf

  pub emit_unary-Runs :
      (opt : ℕ) (has_target : Bool) (line : ℕ) → Runs may_fail d (emit_unary opt has_target line)
  unfolding emit_unary
  emit_unary-Runs opt has_target line =
      if-Runs (opt == 112) (saved-Runs true then emit-Runs _ line) (
        if-Runs (opt == 114)
          (if-Runs has_target some-Runs (emit-Runs _ line)
            then saved-Runs true
            then emit-Runs _ line)
          (if-Runs (opt == 116) (saved-Runs true then emit-Runs _ line) (
            if-Runs (opt == 89) (emit-Runs _ line then emit-Runs 1 line)
              (if-Runs (opt == 78) (emit-Runs _ line then emit-Runs 0 line) (emit-Runs _ line)))))

  pub single_if-Runs :
      (line : ℕ) (has : Bool) {condition payload : Emit}
      → Runs may_fail d condition
      → Runs may_fail d payload
      → (out next : ℕ) → Runs may_fail d (single_if line has condition payload out next)
  unfolding single_if
  single_if-Runs line has hc hp out next =
      if-Runs has (hc then emit_jump-Runs _ next line) some-Runs
      then hp
      then if-Runs _ (emit_jump-Runs _ out line) some-Runs

  jump_unknown-Runs : (line : ℕ) → Runs may_fail d (on (jump_unknown line))
  unfolding jump_unknown
  jump_unknown-Runs line = on-Runs (λ c. Kept-trans (append_cell-Kept c _ line) (
      Kept-trans (append_cell-Kept _ filler line) (
        Kept-trans (append_cell-Kept _ filler line)
          (Kept-trans (append_cell-Kept _ filler line) (append_cell-Kept _ filler line)))))

  emit_to_top-Outcome :
      (tags : List ℕ)
      → (may_fail ≡ true) ⊎ (tags ≢ [])
      → (line : ℕ) (s : State) → (d ≡ true → InLoop s)
      → Outcome may_fail s (emit_to_top tags line s)
  unfolding emit_to_top
  emit_to_top-Outcome [] (inl may) line s loop = refused may
  emit_to_top-Outcome [] (inr ne) line s loop = absurd (ne refl)
  emit_to_top-Outcome (tag ∷ tags) h line s loop = emit_jump-Runs _ tag line s loop

  pub compile_one_off-Runs :
      (opt line : ℕ) → (d ≡ true) ⊎ (may_fail ≡ true) → Runs may_fail d (compile_one_off opt line)
  unfolding compile_one_off
  compile_one_off-Runs opt line h s loop =
      if-Outcome (opt == 99)
        (emit_to_top-Outcome s.cw.loop_start_stack
          (elim h [ inl e ↦ inr (loop e).starts | inr e ↦ inl e ]) line s loop)
        (if-Outcome (opt == 98)
          (emit_to_top-Outcome s.cw.loop_end_stack
            (elim h [ inl e ↦ inr (loop e).ends | inr e ↦ inl e ]) line s loop)
          (jump_unknown-Runs line s loop))

  close_name-Runs :
      (refname : List ℕ) (idx : ℕ) → may_fail ≡ true → Runs may_fail d (close_name refname idx)
  unfolding close_name
  close_name-Runs refname idx may s loop =
      if-Outcome (ltb idx (length s.cw.rops)) (on-Runs (switch_to_close-Kept refname idx) s loop)
        (refused may)

  close_names-Runs :
      (refname : List ℕ) (ws : List NameWrapper)
      → may_fail ≡ true
      → Runs may_fail d (close_names refname ws)
  unfolding close_names
  close_names-Runs refname [] may = some-Runs
  close_names-Runs refname (w ∷ ws) may =
      if-Runs _ (close_name-Runs refname w.idx may) some-Runs then close_names-Runs refname ws may

  pub close_used-Runs : (refname : List ℕ) → may_fail ≡ true → Runs may_fail d (close_used refname)
  unfolding close_used
  close_used-Runs refname may s loop = close_names-Runs refname s.cw.used_names may s loop

  finish_function-Outcome :
      (line argc : ℕ) (o : Option Object)
      → may_fail ≡ true
      → {s : State} (inner : State) → KeptAll (s.cw ∷ s.outer) inner.outer
      → (d ≡ true → InLoop s)
      → Outcome may_fail s (finish_function line argc o inner)
  unfolding finish_function
  finish_function-Outcome line argc none may inner h loop = refused may
  finish_function-Outcome line argc (some obj) may inner h loop =
      Outcome-bind (leave-Outcome h) (λ s' ext.
        (emit_new_const-Runs obj line then emit-Runs _ line then emit-Runs argc line) s'
          (λ e. InLoop-kept ext (loop e)))

  finish-Outcome :
      (line argc : ℕ) (object_of : State → Option Object)
      → may_fail ≡ true
      → {s : State} (cw : CompilerWrapper) {m : Option State} → Outcome may_fail (enter cw s) m
      → (d ≡ true → InLoop s)
      → Outcome may_fail s (m >>= λ inner. finish_function line argc (object_of inner) inner)
  unfolding enter
  finish-Outcome line argc object_of may cw (refused e) loop = refused e
  finish-Outcome line argc object_of may cw (returned {s' = inner} h) loop =
      finish_function-Outcome line argc (object_of inner) may inner h.around loop

  pub compile_function-Runs :
      (line : ℕ) (params : List (List ℕ)) (refname : Option (List ℕ)) (root : Option ℕ)
      {payload : Emit}
      → may_fail ≡ true
      → Runs may_fail false payload
      → Runs may_fail d (compile_function line params refname root payload)
  unfolding compile_function
  compile_function-Runs line params refname root may h s loop =
      let cw = new_wrapper params s.cw.used_names in
      finish-Outcome line (length params) (λ inner. build_code refname root inner.cw) may cw
        (h (enter cw s) (λ e. cc)) loop

  pub optional_index-Runs :
      (o : Option (List ℕ)) (line : ℕ) → Runs may_fail d (optional_index o line)
  unfolding optional_index
  optional_index-Runs none line = some-Runs
  optional_index-Runs (some name) line =
      emit-Runs _ line then emit_var-Runs name false line then emit-Runs _ line

  pub emit_members-Runs : (ms : Members) (line : ℕ) → Runs may_fail d (emit_members ms line)
  unfolding emit_members
  emit_members-Runs no_member line = some-Runs
  emit_members-Runs (member prefix name p rest) line =
      emit_members-Runs rest line
      then emit-Runs prefix line
      then named-Runs name (λ idx. emit_bytes-Runs idx line)
