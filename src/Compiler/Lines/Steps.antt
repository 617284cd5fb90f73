-- ===== src/Compiler/Lines/Steps.antt =====
-- src/compiler/ast_compiler.c: the steps of the compilation, each of which records its line.
use lanky.Prelude.{
  ℕ, ◌++◌, Bool, true, false, Option, none, some, List, [], ◌∷◌, length, OnSome, on_some,
  OnSome-bind,
}
use lanky.Compiler.{int_to_byte_array, CompilerWrapper, State, intern_name}
use lanky.Compiler.Objects.{Object, make_cons_array}
use lanky.Compiler.Emit.{
  Emit, ◌>=>◌, on, emit, emit_int, emit_jump, saved, fresh, named, emit_name, here, emit_var,
  emit_pop_unless_saved, pop_unless, emit_const_at, add_const, statement, aside, in_loop,
  find_prev_const, emit_new_const, emit_const, emit_bytes, emit_names, push_loop, pop_loop,
}
use lanky.Instructions.{li_load_const}
use lanky.Compiler.Lines.{IsLined, AreLined, IsRecorded, AreRecorded}
use lanky.Compiler.Lines.Cells.{
  append_op-IsRecorded, append_with_int-IsRecorded, append_with_tag-IsRecorded,
  append_ops-IsRecorded, intern_name-IsRecorded, next_if_tag-IsRecorded,
  append_var_info-AreRecorded,
}

-- Where a step gives a state, it has recorded lines of the set only.
abbrev pub Records : (ℕ → Type 0) → Emit → Type 0
Records P e = (s : State) → AreRecorded P s → OnSome (AreRecorded P) (e s)

AreLined-add :
    (P : ℕ → Type 0) (os : List Object) (o : Object)
    → AreLined P (make_cons_array os)
    → IsLined P o
    → AreLined P (make_cons_array (os ++ o ∷ []))
unfolding make_cons_array AreLined
AreLined-add P [] o h k = (k, tt)
AreLined-add P (x ∷ os) o h k = (h.0, AreLined-add P os o h.1 k)

module _ {P : ℕ → Type 0} where
  pub with_cw :
      {s : State} {c : CompilerWrapper}
      → AreRecorded P s
      → IsRecorded P c
      → AreRecorded P (record s { cw = c })
  with_cw h k = record { running = k; around = h.around }

  add_const-IsRecorded :
      (obj : Object)
      → IsLined P obj
      → (c : CompilerWrapper) → IsRecorded P c
      → IsRecorded P (add_const obj c)
  unfolding add_const
  add_const-IsRecorded obj lined c h = record {
    aligned = h.aligned;
    known = h.known;
    lined = AreLined-add P c.rcon obj h.lined lined;
  }

  infixr 4 ◌then◌
  pub ◌then◌ : {f g : Emit} → Records P f → Records P g → Records P (f >=> g)
  (hf then hg) s h = OnSome-bind (hf s h) hg

  pub some-Records : Records P some
  some-Records s h = on_some h

  pub on-Records :
      {f : CompilerWrapper → CompilerWrapper}
      → ((c : CompilerWrapper) → IsRecorded P c → IsRecorded P (f c))
      → Records P (on f)
  unfolding on
  on-Records keep s h = on_some (with_cw h (keep s.cw h.running))

  pub emit-Records : (ins line : ℕ) → P line → Records P (emit ins line)
  unfolding emit
  emit-Records ins line p = on-Records (λ c h. append_op-IsRecorded c ins line p h)

  pub emit_int-Records : (ins val line : ℕ) → P line → Records P (emit_int ins val line)
  unfolding emit_int
  emit_int-Records ins val line p =
      on-Records (λ c h. append_with_int-IsRecorded c ins val line p h)

  pub emit_jump-Records : (ins tag line : ℕ) → P line → Records P (emit_jump ins tag line)
  unfolding emit_jump
  emit_jump-Records ins tag line p =
      on-Records (λ c h. append_with_tag-IsRecorded c ins tag line p h)

  pub emit_bytes-Records : (val line : ℕ) → P line → Records P (emit_bytes val line)
  unfolding emit_bytes
  emit_bytes-Records val line p =
      on-Records (λ c h. append_ops-IsRecorded c (int_to_byte_array val) line p h)

  pub saved-Records : (b : Bool) → Records P (saved b)
  unfolding saved
  saved-Records b =
      on-Records (λ c h. record { aligned = h.aligned; known = h.known; lined = h.lined })

  pub fresh-Records : {k : ℕ → Emit} → ((tag : ℕ) → Records P (k tag)) → Records P (fresh k)
  unfolding fresh
  fresh-Records k s h = k s.cw.if_tag _ (with_cw h (next_if_tag-IsRecorded s.cw h.running))

  pub named-Records :
      (name : List ℕ) {k : ℕ → Emit} → ((idx : ℕ) → Records P (k idx)) → Records P (named name k)
  unfolding named
  named-Records name k s h =
      k (intern_name s.cw name).0 _ (with_cw h (intern_name-IsRecorded s.cw name h.running))

  pub emit_name-Records :
      (ins : ℕ) (name : List ℕ) (line : ℕ) → P line → Records P (emit_name ins name line)
  unfolding emit_name
  emit_name-Records ins name line p = named-Records name (λ idx. emit_int-Records ins idx line p)

  pub here-Records : {k : ℕ → Emit} → ((start : ℕ) → Records P (k start)) → Records P (here k)
  unfolding here
  here-Records k s h = k (length s.cw.rops) s h

  pub emit_var-Records :
      (name : List ℕ) (is_load : Bool) (line : ℕ) → P line → Records P (emit_var name is_load line)
  unfolding emit_var
  emit_var-Records name is_load line p s h =
      on_some (append_var_info-AreRecorded s name is_load line p h)

  pop_unless-Records : (b : Bool) (line : ℕ) → P line → Records P (pop_unless b line)
  unfolding pop_unless
  pop_unless-Records true line p = some-Records
  pop_unless-Records false line p = emit-Records _ line p

  emit_pop_unless_saved-Records : (line : ℕ) → P line → Records P (emit_pop_unless_saved line)
  unfolding emit_pop_unless_saved
  emit_pop_unless_saved-Records line p s h = pop_unless-Records s.cw.save_val line p s h

  pub statement-Records :
      (line : ℕ) (p : P line) {e : Emit} → Records P e → Records P (statement line e)
  unfolding statement
  statement-Records line p k = saved-Records false then k then emit_pop_unless_saved-Records line p

  pub aside-Records : (line : ℕ) (p : P line) {e : Emit} → Records P e → Records P (aside line e)
  unfolding aside
  aside-Records line p k s h = (statement-Records line p k then saved-Records s.cw.save_val) s h

  pub emit_new_const-Records :
      (obj : Object) → IsLined P obj → (line : ℕ) → P line → Records P (emit_new_const obj line)
  unfolding emit_new_const
  emit_new_const-Records obj lined line p s h =
      (on-Records (add_const-IsRecorded obj lined)
          then emit_int-Records li_load_const (length s.cw.rcon) line p)
        s h

  emit_const_at-Records :
      (o : Option ℕ) (obj : Object)
      → IsLined P obj
      → (line : ℕ) → P line
      → Records P (emit_const_at o obj line)
  unfolding emit_const_at
  emit_const_at-Records (some idx) obj lined line p = emit_int-Records _ idx line p
  emit_const_at-Records none obj lined line p = emit_new_const-Records obj lined line p

  pub emit_const-Records :
      (obj : Object) → IsLined P obj → (line : ℕ) → P line → Records P (emit_const obj line)
  unfolding emit_const
  emit_const-Records obj lined line p s h =
      emit_const_at-Records (find_prev_const s.cw.rcon obj 0) obj lined line p s h

  pub emit_names-Records :
      (names : List (List ℕ)) (line : ℕ) → P line → Records P (emit_names names line)
  unfolding emit_names
  emit_names-Records [] line p = some-Records
  emit_names-Records (n ∷ ns) line p =
      emit_names-Records ns line p then named-Records n (λ idx. emit_bytes-Records idx line p)

  pub in_loop-Records : (again out : ℕ) {e : Emit} → Records P e → Records P (in_loop again out e)
  unfolding in_loop push_loop pop_loop
  in_loop-Records again out k =
      on-Records (λ c h. record { aligned = h.aligned; known = h.known; lined = h.lined })
      then k
      then on-Records (λ c h. record { aligned = h.aligned; known = h.known; lined = h.lined })
