-- ===== src/Compiler/Steps.antt =====
-- src/compiler/ast_compiler.c: what a step of the compilation leaves, and the steps composed.
use lanky.Prelude.{
  ℕ, ◌≡◌, ◌≢◌, refl, sym, ◌∙◌, ap, Bool, true, false, Option, none, some, List, [], ◌∷◌,
  if◌then◌else◌, length, ◌>>=◌,
}
use lanky.Compiler.{int_to_byte_array, CompilerWrapper, State, intern_name}
use lanky.Compiler.Objects.{Object}
use lanky.Compiler.Emit.{
  Emit, ◌>=>◌, on, emit, emit_int, emit_jump, saved, fresh, named, emit_name, here, emit_var,
  emit_pop_unless_saved, pop_unless, emit_const_at, add_const, statement, aside, in_loop,
  find_prev_const, emit_new_const, emit_const, emit_bytes, emit_names, tail, push_loop, pop_loop,
}
use lanky.Instructions.{li_load_const}
use lanky.Compiler.Kept.{
  Kept, Extends, Kept-same, Extends-refl, Extends-trans, Extends-cw, append_op-Kept,
  append_with_int-Kept, append_with_tag-Kept, append_ops-Kept, intern_name-Kept, next_if_tag-Kept,
  append_var_info-Extends,
}

-- A step reads through NULL, or it extends the state. The first is left out where `may_fail` is false.
pub data Outcome (may_fail : Bool) (s : State) : Option State → Type 0 where
  refused : may_fail ≡ true → Outcome may_fail s none
  returned : {s' : State} → Extends s s' → Outcome may_fail s (some s')

-- the code stands in a loop
pub record InLoop (s : State) : Type 0 where
  pub starts : s.cw.loop_start_stack ≢ []
  pub ends : s.cw.loop_end_stack ≢ []

abbrev pub Runs : Bool → Bool → Emit → Type 0
Runs may_fail in_loop e = (s : State) → (in_loop ≡ true → InLoop s) → Outcome may_fail s (e s)

pub InLoop-kept : {s s' : State} → Extends s s' → InLoop s → InLoop s'
InLoop-kept h loop = record {
  starts = λ e. loop.starts (sym h.running.starts ∙ e);
  ends = λ e. loop.ends (sym h.running.ends ∙ e);
}

-- A loop's tags are on the stacks in its body, and off them after it.
pushed-InLoop : (again out : ℕ) (s : State) → InLoop (record s { cw = push_loop again out s.cw })
unfolding push_loop
pushed-InLoop again out s = record { starts = λ e. cc; ends = λ e. cc }

pop_loop-Extends :
    (again out : ℕ) {s s' : State}
    → Extends (record s { cw = push_loop again out s.cw }) s'
    → Extends s (record s' { cw = pop_loop s'.cw })
unfolding push_loop pop_loop tail
pop_loop-Extends again out h = record {
  running = record {
    starts = ap tail h.running.starts;
    ends = ap tail h.running.ends;
    tags = h.running.tags;
    locals = h.running.locals;
    cells = h.running.cells;
    lines = h.running.lines;
  };
  around = h.around;
}

add_const-Kept : (obj : Object) (c : CompilerWrapper) → Kept c (add_const obj c)
unfolding add_const
add_const-Kept obj c = Kept-same refl refl refl refl refl refl

module _ {may_fail : Bool} where
  Outcome-after :
      {s s' : State} {m : Option State}
      → Extends s s'
      → Outcome may_fail s' m
      → Outcome may_fail s m
  Outcome-after h (refused e) = refused e
  Outcome-after h (returned k) = returned (Extends-trans h k)

  pub Outcome-bind :
      {s : State} {m : Option State} {f : Emit}
      → Outcome may_fail s m
      → ((s' : State) → Extends s s' → Outcome may_fail s' (f s'))
      → Outcome may_fail s (m >>= f)
  Outcome-bind (refused h) k = refused h
  Outcome-bind (returned {s'} h) k = Outcome-after h (k s' h)

  -- a step that is taken after the state was extended
  Runs-after :
      {d : Bool} {e : Emit} {s s' : State}
      → Runs may_fail d e
      → Extends s s'
      → (d ≡ true → InLoop s)
      → Outcome may_fail s (e s')
  Runs-after {s' = s'} h ext loop = Outcome-after ext (h s' (λ e. InLoop-kept ext (loop e)))

  Outcome-pop :
      (again out : ℕ) {s : State} {m : Option State}
      → Outcome may_fail (record s { cw = push_loop again out s.cw }) m
      → Outcome may_fail s (m >>= on pop_loop)
  unfolding on
  Outcome-pop again out (refused e) = refused e
  Outcome-pop again out (returned h) = returned (pop_loop-Extends again out h)

  module _ {d : Bool} where
    infixr 4 ◌then◌
    pub ◌then◌ : {f g : Emit} → Runs may_fail d f → Runs may_fail d g → Runs may_fail d (f >=> g)
    (hf then hg) s loop = Outcome-bind (hf s loop) (λ s' h. hg s' (λ e. InLoop-kept h (loop e)))

    pub some-Runs : Runs may_fail d some
    some-Runs s loop = returned (Extends-refl s)

    pub on-Runs :
        {f : CompilerWrapper → CompilerWrapper}
        → ((c : CompilerWrapper) → Kept c (f c))
        → Runs may_fail d (on f)
    unfolding on
    on-Runs h s loop = returned (Extends-cw s (h s.cw))

    pub emit-Runs : (ins line : ℕ) → Runs may_fail d (emit ins line)
    unfolding emit
    emit-Runs ins line = on-Runs (λ c. append_op-Kept c ins line)

    pub emit_int-Runs : (ins val line : ℕ) → Runs may_fail d (emit_int ins val line)
    unfolding emit_int
    emit_int-Runs ins val line = on-Runs (λ c. append_with_int-Kept c ins val line)

    pub emit_jump-Runs : (ins tag line : ℕ) → Runs may_fail d (emit_jump ins tag line)
    unfolding emit_jump
    emit_jump-Runs ins tag line = on-Runs (λ c. append_with_tag-Kept c ins tag line)

    pub emit_bytes-Runs : (val line : ℕ) → Runs may_fail d (emit_bytes val line)
    unfolding emit_bytes
    emit_bytes-Runs val line = on-Runs (λ c. append_ops-Kept c (int_to_byte_array val) line)

    pub saved-Runs : (b : Bool) → Runs may_fail d (saved b)
    unfolding saved
    saved-Runs b = on-Runs (λ c. Kept-same refl refl refl refl refl refl)

    pub fresh-Runs :
        {k : ℕ → Emit} → ((tag : ℕ) → Runs may_fail d (k tag)) → Runs may_fail d (fresh k)
    unfolding fresh
    fresh-Runs h s loop = Runs-after (h s.cw.if_tag) (Extends-cw s (next_if_tag-Kept s.cw)) loop

    pub named-Runs :
        (name : List ℕ) {k : ℕ → Emit}
        → ((idx : ℕ) → Runs may_fail d (k idx))
        → Runs may_fail d (named name k)
    unfolding named
    named-Runs name h s loop =
        Runs-after (h (intern_name s.cw name).0) (Extends-cw s (intern_name-Kept s.cw name)) loop

    pub emit_name-Runs :
        (ins : ℕ) (name : List ℕ) (line : ℕ) → Runs may_fail d (emit_name ins name line)
    unfolding emit_name
    emit_name-Runs ins name line = named-Runs name (λ idx. emit_int-Runs ins idx line)

    pub here-Runs :
        {k : ℕ → Emit} → ((start : ℕ) → Runs may_fail d (k start)) → Runs may_fail d (here k)
    unfolding here
    here-Runs h s loop = h (length s.cw.rops) s loop

    pub emit_var-Runs :
        (name : List ℕ) (is_load : Bool) (line : ℕ) → Runs may_fail d (emit_var name is_load line)
    unfolding emit_var
    emit_var-Runs name is_load line s loop = returned (append_var_info-Extends s name is_load line)

    pop_unless-Runs : (b : Bool) (line : ℕ) → Runs may_fail d (pop_unless b line)
    unfolding pop_unless
    pop_unless-Runs true line = some-Runs
    pop_unless-Runs false line = emit-Runs _ line

    emit_pop_unless_saved-Runs : (line : ℕ) → Runs may_fail d (emit_pop_unless_saved line)
    unfolding emit_pop_unless_saved
    emit_pop_unless_saved-Runs line s loop = pop_unless-Runs s.cw.save_val line s loop

    pub statement-Runs :
        (line : ℕ) {e : Emit} → Runs may_fail d e → Runs may_fail d (statement line e)
    unfolding statement
    statement-Runs line h = saved-Runs false then h then emit_pop_unless_saved-Runs line

    pub aside-Runs : (line : ℕ) {e : Emit} → Runs may_fail d e → Runs may_fail d (aside line e)
    unfolding aside
    aside-Runs line h s loop = (statement-Runs line h then saved-Runs s.cw.save_val) s loop

    pub emit_new_const-Runs : (obj : Object) (line : ℕ) → Runs may_fail d (emit_new_const obj line)
    unfolding emit_new_const
    emit_new_const-Runs obj line s loop =
        (on-Runs (add_const-Kept obj) then emit_int-Runs li_load_const (length s.cw.rcon) line) s
          loop

    emit_const_at-Runs :
        (o : Option ℕ) (obj : Object) (line : ℕ) → Runs may_fail d (emit_const_at o obj line)
    unfolding emit_const_at
    emit_const_at-Runs (some idx) obj line = emit_int-Runs _ idx line
    emit_const_at-Runs none obj line = emit_new_const-Runs obj line

    pub emit_const-Runs : (obj : Object) (line : ℕ) → Runs may_fail d (emit_const obj line)
    unfolding emit_const
    emit_const-Runs obj line s loop =
        emit_const_at-Runs (find_prev_const s.cw.rcon obj 0) obj line s loop

    pub emit_names-Runs :
        (names : List (List ℕ)) (line : ℕ) → Runs may_fail d (emit_names names line)
    unfolding emit_names
    emit_names-Runs [] line = some-Runs
    emit_names-Runs (n ∷ ns) line =
        emit_names-Runs ns line then named-Runs n (λ idx. emit_bytes-Runs idx line)

    pub in_loop-Runs :
        (again out : ℕ) {e : Emit} → Runs may_fail true e → Runs may_fail d (in_loop again out e)
    unfolding in_loop on
    in_loop-Runs again out h s loop =
        let inside : State = record s { cw = push_loop again out s.cw } in
        Outcome-pop again out (h inside (λ e. pushed-InLoop again out s))
