-- ===== src/Machine/Moves.antt =====
-- src/interpreter/lky_machine.c: how far the actions of a frame move the top of its data stack.
use lanky.Prelude.{
  ℕ, zero, suc, ◌+◌, ◌≤◌, Bool, true, false, Option, none, some, [], ◌∷◌, ltb, ◌==◌, if◌then◌else◌,
  get_elem?, length, Bool-cases, inl, inr, arith,
}
use lanky.Machine.{DataStack, Access, done, outside, stopped, push_node, pop_node, top_node}
use lanky.Machine.Frame.{
  Reply, Frame, Action, ◌>>=◌, ◌>>◌, give, skip, push, pop, top, second_top, byte_operand, operand,
  name_operand, constant, load_local, save_local, goto, jump_to, call, pop_args, set_ret,
  push_catch, pop_catch, and_then, on_stack, popped, seen, found, advance,
}

-- `P` holds of what an access inside of the memory gives.
pub data OnDone {A : Type 0} (P : A → Type 0) : Access A → Type 0 where
  on_done : {a : A} → P a → OnDone P (done a)
  on_outside : OnDone P outside
  on_stopped : OnDone P stopped

pub OnDone-map :
    {A : Type 0} {P Q : A → Type 0} {m : Access A} → ((a : A) → P a → Q a) → OnDone P m → OnDone Q m
OnDone-map g (on_done h) = on_done (g _ h)
OnDone-map g on_outside = on_outside
OnDone-map g on_stopped = on_stopped

pub if-OnDone :
    {A : Type 0} {P : A → Type 0} (b : Bool) {x y : Access A}
    → OnDone P x
    → OnDone P y
    → OnDone P (if b then x else y)
if-OnDone true hx hy = hx
if-OnDone false hx hy = hy

push_node-OnDone : (s : DataStack) (v : ℕ) → OnDone (λ s'. s'.used + 0 ≤ s.used + 1) (push_node s v)
unfolding push_node
push_node-OnDone s v =
    if-OnDone (ltb s.stack_size s.used) on_stopped
      (if-OnDone (ltb s.used s.stack_size) (on_done (omega arith)) on_outside)

pop_node-OnDone : (s : DataStack) → OnDone (λ r. r.1.used + 1 ≤ s.used + 0) (pop_node s)
unfolding pop_node
pop_node-OnDone s = elim (Bool-cases (s.used == 0)) [
  | inl e ↦ rw e on_outside
  | inr e ↦ rw e (on_done (ground (arith, e)))
]

-- The action takes at least `down` values off the stack, and puts at most `up` on it.
pub record Moves {W A : Type 0} (down up : ℕ) (m : Action W A) : Type 0 where
  pub from_ : (f : Frame W) → OnDone (λ r. r.1.stack.used + down ≤ f.stack.used + up) (m f)

module _ {W : Type 0} where
  and_then-OnDone :
      {A B : Type 0} {x : Access (A × Frame W)} {k : A → Action W B} (n d u : ℕ) {d' u' : ℕ}
      → OnDone (λ r. r.1.stack.used + d ≤ n + u) x
      → ((a : A) → Moves d' u' (k a))
      → OnDone (λ r. r.1.stack.used + (d + d') ≤ n + (u + u')) (and_then x k)
  and_then-OnDone n d u on_outside hk = on_outside
  and_then-OnDone n d u on_stopped hk = on_stopped
  and_then-OnDone n d u (on_done {a = a} h) hk =
      OnDone-map (λ r h'. omega (arith, h, h')) ((hk a.0).from_ a.1)

  pub Moves-bind :
      {A B : Type 0} {m : Action W A} {k : A → Action W B} {d u d' u' : ℕ}
      → Moves d u m
      → ((a : A) → Moves d' u' (k a))
      → Moves (d + d') (u + u') (m >>= k)
  Moves-bind {d = d} {u = u} hm hk = record {
    from_ = λ f. and_then-OnDone f.stack.used d u (hm.from_ f) hk;
  }

  pub Moves-next :
      {A B : Type 0} {m : Action W A} {n : Action W B} {d u d' u' : ℕ}
      → Moves d u m
      → Moves d' u' n
      → Moves (d + d') (u + u') (m >> n)
  Moves-next {d = d} {u = u} hm hn = record {
    from_ = λ f. and_then-OnDone f.stack.used d u (hm.from_ f) (λ _. hn);
  }

  pub Moves-weaken :
      {A : Type 0} {m : Action W A} {d u : ℕ} (d' u' : ℕ)
      → u + d' ≤ u' + d
      → Moves d u m
      → Moves d' u' m
  Moves-weaken d' u' le h = record {
    from_ = λ f. OnDone-map (λ r h'. omega (arith, le, h')) (h.from_ f);
  }

  pub give-Moves : {A : Type 0} (a : A) → Moves {W = W} 0 0 (give a)
  give-Moves a = record { from_ = λ f. on_done (omega arith) }

  pub skip-Moves : Moves {W = W} 0 0 skip
  skip-Moves = record { from_ = λ f. on_done (omega arith) }

  on_stack-OnDone :
      (f : Frame W) (n : ℕ) {x : Access DataStack}
      → OnDone (λ s. s.used + 0 ≤ n) x
      → OnDone (λ r. r.1.stack.used + 0 ≤ n) (on_stack f x)
  unfolding on_stack
  on_stack-OnDone f n (on_done h) = on_done h
  on_stack-OnDone f n on_outside = on_outside
  on_stack-OnDone f n on_stopped = on_stopped

  popped-OnDone :
      (f : Frame W) (n : ℕ) {x : Access (ℕ × DataStack)}
      → OnDone (λ r. r.1.used + 1 ≤ n) x
      → OnDone (λ r. r.1.stack.used + 1 ≤ n) (popped f x)
  unfolding popped
  popped-OnDone f n (on_done h) = on_done h
  popped-OnDone f n on_outside = on_outside
  popped-OnDone f n on_stopped = on_stopped

  seen-OnDone :
      (f : Frame W) (x : Access ℕ) → OnDone (λ r. r.1.stack.used + 0 ≤ f.stack.used + 0) (seen f x)
  unfolding seen
  seen-OnDone f (done v) = on_done (omega arith)
  seen-OnDone f outside = on_outside
  seen-OnDone f stopped = on_stopped

  pub push-Moves : (v : ℕ) → Moves {W = W} 0 1 (push v)
  unfolding push
  push-Moves v = record {
    from_ = λ f. on_stack-OnDone f (f.stack.used + 1) (push_node-OnDone f.stack v);
  }

  pub pop-Moves : Moves {W = W} 1 0 pop
  unfolding pop
  pop-Moves = record { from_ = λ f. popped-OnDone f (f.stack.used + 0) (pop_node-OnDone f.stack) }

  pub top-Moves : Moves {W = W} 0 0 top
  unfolding top
  top-Moves = record { from_ = λ f. seen-OnDone f (top_node f.stack) }

  pub second_top-Moves : Moves {W = W} 0 0 second_top
  unfolding second_top
  second_top-Moves = record {
    from_ = λ f. if-OnDone (ltb f.stack.used 2) on_outside (on_done (omega arith));
  }

  found-Moves : {A : Type 0} (o : Option A) → Moves {W = W} 0 0 (found o)
  unfolding found
  found-Moves none = record { from_ = λ f. on_outside }
  found-Moves (some a) = record { from_ = λ f. on_done (omega arith) }

  advance-Moves : (k : ℕ) → Moves {W = W} 0 0 (advance k)
  unfolding advance
  advance-Moves k = record { from_ = λ f. on_done (omega arith) }

  pub byte_operand-Moves : Moves {W = W} 0 0 byte_operand
  unfolding byte_operand
  byte_operand-Moves = record {
    from_ = λ f.
        (Moves-bind (found-Moves (get_elem? f.ops f.next))
            (λ b. Moves-next (advance-Moves 1) (give-Moves b))).from_
          f;
  }

  pub operand-Moves : Moves {W = W} 0 0 operand
  unfolding operand
  operand-Moves = Moves-bind byte_operand-Moves (λ a.
      Moves-bind byte_operand-Moves (λ b.
        Moves-bind byte_operand-Moves (λ c. Moves-bind byte_operand-Moves (λ d. give-Moves _))))

  pub name_operand-Moves : Moves {W = W} 0 0 name_operand
  unfolding name_operand
  name_operand-Moves =
      Moves-bind operand-Moves
        (λ idx. record { from_ = λ f. (found-Moves (get_elem? f.names idx)).from_ f })

  pub constant-Moves : (idx : ℕ) → Moves {W = W} 0 0 (constant idx)
  unfolding constant
  constant-Moves idx = record { from_ = λ f. (found-Moves (get_elem? f.constants idx)).from_ f }

  pub load_local-Moves : (idx : ℕ) → Moves {W = W} 0 0 (load_local idx)
  unfolding load_local
  load_local-Moves idx = record { from_ = λ f. (found-Moves (get_elem? f.locals idx)).from_ f }

  pub save_local-Moves : (idx v : ℕ) → Moves {W = W} 0 0 (save_local idx v)
  unfolding save_local
  save_local-Moves idx v = record {
    from_ = λ f. if-OnDone (ltb idx (length f.locals)) (on_done (omega arith)) on_outside;
  }

  pub goto-Moves : (idx : ℕ) → Moves {W = W} 0 0 (goto idx)
  unfolding goto
  goto-Moves idx = record { from_ = λ f. on_done (omega arith) }

  pub jump_to-Moves : (idx : ℕ) → Moves {W = W} 0 0 (jump_to idx)
  unfolding jump_to
  jump_to-Moves idx = record {
    from_ = λ f. if-OnDone (idx == 0) (on_done (omega arith)) (on_done (omega arith));
  }

  pub call-Moves : (g : W → Reply W) → Moves {W = W} 0 0 (call g)
  unfolding call
  call-Moves g = record { from_ = λ f. on_done (omega arith) }

  pub pop_args-Moves : (n : ℕ) → Moves {W = W} n 0 (pop_args n)
  unfolding pop_args
  pop_args-Moves zero = give-Moves []
  pop_args-Moves (suc n) =
      Moves-weaken (suc n) 0 (omega arith)
        (Moves-bind pop-Moves (λ v. Moves-bind (pop_args-Moves n) (λ vs. give-Moves (v ∷ vs))))

  pub set_ret-Moves : (v : ℕ) → Moves {W = W} 0 0 (set_ret v)
  unfolding set_ret
  set_ret-Moves v = record { from_ = λ f. on_done (omega arith) }

  pub push_catch-Moves : (idx : ℕ) → Moves {W = W} 0 0 (push_catch idx)
  unfolding push_catch
  push_catch-Moves idx = record {
    from_ = λ f.
        if-OnDone (ltb f.catch_pointer (length f.catch_stack)) (on_done (omega arith)) on_outside;
  }

  pub pop_catch-Moves : Moves {W = W} 0 0 pop_catch
  unfolding pop_catch
  pop_catch-Moves = record {
    from_ = λ f.
        if-OnDone (ltb f.catch_pointer (length f.catch_stack)) (on_done (omega arith)) on_outside;
  }
