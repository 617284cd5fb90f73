-- ===== src/Compiler/Kept.antt =====
-- src/compiler/ast_compiler.c: what every change of a `compiler_wrapper` keeps.
use lanky.Prelude.{
  ℕ, suc, set, get_or, ◌&&◌, ◌||◌, not, ◌≤◌, ◌≡◌, refl, ap, ◌∙◌, Bool, true, false, Option, none,
  some, List, [], ◌∷◌, ◌==◌, if◌then◌else◌, length, length-append, length-set, Bool-cases, inl, inr,
  arith,
}
use lanky.HashMap
use lanky.HashTable.{bytes_equal}
use lanky.Compiler.{
  Cell, filler, op, CompilerWrapper, NameWrapper, State, append_cell, append_op, append_ops,
  name_at, slot_at, cell_is, append_with_int, append_with_tag, int_to_byte_array, find_name,
  next_if_tag, intern_name, is_close, write_ops, switch_to_close, level, at_level, scan_names,
  local_slot, close_var, local_var, append_with_name, append_var_info,
}
use lanky.Instructions.{li_load_local, li_load_close, li_save_close}

-- The loops that enclose the current place are the same, a tag that was given is not given again, a
-- slot of a local stays, no cell is taken back, and each cell has its line.
pub record Kept (c c' : CompilerWrapper) : Type 0 where
  pub starts : c'.loop_start_stack ≡ c.loop_start_stack
  pub ends : c'.loop_end_stack ≡ c.loop_end_stack
  pub tags : c.if_tag ≤ c'.if_tag
  pub locals : c.local_idx ≤ c'.local_idx
  pub cells : length c.rops ≤ length c'.rops
  pub lines : length c.rindices ≡ length c.rops → length c'.rindices ≡ length c'.rops

pub data KeptAll : List CompilerWrapper → List CompilerWrapper → Type 0 where
  kept_nil : KeptAll [] []
  kept_cons :
      {c c' : CompilerWrapper} {cs cs' : List CompilerWrapper}
      → Kept c c'
      → KeptAll cs cs'
      → KeptAll (c ∷ cs) (c' ∷ cs')

-- of the compilation that runs and of the ones around it
pub record Extends (s s' : State) : Type 0 where
  pub running : Kept s.cw s'.cw
  pub around : KeptAll s.outer s'.outer

pub Kept-refl : (c : CompilerWrapper) → Kept c c
Kept-refl c = record {
  starts = refl;
  ends = refl;
  tags = omega arith;
  locals = omega arith;
  cells = omega arith;
  lines = λ h. h;
}

pub Kept-trans : {a b c : CompilerWrapper} → Kept a b → Kept b c → Kept a c
Kept-trans h k = record {
  starts = k.starts ∙ h.starts;
  ends = k.ends ∙ h.ends;
  tags = omega (arith, h.tags, k.tags);
  locals = omega (arith, h.locals, k.locals);
  cells = omega (arith, h.cells, k.cells);
  lines = λ e. k.lines (h.lines e);
}

-- a change of other fields
pub Kept-same :
    {c c' : CompilerWrapper}
    → c'.loop_start_stack ≡ c.loop_start_stack
    → c'.loop_end_stack ≡ c.loop_end_stack
    → c'.if_tag ≡ c.if_tag
    → c'.local_idx ≡ c.local_idx
    → c'.rops ≡ c.rops
    → c'.rindices ≡ c.rindices
    → Kept c c'
Kept-same e1 e2 e3 e4 e5 e6 =
    let more_cells = ap length e5 in
    let more_lines = ap length e6 in
    record {
      starts = e1;
      ends = e2;
      tags = omega (arith, e3);
      locals = omega (arith, e4);
      cells = omega (arith, more_cells);
      lines = λ h. omega (arith, more_cells, more_lines, h);
    }

pub KeptAll-refl : (cs : List CompilerWrapper) → KeptAll cs cs
KeptAll-refl [] = kept_nil
KeptAll-refl (c ∷ cs) = kept_cons (Kept-refl c) (KeptAll-refl cs)

pub KeptAll-trans :
    {xs ys zs : List CompilerWrapper} → KeptAll xs ys → KeptAll ys zs → KeptAll xs zs
KeptAll-trans kept_nil kept_nil = kept_nil
KeptAll-trans (kept_cons h hs) (kept_cons k ks) = kept_cons (Kept-trans h k) (KeptAll-trans hs ks)

pub Extends-refl : (s : State) → Extends s s
Extends-refl s = record { running = Kept-refl s.cw; around = KeptAll-refl s.outer }

pub Extends-trans : {a b c : State} → Extends a b → Extends b c → Extends a c
Extends-trans h k = record {
  running = Kept-trans h.running k.running;
  around = KeptAll-trans h.around k.around;
}

-- a change of the running compilation only
pub Extends-cw : (s : State) {c : CompilerWrapper} → Kept s.cw c → Extends s (record s { cw = c })
Extends-cw s h = record { running = h; around = KeptAll-refl s.outer }

pub append_cell-Kept : (c : CompilerWrapper) (x : Cell) (line : ℕ) → Kept c (append_cell c x line)
unfolding append_cell
append_cell-Kept c x line =
    let more_cells = length-append c.rops (x ∷ []) in
    let more_lines = length-append c.rindices (line ∷ []) in
    record {
      starts = refl;
      ends = refl;
      tags = omega arith;
      locals = omega arith;
      cells = omega (arith, more_cells);
      lines = λ h. omega (arith, more_cells, more_lines, h);
    }

pub append_op-Kept : (c : CompilerWrapper) (ins line : ℕ) → Kept c (append_op c ins line)
unfolding append_op
append_op-Kept c ins line = append_cell-Kept c (op ins) line

pub append_ops-Kept :
    (c : CompilerWrapper) (inss : List ℕ) (line : ℕ) → Kept c (append_ops c inss line)
unfolding append_ops
append_ops-Kept c [] line = Kept-refl c
append_ops-Kept c (ins ∷ inss) line =
    Kept-trans (append_op-Kept c ins line) (append_ops-Kept (append_op c ins line) inss line)

pub append_with_int-Kept :
    (c : CompilerWrapper) (ins val line : ℕ) → Kept c (append_with_int c ins val line)
unfolding append_with_int
append_with_int-Kept c ins val line = append_ops-Kept c (ins ∷ int_to_byte_array val) line

pub append_with_tag-Kept :
    (c : CompilerWrapper) (ins tag line : ℕ) → Kept c (append_with_tag c ins tag line)
unfolding append_with_tag
append_with_tag-Kept c ins tag line = Kept-trans (append_op-Kept c ins line) (
    Kept-trans (append_op-Kept _ tag line) (
      Kept-trans (append_cell-Kept _ filler line)
        (Kept-trans (append_cell-Kept _ filler line) (append_cell-Kept _ filler line))))

pub next_if_tag-Kept : (c : CompilerWrapper) → Kept c (next_if_tag c).1
unfolding next_if_tag
next_if_tag-Kept c = record {
  starts = refl;
  ends = refl;
  tags = omega arith;
  locals = omega arith;
  cells = omega arith;
  lines = λ h. h;
}

name_at-Kept : (c : CompilerWrapper) (name : List ℕ) (o : Option ℕ) → Kept c (name_at c name o).1
unfolding name_at
name_at-Kept c name (some i) = Kept-refl c
name_at-Kept c name none = Kept-same refl refl refl refl refl refl

pub intern_name-Kept : (c : CompilerWrapper) (name : List ℕ) → Kept c (intern_name c name).1
unfolding intern_name
intern_name-Kept c name = name_at-Kept c name (find_name c.rnames name 0)

pub append_with_name-Kept :
    (c : CompilerWrapper) (ins : ℕ) (name : List ℕ) (line : ℕ)
    → Kept c (append_with_name c ins name line)
unfolding append_with_name
append_with_name-Kept c ins name line =
    Kept-trans (intern_name-Kept c name) (append_with_int-Kept _ ins _ line)

pub length-write_ops :
    (cells : List Cell) (idx : ℕ) (ns : List ℕ) → length (write_ops cells idx ns) ≡ length cells
unfolding write_ops
length-write_ops cells idx [] = refl
length-write_ops cells idx (n ∷ ns) =
    length-write_ops (set cells idx (op n)) (suc idx) ns ∙ length-set cells idx (op n)

-- writes over cells that are there
write_ops-Kept :
    (c : CompilerWrapper) (idx : ℕ) (ns : List ℕ)
    → Kept c (record c { rops = write_ops c.rops idx ns })
write_ops-Kept c idx ns =
    let same = length-write_ops c.rops idx ns in
    record {
      starts = refl;
      ends = refl;
      tags = omega arith;
      locals = omega arith;
      cells = omega (arith, same);
      lines = λ h. omega (arith, same, h);
    }

pub switch_to_close-Kept :
    (sid : List ℕ) (idx : ℕ) (c : CompilerWrapper) → Kept c (switch_to_close sid idx c)
unfolding switch_to_close
switch_to_close-Kept sid idx c = elim (Bool-cases (is_close c idx)) [
  | inl e ↦ rw e (Kept-refl c)
  | inr e ↦ rw e (
      Kept-trans (intern_name-Kept c sid) (
        write_ops-Kept (intern_name c sid).1 idx (
          (if cell_is (get_or c.rops idx filler) li_load_local
            then li_load_close
            else li_save_close)
          ∷ int_to_byte_array (intern_name c sid).0)))
]

at_level-Kept :
    (f : CompilerWrapper → CompilerWrapper)
    → ((c : CompilerWrapper) → Kept c (f c))
    → (owner : ℕ) (cs : List CompilerWrapper) → KeptAll cs (at_level f owner cs)
unfolding at_level
at_level-Kept f h owner [] = kept_nil
at_level-Kept f h owner (c ∷ cs) = elim (Bool-cases (length cs == owner)) [
  | inl e ↦ rw e (kept_cons (h c) (KeptAll-refl cs))
  | inr e ↦ rw e (kept_cons (Kept-refl c) (at_level-Kept f h owner cs))
]

scan_names-Extends :
    (ws : List NameWrapper) (ch : List ℕ) (s : State) (needs already : Bool)
    → Extends s (scan_names ws ch s needs already).0
unfolding scan_names
scan_names-Extends [] ch s needs already = Extends-refl s
scan_names-Extends (w ∷ ws) ch s needs already = elim (Bool-cases (bytes_equal w.name ch)) [
  | inl e ↦ elim (Bool-cases (w.owner == level s)) [
    | inl own ↦ rw (e, own) (scan_names-Extends ws ch s (is_close s.cw w.idx) true)
    | inr other ↦
        rw (e, other)
          (Extends-trans
            (record {
              running = Kept-refl s.cw;
              around =
                  at_level-Kept (switch_to_close w.name w.idx) (switch_to_close-Kept w.name w.idx)
                    w.owner s.outer;
            })
            (scan_names-Extends ws ch _ true already))
  ]
  | inr e ↦ rw e (scan_names-Extends ws ch s needs already)
]

slot_at-Kept : (c : CompilerWrapper) (ch : List ℕ) (o : Option ℕ) → Kept c (slot_at c ch o).1
unfolding slot_at
slot_at-Kept c ch (some i) = Kept-refl c
slot_at-Kept c ch none = record {
  starts = refl;
  ends = refl;
  tags = omega arith;
  locals = omega arith;
  cells = omega arith;
  lines = λ h. h;
}

local_slot-Kept : (c : CompilerWrapper) (ch : List ℕ) → Kept c (local_slot c ch).1
unfolding local_slot
local_slot-Kept c ch = slot_at-Kept c ch (HashMap.get c.saved_locals ch)

local_var-Kept :
    (owner : ℕ) (c : CompilerWrapper) (ch : List ℕ) (is_load : Bool) (line : ℕ)
    → Kept c (local_var owner c ch is_load line)
unfolding local_var
local_var-Kept owner c ch is_load line =
    Kept-trans (local_slot-Kept c ch)
      (Kept-trans (append_with_int-Kept _ _ _ line) (Kept-same refl refl refl refl refl refl))

close_var-Kept :
    (c : CompilerWrapper) (ch : List ℕ) (is_load : Bool) (line : ℕ)
    → Kept c (close_var c ch is_load line)
unfolding close_var
close_var-Kept c ch is_load line = append_with_name-Kept c _ ch line

pub append_var_info-Extends :
    (s : State) (ch : List ℕ) (is_load : Bool) (line : ℕ)
    → Extends s (append_var_info s ch is_load line)
unfolding append_var_info
append_var_info-Extends s ch is_load line =
    let scan = scan_names s.cw.used_names ch s s.cw.repl false in
    let scanned = scan_names-Extends s.cw.used_names ch s s.cw.repl false in
    elim (Bool-cases (scan.1.0 || (not scan.1.1 && is_load))) [
      | inl e ↦
          rw (append_var_info, e)
            (Extends-trans scanned (Extends-cw scan.0 (close_var-Kept scan.0.cw ch is_load line)))
      | inr e ↦
          rw (append_var_info, e)
            (Extends-trans scanned
              (Extends-cw scan.0 (local_var-Kept (level s) scan.0.cw ch is_load line)))
    ]
