-- ===== src/Compiler/Lines/Cells.antt =====
-- src/compiler/ast_compiler.c: every change of a `compiler_wrapper` keeps a line beside each cell.
use lanky.Prelude.{
  ℕ, ◌++◌, ◌&&◌, ◌||◌, not, sym, ◌∙◌, Bool, true, false, Option, none, some, List, [], ◌∷◌, ◌==◌,
  if◌then◌else◌, length, get_or, Bool-cases, inl, inr,
}
use lanky.HashMap
use lanky.HashTable.{bytes_equal}
use lanky.Compiler.{
  Cell, filler, op, CompilerWrapper, NameWrapper, State, append_cell, append_op, append_ops,
  name_at, slot_at, cell_is, append_with_int, append_with_tag, int_to_byte_array, find_name,
  next_if_tag, intern_name, is_close, write_ops, switch_to_close, level, at_level, scan_names,
  local_slot, close_var, local_var, append_with_name, append_var_info,
}
use lanky.Instructions.{li_load_local, li_load_close, li_save_close}
use lanky.Compiler.Kept.{Kept, append_cell-Kept, length-write_ops}
use lanky.Compiler.Lines.{AllLines, IsRecorded, AllRecorded, AreRecorded}

AllLines-append :
    (P : ℕ → Type 0) (xs ys : List ℕ) → AllLines P xs → AllLines P ys → AllLines P (xs ++ ys)
AllLines-append P [] ys h k = k
AllLines-append P (x ∷ xs) ys h k = (h.0, AllLines-append P xs ys h.1 k)

module _ {P : ℕ → Type 0} where
  pub append_cell-IsRecorded :
      (c : CompilerWrapper) (x : Cell) (line : ℕ)
      → P line
      → IsRecorded P c
      → IsRecorded P (append_cell c x line)
  unfolding append_cell
  append_cell-IsRecorded c x line p h = record {
    aligned = Kept.lines (append_cell-Kept c x line) h.aligned;
    known = AllLines-append P c.rindices (line ∷ []) h.known (p, tt);
    lined = h.lined;
  }

  pub append_op-IsRecorded :
      (c : CompilerWrapper) (ins line : ℕ)
      → P line
      → IsRecorded P c
      → IsRecorded P (append_op c ins line)
  unfolding append_op
  append_op-IsRecorded c ins line p h = append_cell-IsRecorded c (op ins) line p h

  pub append_ops-IsRecorded :
      (c : CompilerWrapper) (inss : List ℕ) (line : ℕ)
      → P line
      → IsRecorded P c
      → IsRecorded P (append_ops c inss line)
  unfolding append_ops
  append_ops-IsRecorded c [] line p h = h
  append_ops-IsRecorded c (ins ∷ inss) line p h =
      append_ops-IsRecorded (append_op c ins line) inss line p (append_op-IsRecorded c ins line p h)

  pub append_with_int-IsRecorded :
      (c : CompilerWrapper) (ins val line : ℕ)
      → P line
      → IsRecorded P c
      → IsRecorded P (append_with_int c ins val line)
  unfolding append_with_int
  append_with_int-IsRecorded c ins val line p h =
      append_ops-IsRecorded c (ins ∷ int_to_byte_array val) line p h

  pub fillers-IsRecorded :
      (c : CompilerWrapper) (line : ℕ)
      → P line
      → IsRecorded P c
      → IsRecorded P (append_cell (append_cell (append_cell c filler line) filler line) filler line)
  fillers-IsRecorded c line p h =
      append_cell-IsRecorded _ filler line p
        (append_cell-IsRecorded _ filler line p (append_cell-IsRecorded c filler line p h))

  pub append_with_tag-IsRecorded :
      (c : CompilerWrapper) (ins tag line : ℕ)
      → P line
      → IsRecorded P c
      → IsRecorded P (append_with_tag c ins tag line)
  unfolding append_with_tag
  append_with_tag-IsRecorded c ins tag line p h =
      fillers-IsRecorded _ line p
        (append_op-IsRecorded _ tag line p (append_op-IsRecorded c ins line p h))

  pub next_if_tag-IsRecorded :
      (c : CompilerWrapper) → IsRecorded P c → IsRecorded P (next_if_tag c).1
  unfolding next_if_tag
  next_if_tag-IsRecorded c h = record { aligned = h.aligned; known = h.known; lined = h.lined }

  name_at-IsRecorded :
      (c : CompilerWrapper) (name : List ℕ) (o : Option ℕ)
      → IsRecorded P c
      → IsRecorded P (name_at c name o).1
  unfolding name_at
  name_at-IsRecorded c name (some i) h = h
  name_at-IsRecorded c name none h = record {
    aligned = h.aligned;
    known = h.known;
    lined = h.lined;
  }

  pub intern_name-IsRecorded :
      (c : CompilerWrapper) (name : List ℕ) → IsRecorded P c → IsRecorded P (intern_name c name).1
  unfolding intern_name
  intern_name-IsRecorded c name h = name_at-IsRecorded c name (find_name c.rnames name 0) h

  -- writes over cells that are there
  write_ops-IsRecorded :
      (c : CompilerWrapper) (idx : ℕ) (ns : List ℕ)
      → IsRecorded P c
      → IsRecorded P (record c { rops = write_ops c.rops idx ns })
  write_ops-IsRecorded c idx ns h = record {
    aligned = h.aligned ∙ sym (length-write_ops c.rops idx ns);
    known = h.known;
    lined = h.lined;
  }

  pub switch_to_close-IsRecorded :
      (sid : List ℕ) (idx : ℕ) (c : CompilerWrapper)
      → IsRecorded P c
      → IsRecorded P (switch_to_close sid idx c)
  unfolding switch_to_close
  switch_to_close-IsRecorded sid idx c h = elim (Bool-cases (is_close c idx)) [
    | inl e ↦ rw e h
    | inr e ↦ rw e (
        write_ops-IsRecorded (intern_name c sid).1 idx
          ((if cell_is (get_or c.rops idx filler) li_load_local
              then li_load_close
              else li_save_close)
            ∷ int_to_byte_array (intern_name c sid).0)
          (intern_name-IsRecorded c sid h))
  ]

  at_level-IsRecorded :
      (f : CompilerWrapper → CompilerWrapper)
      → ((c : CompilerWrapper) → IsRecorded P c → IsRecorded P (f c))
      → (owner : ℕ) (cs : List CompilerWrapper) → AllRecorded P cs
      → AllRecorded P (at_level f owner cs)
  unfolding at_level
  at_level-IsRecorded f keep owner [] h = tt
  at_level-IsRecorded f keep owner (c ∷ cs) (h, hs) = elim (Bool-cases (length cs == owner)) [
    | inl e ↦ rw e (keep c h, hs)
    | inr e ↦ rw e (h, at_level-IsRecorded f keep owner cs hs)
  ]

  scan_names-AreRecorded :
      (ws : List NameWrapper) (ch : List ℕ) (s : State) (needs already : Bool)
      → AreRecorded P s
      → AreRecorded P (scan_names ws ch s needs already).0
  unfolding scan_names
  scan_names-AreRecorded [] ch s needs already h = h
  scan_names-AreRecorded (w ∷ ws) ch s needs already h = elim (Bool-cases (bytes_equal w.name ch)) [
    | inl e ↦ elim (Bool-cases (w.owner == level s)) [
      | inl own ↦ rw (e, own) (scan_names-AreRecorded ws ch s (is_close s.cw w.idx) true h)
      | inr other ↦
          rw (e, other)
            (scan_names-AreRecorded ws ch _ true already (record {
              running = h.running;
              around =
                  at_level-IsRecorded (switch_to_close w.name w.idx)
                    (switch_to_close-IsRecorded w.name w.idx) w.owner s.outer h.around;
            }))
    ]
    | inr e ↦ rw e (scan_names-AreRecorded ws ch s needs already h)
  ]

  slot_at-IsRecorded :
      (c : CompilerWrapper) (ch : List ℕ) (o : Option ℕ)
      → IsRecorded P c
      → IsRecorded P (slot_at c ch o).1
  unfolding slot_at
  slot_at-IsRecorded c ch (some i) h = h
  slot_at-IsRecorded c ch none h = record { aligned = h.aligned; known = h.known; lined = h.lined }

  local_var-IsRecorded :
      (owner : ℕ) (c : CompilerWrapper) (ch : List ℕ) (is_load : Bool) (line : ℕ)
      → P line
      → IsRecorded P c
      → IsRecorded P (local_var owner c ch is_load line)
  unfolding local_var local_slot
  local_var-IsRecorded owner c ch is_load line p h =
      let slot = slot_at-IsRecorded c ch (HashMap.get c.saved_locals ch) h in
      let h' = append_with_int-IsRecorded _ _ _ line p slot in
      record { aligned = h'.aligned; known = h'.known; lined = h'.lined }

  close_var-IsRecorded :
      (c : CompilerWrapper) (ch : List ℕ) (is_load : Bool) (line : ℕ)
      → P line
      → IsRecorded P c
      → IsRecorded P (close_var c ch is_load line)
  unfolding close_var append_with_name
  close_var-IsRecorded c ch is_load line p h =
      append_with_int-IsRecorded _ _ _ line p (intern_name-IsRecorded c ch h)

  pub append_var_info-AreRecorded :
      (s : State) (ch : List ℕ) (is_load : Bool) (line : ℕ)
      → P line
      → AreRecorded P s
      → AreRecorded P (append_var_info s ch is_load line)
  unfolding append_var_info
  append_var_info-AreRecorded s ch is_load line p h =
      let scan = scan_names s.cw.used_names ch s s.cw.repl false in
      let scanned = scan_names-AreRecorded s.cw.used_names ch s s.cw.repl false h in
      elim (Bool-cases (scan.1.0 || (not scan.1.1 && is_load))) [
        | inl e ↦
            rw (append_var_info, e)
              (record {
                running = close_var-IsRecorded scan.0.cw ch is_load line p scanned.running;
                around = scanned.around;
              })
        | inr e ↦
            rw (append_var_info, e)
              (record {
                running =
                    local_var-IsRecorded (level s) scan.0.cw ch is_load line p scanned.running;
                around = scanned.around;
              })
      ]
