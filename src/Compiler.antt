-- ===== src/Compiler.antt =====
-- src/compiler/ast_compiler.c: the state of the compiler and what it appends to the running lists.
pub mod Ast
pub mod Objects
mod Emit
mod Tags
mod Function
mod Shapes
pub mod Compile
mod Kept
mod Lines
mod Steps
pub mod Placed
mod Anywhere
mod FunctionSteps
mod ShapeSteps
mod Returns
mod Programs
mod Tests
use lanky.Prelude.{
  ℕ, zero, suc, ◌+◌, ◌-◌, ◌*◌, ◌/◌, ◌%◌, ◌^◌, Bool, true, false, ◌&&◌, ◌||◌, not, Option, none,
  some, List, [], ◌∷◌, ◌++◌, ltb, ◌==◌, if◌then◌else◌, length, get_or, set, ◌>>=◌,
}
use lanky.HashTable.{bytes_equal}
use lanky.HashMap
use lanky.HashMap.{HashMap}
use lanky.Compiler.Objects.{Object}
use lanky.Instructions.{li_load_local, li_save_local, li_load_close, li_save_close}

-- a `long` of `rops`: -1, an instruction or a byte, or (from 1000 on) a tag
pub data Cell : Type 0 where
  filler : Cell
  op : ℕ → Cell

-- `name_wrapper`; an owner is how many compilations enclose it.
pub record NameWrapper : Type 0 where
  pub owner : ℕ
  pub name : List ℕ
  pub idx : ℕ

-- `compiler_wrapper`; a loop stack has its latest tag first. A local is the number that
-- `saved_locals` has for its name.
pub record CompilerWrapper : Type 0 where
  pub rops : List Cell
  pub rcon : List Object
  pub rnames : List (List ℕ)
  pub loop_start_stack : List ℕ
  pub loop_end_stack : List ℕ
  pub saved_locals : HashMap
  pub save_val : Bool
  pub local_idx : ℕ
  pub if_tag : ℕ
  pub used_names : List NameWrapper
  pub rindices : List ℕ
  pub repl : Bool

-- The compilation that is running and the ones around it, the nearest first.
pub record State : Type 0 where
  pub cw : CompilerWrapper
  pub outer : List CompilerWrapper

-- the two lists grow together
pub append_cell : CompilerWrapper → Cell → ℕ → CompilerWrapper
append_cell cw c line = record cw { rops = cw.rops ++ c ∷ []; rindices = cw.rindices ++ line ∷ [] }

pub append_op : CompilerWrapper → ℕ → ℕ → CompilerWrapper
unfolding append_cell
append_op cw ins line = append_cell cw (op ins) line

-- `int_to_byte_array`: the lowest byte first
pub int_to_byte_array : ℕ → List ℕ
int_to_byte_array val = val % 256 ∷ val / 2 ^ 8 % 256 ∷ val / 2 ^ 16 % 256 ∷ val / 2 ^ 24 % 256 ∷ []

pub append_ops : CompilerWrapper → List ℕ → ℕ → CompilerWrapper
unfolding append_op
append_ops cw [] line = cw
append_ops cw (ins ∷ inss) line = append_ops (append_op cw ins line) inss line

-- an instruction and the four bytes of its operand
pub append_with_int : CompilerWrapper → ℕ → ℕ → ℕ → CompilerWrapper
unfolding append_ops int_to_byte_array
append_with_int cw ins val line = append_ops cw (ins ∷ int_to_byte_array val) line

-- an instruction and a tag, with three more cells for the bytes that replace it
pub append_with_tag : CompilerWrapper → ℕ → ℕ → ℕ → CompilerWrapper
unfolding append_op append_cell
append_with_tag cw ins tag line =
    let c₁ = append_op (append_op cw ins line) tag line in
    append_cell (append_cell (append_cell c₁ filler line) filler line) filler line

-- `next_if_tag`
pub next_if_tag : CompilerWrapper → ℕ × CompilerWrapper
next_if_tag cw = (cw.if_tag, record cw { if_tag = cw.if_tag + 1 })

pub find_name : List (List ℕ) → List ℕ → ℕ → Option ℕ
find_name [] name i = none
find_name (n ∷ ns) name i = if bytes_equal name n then some i else find_name ns name (suc i)

-- a name that was found, or a new one at the end
pub name_at : CompilerWrapper → List ℕ → Option ℕ → ℕ × CompilerWrapper
name_at cw name (some i) = (i, cw)
name_at cw name none = (length cw.rnames, record cw { rnames = cw.rnames ++ name ∷ [] })

-- `find_prev_name`, and a new name if there is none
pub intern_name : CompilerWrapper → List ℕ → ℕ × CompilerWrapper
unfolding find_name name_at
intern_name cw name = name_at cw name (find_name cw.rnames name 0)

pub append_with_name : CompilerWrapper → ℕ → List ℕ → ℕ → CompilerWrapper
unfolding intern_name append_with_int
append_with_name cw ins name line =
    let (idx, cw') = intern_name cw name in append_with_int cw' ins idx line

pub cell_is : Cell → ℕ → Bool
cell_is filler n = false
cell_is (op m) n = m == n

pub is_close : CompilerWrapper → ℕ → Bool
unfolding cell_is
is_close cw idx =
    let c = get_or cw.rops idx filler in cell_is c li_load_close || cell_is c li_save_close

-- writes to `rops.items` from an index on
pub write_ops : List Cell → ℕ → List ℕ → List Cell
write_ops cells idx [] = cells
write_ops cells idx (n ∷ ns) = write_ops (set cells idx (op n)) (suc idx) ns

pub switch_to_close : List ℕ → ℕ → CompilerWrapper → CompilerWrapper
unfolding is_close intern_name write_ops int_to_byte_array cell_is
switch_to_close sid idx cw =
    let istr =
      if cell_is (get_or cw.rops idx filler) li_load_local then li_load_close else li_save_close in
    let (i, cw') = intern_name cw sid in
    if is_close cw idx
    then cw
    else record cw' { rops = write_ops cw'.rops idx (istr ∷ int_to_byte_array i) }

pub level : State → ℕ
level s = length s.outer

pub at_level : (CompilerWrapper → CompilerWrapper) → ℕ → List CompilerWrapper → List CompilerWrapper
at_level f owner [] = []
at_level f owner (c ∷ cs) = if length cs == owner then f c ∷ cs else c ∷ at_level f owner cs

-- a change of the compilation that owns a name
pub at_owner : (CompilerWrapper → CompilerWrapper) → ℕ → State → State
unfolding at_level level
at_owner f owner s =
    if owner == level s
    then record s { cw = f s.cw }
    else record s { outer = at_level f owner s.outer }

-- the loop of `append_var_info` with its two flags, over the names that were there before it
pub scan_names : List NameWrapper → List ℕ → State → Bool → Bool → State × (Bool × Bool)
unfolding at_owner switch_to_close is_close
scan_names [] ch s needs_close already_defined = (s, (needs_close, already_defined))
scan_names (w ∷ ws) ch s needs_close already_defined =
    let other =
      scan_names ws ch (at_owner (switch_to_close w.name w.idx) w.owner s) true already_defined in
    let own = scan_names ws ch s (is_close s.cw w.idx) true in
    let next = scan_names ws ch s needs_close already_defined in
    if bytes_equal w.name ch then (if w.owner == level s then own else other) else next

-- the slot of a local that was found, or the next one
pub slot_at : CompilerWrapper → List ℕ → Option ℕ → ℕ × CompilerWrapper
unfolding HashMap.put
slot_at cw ch (some idx) = (idx, cw)
slot_at cw ch none = (
  cw.local_idx,
  record cw {
    saved_locals = HashMap.put cw.saved_locals ch cw.local_idx;
    local_idx = cw.local_idx + 1;
  },
)

pub local_slot : CompilerWrapper → List ℕ → ℕ × CompilerWrapper
unfolding slot_at HashMap.get
local_slot cw ch = slot_at cw ch (HashMap.get cw.saved_locals ch)

-- the variable by its name, in the closure
pub close_var : CompilerWrapper → List ℕ → Bool → ℕ → CompilerWrapper
unfolding append_with_name
close_var cw ch is_load line =
    append_with_name cw (if is_load then li_load_close else li_save_close) ch line

add_used : NameWrapper → CompilerWrapper → CompilerWrapper
add_used wrap cw = record cw { used_names = cw.used_names ++ wrap ∷ [] }

-- the variable by its slot, and where it is used
pub local_var : ℕ → CompilerWrapper → List ℕ → Bool → ℕ → CompilerWrapper
unfolding local_slot append_with_int add_used
local_var owner cw ch is_load line =
    let (idx, cw') = local_slot cw ch in
    let c = append_with_int cw' (if is_load then li_load_local else li_save_local) idx line in
    add_used (record { owner = owner; name = ch; idx = length c.rops - 5 }) c

pub append_var_info : State → List ℕ → Bool → ℕ → State
unfolding scan_names close_var local_var level
append_var_info s ch is_load line =
    let (s', (needs, already)) = scan_names s.cw.used_names ch s s.cw.repl false in
    let close = needs || (not already && is_load) in
    if close
    then record s' { cw = close_var s'.cw ch is_load line }
    else record s' { cw = local_var (level s) s'.cw ch is_load line }
