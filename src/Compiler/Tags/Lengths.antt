-- ===== src/Compiler/Tags/Lengths.antt =====
-- src/compiler/ast_compiler.c: no cell is lost between the running list and the bytes.
use lanky.Prelude.{
  ℕ, ◌≡◌, refl, ◌∙◌, ap, Option, none, some, List, [], ◌∷◌, length, Bool-cases, inl, inr, ltb, suc,
}
use lanky.Compiler.{Cell, filler, op, int_to_byte_array}
use lanky.Compiler.Kept.{length-write_ops}
use lanky.Compiler.Tags.{
  TagNode, get_line, replace_seen, replace_tag, replace_from, replace_tags, finalize_ops,
}

length-replace_seen :
    (o : Option ℕ) (i n : ℕ) (r : List TagNode × List Cell)
    → length (replace_seen o i n r).1 ≡ suc (length r.1)
unfolding replace_seen
length-replace_seen none i n (tags, done) = refl
length-replace_seen (some line) i n (tags, done) =
    length-write_ops (op n ∷ done) 0 (int_to_byte_array line)

length-replace_tag :
    (i n : ℕ) (r : List TagNode × List Cell) → length (replace_tag i n r).1 ≡ suc (length r.1)
unfolding replace_tag
length-replace_tag i n (tags, done) = elim (Bool-cases (ltb 999 n)) [
  | inl e ↦ rw e (length-replace_seen (get_line tags n) i n (tags, done))
  | inr e ↦ rw e refl
]

length-replace_from : (i : ℕ) (cells : List Cell) → length (replace_from i cells).1 ≡ length cells
unfolding replace_from
length-replace_from i [] = refl
length-replace_from i (filler ∷ cells) = ap suc (length-replace_from (suc i) cells)
length-replace_from i (op n ∷ cells) =
    length-replace_tag i n (replace_from (suc i) cells) ∙ ap suc (length-replace_from (suc i) cells)

pub length-replace_tags : (cells : List Cell) → length (replace_tags cells) ≡ length cells
unfolding replace_tags
length-replace_tags cells = length-replace_from 0 cells

pub length-finalize_ops : (cells : List Cell) → length (finalize_ops cells) ≡ length cells
unfolding finalize_ops
length-finalize_ops [] = refl
length-finalize_ops (c ∷ cells) = ap suc (length-finalize_ops cells)
