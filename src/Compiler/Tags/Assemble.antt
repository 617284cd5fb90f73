-- ===== src/Compiler/Tags/Assemble.antt =====
-- src/compiler/ast_compiler.c: what `replace_tags` is meant to do. Code is a list of bytes, of jumps to a
-- tag, and of the places where a tag is appended; a jump gets the position of the place that follows it.
use lanky.Prelude.{
  ℕ, suc, ◌≡◌, refl, ◌∙◌, ap, Bool, true, false, Option, none, some, List, [], ◌∷◌, ◌++◌, map, ◌<◌,
  ◌≤◌, ltb, ◌==◌, ==→eq, if◌then◌else◌, Bool-cases, Option-cases, inl, inr, arith,
}
use lanky.Compiler.{Cell, filler, op, int_to_byte_array, write_ops}
use lanky.Compiler.Tags.{
  TagNode, get_line, append_tag, replace_seen, replace_tag, replace_from, replace_tags,
}
use lanky.Instructions.{li_ignore}

pub data Item : Type 0 where
  byte : ℕ → Item
  jump : ℕ → Item
  label : ℕ → Item

-- the cells that the compiler appends
abbrev pub cells_of : List Item → List Cell
cells_of [] = []
cells_of (byte n ∷ items) = op n ∷ cells_of items
cells_of (jump t ∷ items) = op t ∷ filler ∷ filler ∷ filler ∷ cells_of items
cells_of (label t ∷ items) = op t ∷ cells_of items

abbrev pub labelled : List Item → ℕ → Bool
labelled [] t = false
labelled (byte n ∷ items) t = labelled items t
labelled (jump u ∷ items) t = labelled items t
labelled (label u ∷ items) t = if u == t then true else labelled items t

-- A tag is more than 999 and nothing else is; a jump goes forward, and a tag has one place.
abbrev pub IsTagged : List Item → Type 0
IsTagged [] = Unit {0}
IsTagged (byte n ∷ items) = (n ≤ 999) × IsTagged items
IsTagged (jump t ∷ items) = (999 < t) × (labelled items t ≡ true) × IsTagged items
IsTagged (label t ∷ items) = (999 < t) × (labelled items t ≡ false) × IsTagged items

-- the position of a tag, in code that starts at a position
abbrev pub address : List Item → ℕ → ℕ → Option ℕ
address [] t i = none
address (byte n ∷ items) t i = address items t (suc i)
address (jump u ∷ items) t i = address items t (suc (suc (suc (suc i))))
address (label u ∷ items) t i = if u == t then some i else address items t (suc i)

abbrev pub jump_bytes : Option ℕ → List Cell
jump_bytes none = []
jump_bytes (some p) = map op (int_to_byte_array p)

-- the code with its jumps, from a position on
abbrev pub resolve : ℕ → List Item → List Cell
resolve i [] = []
resolve i (byte n ∷ items) = op n ∷ resolve (suc i) items
resolve i (jump t ∷ items) =
    let next = suc (suc (suc (suc i))) in jump_bytes (address items t next) ++ resolve next items
resolve i (label t ∷ items) = op li_ignore ∷ resolve (suc i) items

-- the tags that the loop has found
abbrev tags_of : ℕ → List Item → List TagNode
tags_of i [] = []
tags_of i (byte n ∷ items) = tags_of (suc i) items
tags_of i (jump t ∷ items) = tags_of (suc (suc (suc (suc i)))) items
tags_of i (label t ∷ items) = append_tag (tags_of (suc i) items) t i

get_line-append_tag :
    (nodes : List TagNode) (u line t : ℕ)
    → get_line (append_tag nodes u line) t
      ≡ elim (get_line nodes t) [ some x ↦ some x | none ↦ if u == t then some line else none ]
unfolding get_line append_tag
get_line-append_tag [] u line t = refl
get_line-append_tag (n ∷ nodes) u line t = elim (Bool-cases (n.tag == t)) [
  | inl e ↦ rw e refl
  | inr e ↦ rw e (get_line-append_tag nodes u line t)
]

unlabelled-address :
    (items : List Item) (t i : ℕ) → labelled items t ≡ false → address items t i ≡ none
unlabelled-address [] t i h = refl
unlabelled-address (byte n ∷ items) t i h = unlabelled-address items t (suc i) h
unlabelled-address (jump u ∷ items) t i h = unlabelled-address items t _ h
unlabelled-address (label u ∷ items) t i h = elim (Bool-cases (u == t)) [
  | inl e ↦ ground (arith, h, e)
  | inr e ↦ ground (arith, h, e, unlabelled-address items t (suc i))
]

labelled-address :
    (items : List Item) (t i : ℕ) → labelled items t ≡ true → (p : ℕ) × (address items t i ≡ some p)
labelled-address [] t i h = cc
labelled-address (byte n ∷ items) t i h = labelled-address items t (suc i) h
labelled-address (jump u ∷ items) t i h = labelled-address items t _ h
labelled-address (label u ∷ items) t i h = elim (Bool-cases (u == t)) [
  | inl e ↦ rw e (i, refl)
  | inr e ↦ ground (arith, h, e, labelled-address items t (suc i))
]

-- the tag that is placed here, or the one that is found behind
first-address :
    (items : List Item) (u t i : ℕ)
    → labelled items u ≡ false
    → elim (address items t (suc i)) [ some x ↦ some x | none ↦ if u == t then some i else none ]
      ≡ address (label u ∷ items) t i
first-address items u t i once = elim (Bool-cases (u == t)) [
  | inl e ↦
      let gone = unlabelled-address items t (suc i) (rw⁻¹ (==→eq u t e) once) in rw (gone, e) refl
  | inr e ↦ elim (Option-cases (address items t (suc i))) [
    | inl none_there ↦ rw (none_there, e) refl
    | inr (p, there) ↦ rw (there, e) refl
  ]
]

get_line-tags_of :
    (items : List Item) (t i : ℕ)
    → IsTagged items
    → get_line (tags_of i items) t ≡ address items t i
unfolding get_line
get_line-tags_of [] t i h = refl
get_line-tags_of (byte n ∷ items) t i (_, h) = get_line-tags_of items t (suc i) h
get_line-tags_of (jump u ∷ items) t i (_, _, h) = get_line-tags_of items t _ h
get_line-tags_of (label u ∷ items) t i (_, once, h) =
    get_line-append_tag (tags_of (suc i) items) u i t
    ∙ rw (get_line-tags_of items t (suc i) h) (first-address items u t i once)

small-replace_tag :
    (i n : ℕ) (tags : List TagNode) (done : List Cell)
    → n ≤ 999
    → replace_tag i n (tags, done) ≡ (tags, op n ∷ done)
unfolding replace_tag
small-replace_tag i n tags done h = let e : ltb 999 n ≡ false = ground arith in rw e refl

tag-replace_tag :
    (i n : ℕ) (tags : List TagNode) (done : List Cell)
    → 999 < n
    → replace_tag i n (tags, done) ≡ replace_seen (get_line tags n) i n (tags, done)
unfolding replace_tag
tag-replace_tag i n tags done h = let e : ltb 999 n ≡ true = ground arith in rw e refl

replace_from-resolve :
    (items : List Item) (i : ℕ)
    → IsTagged items
    → replace_from i (cells_of items) ≡ (tags_of i items, resolve i items)
unfolding replace_from replace_seen write_ops
replace_from-resolve [] i h = refl
replace_from-resolve (byte n ∷ items) i (small, h) =
    rw (replace_from-resolve items (suc i) h) (small-replace_tag i n _ _ small)
replace_from-resolve (jump t ∷ items) i (big, found, h) =
    let next = suc (suc (suc (suc i))) in
    let (p, e) = labelled-address items t next found in
    rw
      (
        replace_from-resolve items next h,
        tag-replace_tag i t (tags_of next items) (filler ∷ filler ∷ filler ∷ resolve next items)
            big,
        get_line-tags_of items t next h,
        e,
      )
      refl
replace_from-resolve (label t ∷ items) i (big, once, h) =
    rw
      (
        replace_from-resolve items (suc i) h,
        tag-replace_tag i t (tags_of (suc i) items) (resolve (suc i) items) big,
        get_line-tags_of items t (suc i) h,
        unlabelled-address items t (suc i) once,
      )
      refl

-- In code whose jumps go forward to tags that are placed once, `replace_tags` gives each jump the four
-- bytes of the position of its tag, puts the instruction that does nothing there, and keeps the rest.
pub replace_tags-resolve :
    (items : List Item) → IsTagged items → replace_tags (cells_of items) ≡ resolve 0 items
unfolding replace_tags
replace_tags-resolve items h = ap (λ r. r.1) (replace_from-resolve items 0 h)
