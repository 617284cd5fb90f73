-- ===== src/ArrayList/Edit.antt =====
-- arr_append, arr_insert and remove_at_index of src/interpreter/arraylist.c, item by item.
use lanky.Prelude.{
  ℕ, zero, suc, ◌+◌, ◌-◌, ◌*◌, ◌<◌, ◌≤◌, ◌≡◌, ◌∙◌, refl, ◌&&◌, ◌||◌, not, some, List, [], ◌∷◌, ◌++◌,
  ltb, ◌==◌, if◌then◌else◌, inl, inr, length, get_or, set, replicate, length-append, length-set,
  length-replicate, get_or-set, Bool-cases, arith,
}
use lanky.ArrayList.{
  ArrayList, create, manage_size, append, shift_up, insert, get, shift_down, remove_at_index,
}

pub record IsValid (a : ArrayList) : Type 0 where
  pub memory : length a.items ≡ a.allocated
  pub bound : a.count ≤ a.allocated

pub create-IsValid : (n : ℕ) → IsValid (create n)
unfolding create
create-IsValid n = record { memory = length-replicate n 0; bound = omega arith }

pub get_or-append : (xs ys : List ℕ) (j : ℕ) → j < length xs → get_or (xs ++ ys) j 0 ≡ get_or xs j 0
get_or-append [] ys j h = absurd (omega arith)
get_or-append (x ∷ xs) ys zero h = refl
get_or-append (x ∷ xs) ys (suc j) h = get_or-append xs ys j (omega arith)

-- the items stay, and there is room for one more
record Managed (a b : ArrayList) : Type 0 where
  valid : IsValid b
  room : b.count < b.allocated
  counts : b.count ≡ a.count
  reads : (j : ℕ) → j < a.count → get_or b.items j 0 ≡ get_or a.items j 0

module _ (junk : ℕ) where
  manage_size-Managed :
      {a : ArrayList} → IsValid a → 0 < a.allocated → Managed a (manage_size junk a)
  unfolding manage_size
  manage_size-Managed {a} v some_room = elim (Bool-cases (a.count == a.allocated)) [
    | inl e ↦ rw e (record {
      valid = record {
        memory = ground (
          arith,
          v.memory,
          length-append a.items (replicate (grown - a.allocated) junk),
          length-replicate (grown - a.allocated) junk,
        );
        bound = ground (arith, v.bound);
      };
      room = ground (arith, v.bound);
      counts = refl;
      reads = λ j h. get_or-append a.items _ j (omega (arith, v.memory, v.bound));
    })
    | inr e ↦
        rw e
          (record { valid = v; room = ground (arith, v.bound); counts = refl; reads = λ j h. refl })
  ]
    where
      grown : ℕ
      grown = if ltb (a.allocated * 2) 10000 then a.allocated * 2 else a.allocated + 10000

  -- On an array with allocated memory `arr_append` writes inside of it: the item is the last one then,
  -- and the others are where they were.
  pub append_lem :
      {a : ArrayList}
      → IsValid a
      → 0 < a.allocated
      → (item : ℕ)
      → (b : ArrayList) × (append junk a item ≡ some b)
        × IsValid b
        × (b.count ≡ a.count + 1)
        × ((j : ℕ) → j < b.count → get b j ≡ (if j == a.count then item else get a j))
  unfolding append get
  append_lem {a} v some_room item =
      let m = manage_size-Managed v some_room in
      let l = manage_size junk a in
      (
        record l { items = set l.items l.count item; count = l.count + 1 },
        ground (arith, m.room),
        record {
          memory = omega (arith, length-set l.items l.count item, m.valid.memory);
          bound = omega (arith, m.room);
        },
        omega (arith, m.counts),
        λ j h. ground (
          arith,
          get_or-set l.items l.count j item 0,
          m.valid.memory,
          m.room,
          m.counts,
          m.reads j,
        ),
      )

shift_up-reads :
    (items : List ℕ) (i idx j : ℕ)
    → i < length items
    → get_or (shift_up items i idx) j 0
      ≡ (if ltb idx j && ltb j (suc i) then get_or items (j - 1) 0 else get_or items j 0)
unfolding shift_up
shift_up-reads items zero idx j h = ground arith
shift_up-reads items (suc i) idx j h =
    let items' = set items (suc i) (get_or items i 0) in
    ground (
      arith,
      length-set items (suc i) (get_or items i 0),
      shift_up-reads items' i idx j,
      get_or-set items (suc i) j (get_or items i 0) 0,
      get_or-set items (suc i) (j - 1) (get_or items i 0) 0,
    )

length-shift_up : (items : List ℕ) (i idx : ℕ) → length (shift_up items i idx) ≡ length items
unfolding shift_up
length-shift_up items zero idx = refl
length-shift_up items (suc i) idx = ground (
  arith,
  length-set items (suc i) (get_or items i 0),
  length-shift_up (set items (suc i) (get_or items i 0)) i idx,
)

module _ (junk : ℕ) where
  -- `arr_insert` at an index up to `count` writes inside of the allocated memory: the items from the
  -- index on move up by one, and the new one stands in between.
  pub insert_lem :
      {a : ArrayList}
      → IsValid a
      → 0 < a.allocated
      → (item idx : ℕ) → idx ≤ a.count
      → (b : ArrayList) × (insert junk a item idx ≡ some b)
        × IsValid b
        × (b.count ≡ a.count + 1)
        × ((j : ℕ)
            → j < b.count
            → get b j ≡ (if ltb j idx then get a j else if j == idx then item else get a (j - 1)))
  unfolding insert get
  insert_lem {a} v some_room item idx inside =
      let m = manage_size-Managed junk v some_room in
      let l = manage_size junk a in
      (
        record l { items = set (shift_up l.items l.count idx) idx item; count = l.count + 1 },
        ground (arith, m.room, m.counts),
        record {
          memory = omega (
            arith,
            length-set (shift_up l.items l.count idx) idx item,
            length-shift_up l.items l.count idx,
            m.valid.memory,
          );
          bound = omega (arith, m.room);
        },
        omega (arith, m.counts),
        λ j h. ground (
          arith,
          get_or-set (shift_up l.items l.count idx) idx j item 0,
          length-shift_up l.items l.count idx,
          shift_up-reads l.items l.count idx j,
          m.valid.memory,
          m.room,
          m.counts,
          m.reads j,
          m.reads (j - 1),
        ),
      )

shift_down-reads :
    (n : ℕ) (items : List ℕ) (i count j : ℕ)
    → i + n ≡ count
    → count ≤ length items
    → get_or (shift_down n items i count) j 0 ≡ (
        if ltb j i || not (ltb j count)
        then get_or items j 0
        else if suc j == count
        then 0
        else get_or items (suc j) 0)
unfolding shift_down
shift_down-reads zero items i count j e h = ground arith
shift_down-reads (suc n) items i count j e h =
    let v = if ltb i (count - 1) then get_or items (i + 1) 0 else 0 in
    ground (
      arith,
      length-set items i v,
      shift_down-reads n (set items i v) (suc i) count j,
      get_or-set items i j v 0,
      get_or-set items i (suc j) v 0,
    )

length-shift_down :
    (n : ℕ) (items : List ℕ) (i count : ℕ) → length (shift_down n items i count) ≡ length items
unfolding shift_down
length-shift_down zero items i count = refl
length-shift_down (suc n) items i count =
    let v = if ltb i (count - 1) then get_or items (i + 1) 0 else 0 in
    length-shift_down n (set items i v) (suc i) count ∙ length-set items i v

-- `remove_at_index` of an index below `count` closes the gap: the items behind move down by one, and
-- the slot behind the last one is cleared.
pub remove_at_index_lem :
    {a : ArrayList}
    → IsValid a
    → (idx : ℕ) → idx < a.count
    → IsValid (remove_at_index a idx)
      × ((remove_at_index a idx).count + 1 ≡ a.count)
      × ((j : ℕ)
          → j < a.count
          → get (remove_at_index a idx) j
            ≡ (if ltb j idx then get a j else if suc j == a.count then 0 else get a (suc j)))
unfolding remove_at_index get
remove_at_index_lem {a} v idx inside = (
  record {
    memory = length-shift_down (a.count - idx) a.items idx a.count ∙ v.memory;
    bound = omega (arith, v.bound);
  },
  omega arith,
  λ j h. ground (
    arith,
    shift_down-reads (a.count - idx) a.items idx a.count j (omega arith)
        (omega (arith, v.memory, v.bound)),
  ),
)
