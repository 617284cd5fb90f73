-- ===== src/ArrayList.antt =====
-- src/interpreter/arraylist.c: the growing array under the arrays of the language and the compiler's
-- lists. `items` is the allocated memory, one address per slot, and `junk` is what fresh memory holds.
-- A write outside of the allocated memory is `none`.
mod Edit
mod Search
mod Sort
mod Tests
use lanky.Prelude.{
  ℕ, zero, suc, ◌+◌, ◌-◌, ◌*◌, ◌/◌, Bool, true, false, ◌&&◌, not, Option, none, some, List, [], ◌∷◌,
  ◌++◌, ltb, ◌==◌, if◌then◌else◌, length, get_or, set, replicate,
}

pub record ArrayList : Type 0 where
  pub items : List ℕ
  pub count : ℕ
  pub allocated : ℕ

pub create : ℕ → ArrayList
create count = record { items = replicate count 0; count = 0; allocated = count }

module _ (junk : ℕ) where
  pub manage_size : ArrayList → ArrayList
  manage_size list =
      let alloc = list.allocated in
      let nl = if ltb (alloc * 2) 10000 then alloc * 2 else alloc + 10000 in
      if list.count == alloc
      then record list { items = list.items ++ replicate (nl - alloc) junk; allocated = nl }
      else list

  pub append : ArrayList → ℕ → Option ArrayList
  unfolding manage_size
  append list item =
      let l = manage_size list in
      if ltb l.count l.allocated
      then some (record l { items = set l.items l.count item; count = l.count + 1 })
      else none

-- `list->items[i] = list->items[i - 1]` for `i` down to `idx + 1`
pub shift_up : List ℕ → ℕ → ℕ → List ℕ
shift_up items zero idx = items
shift_up items (suc i) idx =
    if ltb idx (suc i) then shift_up (set items (suc i) (get_or items i 0)) i idx else items

module _ (junk : ℕ) where
  pub insert : ArrayList → ℕ → ℕ → Option ArrayList
  unfolding manage_size shift_up
  insert list item idx =
      let l = manage_size junk list in
      if ltb l.count l.allocated && ltb idx l.allocated
      then some
          (record l { items = set (shift_up l.items l.count idx) idx item; count = l.count + 1 })
      else none

-- Nothing tests the index; 0 stands for what lies outside of the memory.
pub get : ArrayList → ℕ → ℕ
get list idx = get_or list.items idx 0

pub set_at : ArrayList → ℕ → ℕ → Option ArrayList
set_at list item idx =
    if ltb idx list.allocated then some (record list { items = set list.items idx item }) else none

-- `n` steps of the loop from `i` on
pub shift_down : ℕ → List ℕ → ℕ → ℕ → List ℕ
shift_down zero items i count = items
shift_down (suc n) items i count =
    shift_down n (set items i (if ltb i (count - 1) then get_or items (i + 1) 0 else 0)) (suc i)
      count

-- An empty list stays at 0 here, where `count--` makes it -1.
pub remove_at_index : ArrayList → ℕ → ArrayList
unfolding shift_down
remove_at_index list idx = record list {
  items = shift_down (list.count - idx) list.items idx list.count;
  count = list.count - 1;
}

-- the loop over the rest of the items from index `i` on; `none` is -1
pub index_from : List ℕ → ℕ → ℕ → ℕ → Option ℕ
index_from [] i count obj = none
index_from (x ∷ xs) i count obj =
    let rest = index_from xs (suc i) count obj in
    if ltb i count then (if obj == x then some i else rest) else none

pub index_of : ArrayList → ℕ → Option ℕ
unfolding index_from
index_of list obj = index_from list.items 0 list.count obj

-- For an item that is not there the loop of `remove_at_index` starts at -1 and writes `items[-1]`.
pub remove : ArrayList → ℕ → ℕ → Option ArrayList
unfolding remove_at_index index_of
remove list item idx =
    if item == 0
    then some (remove_at_index list idx)
    else elim (index_of list item) [ none ↦ none | some i ↦ some (remove_at_index list i) ]

module _ {ℓ} {S : Type ℓ} (callback : ℕ → S → Bool × S) where
  -- the calls until one returns 0, on at most `n` items
  each_until : ℕ → List ℕ → S → S
  each_until zero items s = s
  each_until (suc n) [] s = s
  each_until (suc n) (x ∷ items) s =
      let (res, s') = callback x s in let rest = each_until n items s' in if res then rest else s'

  pub for_each : ArrayList → S → S
  unfolding each_until
  for_each list s = each_until list.count list.items s

pub data SortResult : Type 0 where
  reverse : SortResult
  equal : SortResult
  sorted : SortResult

is_sorted : SortResult → Bool
is_sorted sorted = true
is_sorted _ = false

is_reverse : SortResult → Bool
is_reverse reverse = true
is_reverse _ = false

pub swap_items : List ℕ → ℕ → ℕ → List ℕ
swap_items arr i j = set (set arr i (get_or arr j 0)) j (get_or arr i 0)

-- `end` counts the items of the heap: it is one more than the C argument, which can be -1.
module _ (sf : ℕ → ℕ → SortResult) where
  pub choose : List ℕ → ℕ → ℕ → ℕ
  unfolding is_sorted is_reverse
  choose arr root end =
      let child = root * 2 + 1 in
      let swap = if is_sorted (sf (get_or arr root 0) (get_or arr child 0)) then child else root in
      if ltb (child + 1) end && not (is_reverse (sf (get_or arr swap 0) (get_or arr (child + 1) 0)))
      then child + 1
      else swap

  pub siftdown : ℕ → List ℕ → ℕ → ℕ → Option (List ℕ)
  unfolding choose swap_items
  siftdown zero arr root end = none
  siftdown (suc fuel) arr root end =
      let swap = choose arr root end in
      let next = siftdown fuel (swap_items arr root swap) swap end in
      if ltb (root * 2 + 1) end then (if swap == root then some arr else next) else some arr

  -- `while(start --> 0)`
  pub heapify_from : ℕ → List ℕ → ℕ → Option (List ℕ)
  unfolding siftdown
  heapify_from zero arr length = some arr
  heapify_from (suc start) arr length = elim (siftdown (suc length) arr start length) [
    | none ↦ none
    | some arr' ↦ heapify_from start arr' length
  ]

  pub heapify : List ℕ → ℕ → Option (List ℕ)
  unfolding heapify_from
  heapify arr length = heapify_from ((length - 2) / 2) arr length

  -- the loop with `end` from `n - 1` down to 0
  pub extract : ℕ → List ℕ → Option (List ℕ)
  unfolding siftdown swap_items
  extract zero arr = some arr
  extract (suc end) arr = elim (siftdown (suc end) (swap_items arr 0 end) 0 end) [
    | none ↦ none
    | some arr' ↦ extract end arr'
  ]

  pub heapsort : List ℕ → ℕ → Option (List ℕ)
  unfolding heapify extract
  heapsort arr length = elim (heapify arr length) [ none ↦ none | some arr' ↦ extract length arr' ]

  pub sort : ArrayList → Option ArrayList
  unfolding heapsort
  sort list = elim (heapsort list.items list.count) [
    | none ↦ none
    | some arr ↦ some (record list { items = arr })
  ]
