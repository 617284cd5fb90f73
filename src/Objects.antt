-- ===== src/Objects.antt =====
-- src/interpreter/lky_object.c: the members of objects and of the prototypes that they inherit from. The
-- objects are those of the collector's heap; an object is its address, 0 is NULL.
mod Members
mod Tests
use lanky.Prelude.{
  ℕ, zero, suc, Bool, true, false, ◌&&◌, ◌||◌, not, Option, none, some, List, [], ◌∷◌, ◌==◌,
  if◌then◌else◌,
}
use lanky.HashTable.{Table, get, put, bytes_equal}
use lanky.HashTable.Strings.{c_string}
use lanky.Gc.Objects.{Kind, Object, Heap, tagged}

-- "proto_"
abbrev pub proto_name : List ℕ
proto_name = 112 ∷ 114 ∷ 111 ∷ 116 ∷ 111 ∷ 95 ∷ []

abbrev pub write_object : Heap → ℕ → Object → Heap
write_object heap o object p = if p == o then object else heap p

-- the boxed numbers
abbrev pub number : Kind → Bool
number Kind.float = true
number Kind.integer = true
number _ = false

-- `lobj_set_member`
unfoldable pub set_member : Heap → ℕ → List ℕ → ℕ → Heap
set_member heap o name val =
    if tagged o || number (heap o).kind
    then heap
    else write_object heap o (record (heap o) { members = put (heap o).members name val })

abbrev pub bound_kind : Kind → ℕ → Kind
bound_kind (Kind.function bucket code owner bound parents) o =
    Kind.function bucket code owner o parents
bound_kind kind o = kind

-- `bound` of a function is set to the object
unfoldable pub bind : Heap → ℕ → ℕ → Heap
bind heap f o =
    if tagged f
    then heap
    else write_object heap f (record (heap f) { kind = bound_kind (heap f).kind o })

-- the end of a lookup in a prototype
unfoldable pub inherited : ℕ → Option (ℕ × Heap) → Option (ℕ × Heap)
unfolding bind
inherited o none = none
inherited o (some (zero, heap)) = some (0, heap)
inherited o (some (suc m, heap)) = some (suc m, bind heap (suc m) o)

unfoldable pub own_or_inherited : Heap → ℕ → Bool → ℕ → ℕ → Option (ℕ × Heap) → Option (ℕ × Heap)
unfolding inherited bind
own_or_inherited heap o is_proto (suc val) proto found = some (suc val, bind heap (suc val) o)
own_or_inherited heap o true zero proto found = some (0, heap)
own_or_inherited heap o false zero zero found = some (0, heap)
own_or_inherited heap o false zero (suc proto) found = inherited o found

-- `lobj_get_member`; the fuel is the length of the chain of prototypes, `none` when it is not enough
unfoldable pub get_member : ℕ → Heap → ℕ → List ℕ → Option (ℕ × Heap)
unfolding own_or_inherited
get_member zero heap o name = none
get_member (suc n) heap o name =
    let proto = get (heap o).members proto_name in
    let found = get_member n heap proto name in
    if (o == 0) || (tagged o || number (heap o).kind)
    then some (0, heap)
    else own_or_inherited heap o (bytes_equal name proto_name) (get (heap o).members name) proto
        found
