-- ===== src/Objects/Tests.antt =====
-- src/interpreter/lky_object.c on an object, its prototype and a method of that.
use lanky.Prelude.{
  ℕ, ◌<◌, ◌≡◌, ◌≢◌, refl, some, none, List, [], ◌∷◌, ◌==◌, if◌then◌else◌, Bool-cases, inl, inr,
  arith,
}
use lanky.HashTable.{create, get, put, djb2, bytes_equal}
use lanky.HashTable.Map.{create-IsValid, put-IsValid}
use lanky.HashTable.Strings.{c_string}
use lanky.Gc.Objects.{Kind, Heap}
use lanky.Objects.{proto_name, set_member, bind, get_member}
use lanky.Objects.Members.{Leaves, Ends, get_member-Leaves, get_member-Ends, get_member-set_member}

-- "to"
abbrev to : List ℕ
to = 116 ∷ 111 ∷ []

-- 2 inherits from 4; every other object is a function with the method 6
abbrev heap : Heap
heap o =
    if o == 2
    then record { kind = Kind.custom; members = put create proto_name 4 }
    else record { kind = Kind.function 0 0 0 0 []; members = put create to 6 }

-- the method is bound to 2
inherited_method : get_member 2 heap 2 to ≡ some (6, bind (bind heap 6 4) 6 2)
unfolding get_member get put create djb2 bytes_equal
inherited_method = refl

too_short : get_member 1 heap 2 to ≡ none
unfolding get_member get put create djb2 bytes_equal
too_short = refl

get_member-Leaves_example : Leaves heap 2 (get_member 2 heap 2 to)
get_member-Leaves_example = get_member-Leaves 2 heap 2 to

abbrev rank : ℕ → ℕ
rank o = if o == 2 then 1 else 0

rank_falls :
    (o : ℕ) → get (heap o).members proto_name ≢ 0 → rank (get (heap o).members proto_name) < rank o
unfolding get put create djb2 bytes_equal
rank_falls o h = elim (Bool-cases (o == 2)) [
  | inl e ↦ rw e (omega arith)
  | inr e ↦ absurd ((rw e at h) refl)
]

get_member-Ends_example : Ends (get_member 2 heap 2 to)
get_member-Ends_example = get_member-Ends heap rank rank_falls 2 2 to (omega arith)

get_member-set_member_example :
    get_member 1 (set_member heap 2 to 8) 2 to ≡ some (8, bind (set_member heap 2 to 8) 8 2)
get_member-set_member_example =
    get_member-set_member 0 heap 2 to 7 (λ e. omega (arith, e)) refl refl
      (put-IsValid create-IsValid proto_name 4)
