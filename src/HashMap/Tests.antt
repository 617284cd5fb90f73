-- ===== src/HashMap/Tests.antt =====
-- src/interpreter/hashmap.c on a map with two names.
use lanky.Prelude.{ℕ, ◌≡◌, refl, some, none, List, [], ◌∷◌, if◌then◌else◌, arith}
use lanky.HashTable.{djb2, bytes_equal}
use lanky.HashMap.{HashMap, create, put, get, remove, count}
use lanky.HashMap.Laws.{IsValid, create-IsValid, get-put, get-remove}

abbrev x : List ℕ
x = 120 ∷ []

abbrev y : List ℕ
y = 121 ∷ []

abbrev two : HashMap
two = put (put (create 3) x 7) y 8

two-IsValid : IsValid two
two-IsValid = (get-put (get-put (create-IsValid 3 (omega arith)) x 7 x).0 y 8 y).0

get-two : get two x ≡ some 7
unfolding get put create djb2 bytes_equal
get-two = refl

count-two : count two ≡ 2
unfolding count put create djb2 bytes_equal
count-two = refl

get-put_example :
    IsValid (put two x 9) × (get (put two x 9) y ≡ (if bytes_equal x y then some 9 else get two y))
get-put_example = get-put two-IsValid x 9 y

get-remove_example :
    IsValid (remove two x) × (get (remove two x) y ≡ (if bytes_equal x y then none else get two y))
get-remove_example = get-remove two-IsValid x y
