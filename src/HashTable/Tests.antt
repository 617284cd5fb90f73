-- ===== src/HashTable/Tests.antt =====
-- src/stdlib/hashtable.c on concrete tables of C strings.

use lanky.Prelude.{ℕ, ◌+◌, ◌<◌, ◌≡◌, refl, some, List, [], ◌∷◌, ◌==◌, if◌then◌else◌}
use lanky.HashTable.{
  Table, djb2, bytes_equal, next_size, create, put, get, resize, remove_key, remove_val,
  use_after_free, for_each,
}
use lanky.HashTable.Chain.{found}
use lanky.HashTable.Map.{IsValid, view, create-IsValid, put_lem, put-IsValid}
use lanky.HashTable.Remove.{Removes, remove_key-Removes}
use lanky.HashTable.Resize.{resize_lem}
use lanky.HashTable.Strings.{c_string}

-- "to" and "or"
abbrev to : List ℕ
to = 116 ∷ 111 ∷ []

abbrev or : List ℕ
or = 111 ∷ 114 ∷ []

abbrev empty : Table (List ℕ)
empty = create

abbrev two : Table (List ℕ)
two = put (put empty to 5) or 6

abbrev one : Table (List ℕ)
one = put empty to 7

two-IsValid : IsValid two
two-IsValid = put-IsValid (put-IsValid create-IsValid to 5) or 6

djb2-abc : djb2 (97 ∷ 98 ∷ 99 ∷ []) ≡ 193485963
unfolding djb2
djb2-abc = refl

-- a byte of 128 or more is a negative `char`
djb2_signed : djb2 (255 ∷ []) ≡ 177572
unfolding djb2
djb2_signed = refl

get-two : get two or ≡ 6
unfolding get put create djb2 bytes_equal
get-two = refl

get-put-two : get (put two to 9) to ≡ 9
unfolding get put create djb2 bytes_equal
get-put-two = refl

for_each-two : for_each (λ _ v s. v ∷ s) two [] ≡ 6 ∷ 5 ∷ []
unfolding for_each put create djb2 bytes_equal
for_each-two = refl

remove_val-two : remove_val ◌==◌ two 6 ≡ use_after_free
unfolding remove_val put create djb2 bytes_equal
remove_val-two = refl

put_lem_example :
    IsValid (put two to 9)
    × ((q : List ℕ) → view (put two to 9) q ≡ (if bytes_equal to q then some 9 else view two q))
    × ((put two to 9).count ≡ (if found (view two to) then two.count else two.count + 1))
put_lem_example = put_lem two-IsValid to 9

remove_key-Removes_example : Removes two or (remove_key two or)
remove_key-Removes_example = remove_key-Removes two-IsValid or

resize_lem_example :
    IsValid (resize two)
    × ((q : List ℕ) → view (resize two) q ≡ view two q)
    × ((resize two).count ≡ two.count)
    × ((resize two).size ≡ next_size two.size)
    × (two.size < (resize two).size)
resize_lem_example = resize_lem two-IsValid
