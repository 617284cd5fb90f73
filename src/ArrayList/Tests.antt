-- ===== src/ArrayList/Tests.antt =====
-- src/interpreter/arraylist.c on an array of three items with room for four.
use lanky.Prelude.{ℕ, ◌≡◌, refl, none, some, [], ◌∷◌, ltb, ◌==◌, if◌then◌else◌, arith}
use lanky.ArrayList.{ArrayList, SortResult, create, append, insert, remove, heapsort}
use lanky.ArrayList.Edit.{IsValid}
use lanky.ArrayList.Sort.{Permutes, heapsort-Permutes}

abbrev three : ArrayList
three = record { items = 7 ∷ 8 ∷ 9 ∷ 0 ∷ []; count = 3; allocated = 4 }

three-IsValid : IsValid three
three-IsValid = record { memory = refl; bound = omega arith }

abbrev by_value : ℕ → ℕ → SortResult
by_value a b =
    if a == b then SortResult.equal else if ltb a b then SortResult.sorted else SortResult.reverse

insert-three :
    insert 0 three 5 1 ≡ some (record { items = 7 ∷ 5 ∷ 8 ∷ 9 ∷ []; count = 4; allocated = 4 })
unfolding insert
insert-three = refl

append-full :
    append 99 (record { items = 7 ∷ []; count = 1; allocated = 1 }) 5
    ≡ some (record { items = 7 ∷ 5 ∷ []; count = 2; allocated = 2 })
unfolding append
append-full = refl

-- an array that was made for no items cannot grow
append-create : append 99 (create 0) 5 ≡ none
unfolding append create
append-create = refl

remove-three :
    remove three 8 0 ≡ some (record { items = 7 ∷ 9 ∷ 0 ∷ 0 ∷ []; count = 2; allocated = 4 })
unfolding remove
remove-three = refl

-- four items come out sorted, but 1, 2, 3 do not
heapsort_four : heapsort by_value (3 ∷ 1 ∷ 4 ∷ 2 ∷ []) 4 ≡ some (1 ∷ 2 ∷ 3 ∷ 4 ∷ [])
unfolding heapsort
heapsort_four = refl

heapsort_three : heapsort by_value (1 ∷ 2 ∷ 3 ∷ []) 3 ≡ some (2 ∷ 3 ∷ 1 ∷ [])
unfolding heapsort
heapsort_three = refl

heapsort-Permutes_example : Permutes 3 (heapsort by_value three.items 3) three.items
heapsort-Permutes_example = heapsort-Permutes by_value three.items 3 (omega arith)
