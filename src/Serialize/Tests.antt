-- ===== src/Serialize/Tests.antt =====
-- src/interpreter/serialize.c on a small program: a constant 7, a text "hi", and a function in it.
use lanky.Prelude.{◌^◌, ◌+◌, ◌≡◌, refl, some, none, [], ◌∷◌}
use lanky.Serialize.{Constant, integer, custom, code, nil, cons, num_unwrap, to_double, excess_bits}

abbrev inner : Constant
inner =
    code
      (record {
        num_locals = 1;
        names = [];
        ops = 82 ∷ 87 ∷ [];
        stack_size = 1;
        refname = some (102 ∷ []);
        indices = some (1 ∷ 1 ∷ []);
        catch_size = some 0;
      })
      nil

abbrev program : Constant
program =
    code
      (record {
        num_locals = 2;
        names = (120 ∷ 121 ∷ []) ∷ [];
        ops = 72 ∷ 0 ∷ 0 ∷ 0 ∷ 0 ∷ 87 ∷ [];
        stack_size = 3;
        refname = none;
        indices = none;
        catch_size = some 1;
      })
      (cons (integer 7) (cons (custom (104 ∷ 105 ∷ [])) (cons inner nil)))

-- one more than 2 ^ 53 is not stored as it is
num_unwrap_rounds : num_unwrap (2 ^ 53 + 1) ≡ 2 ^ 53
unfolding num_unwrap to_double excess_bits
num_unwrap_rounds = refl
