-- ===== src/Serialize/RoundTrip.antt =====
-- srl_serialize_object and srl_deserialize_object of src/interpreter/serialize.c together.
use lanky.Prelude.{
  ℕ, zero, suc, ap, ◌≤◌, ◌≡◌, refl, some, List, [], ◌++◌, append_assoc, length-append, take-length,
  drop_all-append, arith,
}
use lanky.Serialize.{
  Constant, Constants, integer, float, custom, code, other, nil, cons, serialize_constants,
}
use lanky.Serialize.Load.{deserialize_object, read_constants}
use lanky.Serialize.Storable.{
  object_sizes, depth, depths, IsStorable, AreStorable, reload, reload_all, IsStored, AreStored,
  integer-IsStored, float-IsStored, custom-IsStored,
}
use lanky.Serialize.Codes.{code-IsStored}

depth_positive : (c : Constant) → 1 ≤ depth c
unfolding depth
depth_positive (integer n) = omega arith
depth_positive (float b) = omega arith
depth_positive (custom tex) = omega arith
depth_positive (code info cs) = omega arith
depth_positive other = omega arith

loaded_at :
    {c : Constant} {r : List ℕ}
    → IsStored c r
    → (fuel : ℕ) (rest : List ℕ) → depth c ≤ fuel
    → deserialize_object fuel (r ++ rest) ≡ some (reload c)
loaded_at {c} s zero rest d = absurd (omega (arith, d, depth_positive c))
loaded_at s (suc fuel) rest d = s.loaded fuel rest d

nil-AreStored : AreStored nil []
unfolding serialize_constants object_sizes read_constants reload_all
nil-AreStored = record { rendered = refl; sized = refl; loaded = λ fuel rest d. refl }

cons-AreStored :
    {c : Constant} {cs : Constants} {r rs : List ℕ}
    → IsStored c r
    → AreStored cs rs
    → AreStored (cons c cs) (r ++ rs)
unfolding serialize_constants object_sizes read_constants reload_all depths
cons-AreStored {c} {cs} {r} {rs} s ss = record {
  rendered =
      rw (s.rendered, ss.rendered, take-length r)
        (ap (λ k. some (r ++ rs, k)) (omega (arith, length-append r rs)));
  sized = omega (arith, length-append r rs, s.sized, ss.sized);
  loaded = λ fuel rest d.
      rw
        (
          append_assoc r rs rest,
          s.starts (rs ++ rest),
          loaded_at s fuel (rs ++ rest) (omega arith),
          drop_all-append r (rs ++ rest),
          ss.loaded fuel rest (omega arith),
        )
        refl;
}

mutual
  unfolding IsStorable

  stored : (c : Constant) → IsStorable c → (r : List ℕ) × IsStored c r
  stored (integer n) ok = (_, integer-IsStored n ok)
  stored (float b) ok = (_, float-IsStored b ok)
  stored (custom tex) ok = (_, custom-IsStored tex ok)
  stored (code info cs) ok =
      let (locals, stack, names, ref, small, inner) = ok in
      let (r, parts) = stored_all cs inner in (_, code-IsStored info cs ok r parts)
  stored other ok = absurd ok

  stored_all : (cs : Constants) → AreStorable cs → (r : List ℕ) × AreStored cs r
  stored_all nil ok = ([], nil-AreStored)
  stored_all (cons c cs) (ok, oks) =
      let (r, s) = stored c ok in let (rs, ss) = stored_all cs oks in (r ++ rs, cons-AreStored s ss)
