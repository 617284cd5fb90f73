-- ===== src/Serialize/Codes.antt =====
-- Code objects of src/interpreter/serialize.c: what is read where in the bytes of one.
use lanky.Prelude.{
  ℕ, suc, ap, ◌^◌, ◌<◌, ◌≤◌, ◌≡◌, ◌∙◌, refl, sym, some, none, Option, List, ◌++◌, length, drop,
  append_assoc, length-append, arith,
}
use lanky.Serialize.{
  CodeInfo, Constant, Constants, integer, float, custom, code, other, nil, cons, num_constants,
  code_size, serialize_object, render_code, render_shared_info, int32_to_bytes, code_type,
  name_sizes, render_names, render_refname,
}
use lanky.Serialize.Load.{
  deserialize_object, deserialize_as, deserialize_code, read_constants, read_size, read_bytes,
  bytes_to_int32, read_names, read_text, to_refname,
}
use lanky.Serialize.Integers.{bytes_to_int32_fits, read_size-int32_to_bytes}
use lanky.Serialize.Pieces.{
  read_bytes-append, read_names-render, length-render_names, count-name_sizes, to_refname-kept,
  read_text-render_refname, length-render_refname,
}
use lanky.Serialize.Storable.{
  object_size, object_sizes, depth, depths, IsStorable, AreStorable, reload, reload_all, IsStored,
  AreStored, shared_info-starts,
}

-- the steps of `srl_deserialize_code`, each with its result
deserialize_code_steps :
    (object : List ℕ → Option Constant) (bytes : List ℕ) {ncs nlc nnm nop sss : ℕ} {cs : Constants}
    {names : List (List ℕ)} {ref ops b b' b'' end : List ℕ}
    → read_size bytes 5 ≡ some ncs
    → read_size bytes 9 ≡ some nlc
    → read_size bytes 13 ≡ some nnm
    → read_size bytes 17 ≡ some nop
    → bytes_to_int32 bytes 21 ≡ some sss
    → read_constants object ncs (drop 25 bytes) ≡ some (cs, b)
    → read_names nnm b ≡ some (names, b')
    → read_text b' ≡ some (ref, b'')
    → read_bytes nop b'' ≡ some (ops, end)
    → deserialize_code object bytes
      ≡ some (
          code
            (record {
              num_locals = nlc;
              names = names;
              ops = ops;
              stack_size = sss;
              refname = to_refname ref;
              indices = none;
              catch_size = none;
            })
            cs)
unfolding deserialize_code
deserialize_code_steps object bytes e1 e2 e3 e4 e5 e6 e7 e8 e9 =
    rw (e1, e2, e3, e4, e5, e6, e7, e8, e9) refl

regroup : (a b c d rest : List ℕ) → (a ++ (b ++ (c ++ d))) ++ rest ≡ a ++ (b ++ (c ++ (d ++ rest)))
regroup a b c d rest =
    rw (append_assoc a (b ++ (c ++ d)) rest, append_assoc b (c ++ d) rest, append_assoc c d rest)
      refl

num_constants-object_sizes : (cs : Constants) → AreStorable cs → num_constants cs ≤ object_sizes cs
unfolding AreStorable IsStorable object_sizes code_size
num_constants-object_sizes nil h = omega arith
num_constants-object_sizes (cons c cs) h =
    omega (arith, num_constants-object_sizes cs h.1, positive c h.0)
  where
    positive : (c : Constant) → IsStorable c → 1 ≤ object_size c
    positive (integer n) h = omega arith
    positive (float b) h = omega arith
    positive (custom tex) h = omega arith
    positive (code info cs) h = omega arith
    positive other h = absurd h

module _ (info : CodeInfo) (cs : Constants) (ok : IsStorable (code info cs)) (r : List ℕ)
    (parts : AreStored cs r) where
  pub bytes : List ℕ
  bytes = (render_code info (num_constants cs) (r, length r)).0

  length-bytes : length bytes ≡ code_size info (object_sizes cs)
  unfolding bytes render_code code_size render_shared_info int32_to_bytes
  length-bytes = omega (
    arith,
    parts.sized,
    length-append r (render_names info.names ++ (render_refname info.refname ++ info.ops)),
    length-append (render_names info.names) (render_refname info.refname ++ info.ops),
    length-append (render_refname info.refname) info.ops,
    length-render_names info.names,
    length-render_refname info.refname,
  )

  count_names : length info.names ≤ name_sizes info.names
  count_names = omega (arith, count-name_sizes info.names)

  code-loaded :
      (fuel : ℕ) (rest : List ℕ)
      → depths cs ≤ fuel
      → deserialize_object (suc fuel) (bytes ++ rest) ≡ some (reload (code info cs))
  unfolding deserialize_object deserialize_as bytes render_code render_shared_info int32_to_bytes
      read_size bytes_to_int32 code_size IsStorable reload
  code-loaded fuel rest d =
      let (locals, stack, names, ref, small, inner) = ok in
      let ns = render_names info.names in
      let rf = render_refname info.refname in
      let constants : read_constants (deserialize_object fuel) (num_constants cs)
            ((r ++ (ns ++ (rf ++ info.ops))) ++ rest)
          ≡ some (reload_all cs, ns ++ (rf ++ (info.ops ++ rest))) =
        rw (regroup r ns rf info.ops rest)
          (parts.loaded fuel (ns ++ (rf ++ (info.ops ++ rest))) d) in
      deserialize_code_steps (deserialize_object fuel) (bytes ++ rest)
        (read_size-int32_to_bytes (num_constants cs) (drop 9 (bytes ++ rest))
          (omega (arith, num_constants-object_sizes cs inner)))
        (read_size-int32_to_bytes info.num_locals (drop 13 (bytes ++ rest)) locals)
        (read_size-int32_to_bytes (length info.names) (drop 17 (bytes ++ rest))
          (omega (arith, count_names)))
        (read_size-int32_to_bytes (length info.ops) (drop 21 (bytes ++ rest)) (omega arith))
        (bytes_to_int32_fits info.stack_size (drop 25 (bytes ++ rest)) stack) constants
        (read_names-render info.names _ names (omega arith))
        (read_text-render_refname info.refname _ (omega arith)) (read_bytes-append info.ops rest)
      ∙ rw (to_refname-kept info.refname ref) refl

  pub code-IsStored : IsStored (code info cs) bytes
  unfolding serialize_object depth object_size bytes render_code IsStorable
  code-IsStored = record {
    rendered = rw parts.rendered (ap (λ k. some (bytes, k)) (omega (arith, total)));
    sized = length-bytes;
    starts = λ rest.
        shared_info-starts code_type (code_size info (length r)) _
          (omega (arith, total, length-bytes, small))
        ∙ ap some (omega (arith, total));
    loaded = λ fuel rest d. code-loaded fuel rest (omega (arith, d));
  }
    where
      small : code_size info (object_sizes cs) < 2 ^ 31
      small = let (_, _, _, _, h, _) = ok in h

      total : code_size info (length r) ≡ length bytes
      total = rw parts.sized (sym length-bytes)
