-- ===== src/HashTable/Resize.antt =====
-- hst_resize and hst_add_all_from of src/stdlib/hashtable.c: their effect on the map.
use lanky.Prelude.{
  ℕ, ◌≤◌, ◌<◌, ◌≡◌, ◌∙◌, sym, ap, refl, some, List, [], ◌∷◌, ◌++◌, if◌then◌else◌, length, replicate,
  concat, get_or-replicate, length-replicate, concat-replicate, arith,
}
use mathlib.Core.Path.{subst}
use native.Mathlib.Nat.{add-zero}
use lanky.HashTable.{
  KeyOps, Node, Table, bucket, slot, chain_of, next_size, resize, put, put_chain, put_chains,
  add_all_from,
}
use lanky.HashTable.Chain.{found, lookup, occurrences, lookup_of_occurrences}
use lanky.HashTable.Map.{Placed, IsValid, view, put-IsValid, view-put}
use lanky.HashTable.Rehome.{
  Hashed, PlacedFrom, rehomed, relink_all-concat, relink_chain-length, relink_chain-bucket,
  relink_chain-total, PlacedFrom-of_all, PlacedFrom-Hashed, concat-home, rehomed-Placed,
  rehomed-occurrences-le, rehomed-lookup,
}

module _ {ℓ} {K : Type ℓ} ⦃ops : KeyOps K⦄ where
  module _ {ht : Table K} (valid : IsValid ht) where
    abbrev nodes : List (Node K)
    nodes = concat ht.buckets

    placed_from : PlacedFrom ht.size 0 ht.buckets
    placed_from = PlacedFrom-of_all ht.size 0 ht.buckets (λ i.
        subst (λ k. Placed ht.size k (bucket ht.buckets i)) (sym (add-zero i)) (valid.placed i))

    nodes-Hashed : Hashed nodes
    nodes-Hashed = PlacedFrom-Hashed ht.size 0 ht.buckets placed_from

    -- every node of a key is in the key's bucket
    pub nodes-view :
        (q : K)
        → (lookup q nodes ≡ view ht q) × (occurrences q nodes ≡ occurrences q (chain_of ht q))
    unfolding view
    nodes-view q = concat-home ht.size q (slot ht q) 0 ht.buckets placed_from (omega arith)

    next_size-pos : 0 < next_size ht.size
    next_size-pos = ground (arith, valid.roomy)

    resized-bucket : (j : ℕ) → bucket (resize ht).buckets j ≡ rehomed (next_size ht.size) j nodes
    unfolding resize
    resized-bucket j =
        let ns = next_size ht.size in
        let fresh : List (List (Node K)) = replicate ns [] in
        let blank : bucket fresh j ≡ [] = get_or-replicate {A = List (Node K)} ns j [] in
        ap (λ bs. bucket bs j) (relink_all-concat ns ht.buckets fresh)
        ∙ relink_chain-bucket ns next_size-pos nodes fresh j
            (length-replicate {A = List (Node K)} ns [])
        ∙ ap (λ c. c ++ rehomed ns j nodes) blank

    view-resize : (q : K) → view (resize ht) q ≡ view ht q
    unfolding view resize
    view-resize q =
        ap (lookup q) (resized-bucket (slot (resize ht) q))
        ∙ rehomed-lookup (next_size ht.size) q nodes nodes-Hashed
        ∙ (nodes-view q).0

    resize-IsValid : IsValid (resize ht)
    unfolding resize
    resize-IsValid =
        let ns = next_size ht.size in
        let fresh : List (List (Node K)) = replicate ns [] in
        let wide = length-replicate {A = List (Node K)} ns [] in
        record {
          roomy = next_size-pos;
          sized =
              ap length (relink_all-concat ns ht.buckets fresh)
              ∙ relink_chain-length ns next_size-pos nodes fresh
              ∙ wide;
          counted = rw relink_all-concat (
              omega (
                arith,
                relink_chain-total ns next_size-pos nodes fresh wide,
                valid.counted,
                ap length (concat-replicate {A = Node K} ns),
              ));
          placed = λ j. rw (resized-bucket j) (rehomed-Placed ns j nodes nodes-Hashed);
          unique = λ j q. rw (resized-bucket j) (
              omega (
                arith,
                rehomed-occurrences-le ns j q nodes,
                (nodes-view q).1,
                valid.unique (slot ht q) q,
              ));
        }

    -- `hst_resize` keeps a well-formed table well formed, with every lookup and the count unchanged,
    -- and gives it the next size.
    pub resize_lem :
        IsValid (resize ht)
        × ((q : K) → view (resize ht) q ≡ view ht q)
        × ((resize ht).count ≡ ht.count)
        × ((resize ht).size ≡ next_size ht.size)
        × (ht.size < (resize ht).size)
    unfolding resize
    resize_lem = (resize-IsValid, view-resize, refl, refl, ground (arith, valid.roomy))

  put_chain-append :
      (ht : Table K) (a b : List (Node K)) → put_chain ht (a ++ b) ≡ put_chain (put_chain ht a) b
  unfolding put_chain
  put_chain-append ht [] b = refl
  put_chain-append ht (n ∷ a) b = put_chain-append (put ht n.key n.val) a b

  put_chains-concat :
      (ht : Table K) (bs : List (List (Node K))) → put_chains ht bs ≡ put_chain ht (concat bs)
  unfolding put_chains
  put_chains-concat ht [] = refl
  put_chains-concat ht (c ∷ cs) =
      put_chains-concat (put_chain ht c) cs ∙ sym (put_chain-append ht c (concat cs))

  -- among the nodes of a chain with no key twice the order of the puts does not matter
  put_chain-view :
      (c : List (Node K)) (ht : Table K)
      → IsValid ht
      → ((q : K) → occurrences q c ≤ 1)
      → IsValid (put_chain ht c)
        × ((q : K)
            → view (put_chain ht c) q ≡ (if found (lookup q c) then lookup q c else view ht q))
  unfolding put_chain lookup occurrences
  put_chain-view [] ht v once = (v, λ q. refl)
  put_chain-view (n ∷ c) ht v once =
      let (v', reads) =
        put_chain-view c (put ht n.key n.val) (put-IsValid v n.key n.val)
          (λ q. omega (arith, once q)) in
      (v', λ q. reads q ∙ step q)
    where
      step :
          (q : K)
          → (if found (lookup q c) then lookup q c else view (put ht n.key n.val) q) ≡ (
              if found (if ops.equfunc n.key q then some n.val else lookup q c)
              then (if ops.equfunc n.key q then some n.val else lookup q c)
              else view ht q)
      step q = ground (arith, view-put v n.key n.val q, once q, lookup_of_occurrences q c)

  -- `hst_add_all_from` keeps a well-formed table well formed; afterwards a key of the other table
  -- finds the other table's value, and any other key finds what it found before.
  pub add_all_from_lem :
      {ht ot : Table K}
      → IsValid ht
      → IsValid ot
      → IsValid (add_all_from ht ot)
        × ((q : K)
            → view (add_all_from ht ot) q ≡ (if found (view ot q) then view ot q else view ht q))
  unfolding add_all_from
  add_all_from_lem {ht} {ot} v w =
      let all = nodes-view w in
      let (v', reads) =
        put_chain-view (concat ot.buckets) ht v
          (λ q. omega (arith, (all q).1, w.unique (slot ot q) q)) in
      rw put_chains-concat (v', λ q. reads q ∙ rw (all q).0)
