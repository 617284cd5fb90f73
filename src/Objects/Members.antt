-- ===== src/Objects/Members.antt =====
-- lobj_set_member and lobj_get_member of src/interpreter/lky_object.c.
use lanky.Prelude.{
  ℕ, zero, suc, ◌<◌, ◌≡◌, ◌≢◌, ◌∙◌, refl, ap, Bool, true, false, ◌||◌, Option, none, some, List,
  ◌==◌, inl, inr, Bool-cases, arith,
}
use lanky.HashTable.{get, put}
use lanky.HashTable.Chain.{or_null}
use lanky.HashTable.Map.{IsValid, view, get-view, put_lem}
use lanky.HashTable.Strings.{c_string, bytes_equal_refl}
use lanky.Gc.Objects.{Kind, Heap, tagged}
use lanky.Objects.{
  proto_name, number, set_member, bound_kind, bind, inherited, own_or_inherited, get_member,
}

bound_kind-bound_kind : (k : Kind) (p o : ℕ) → bound_kind (bound_kind k p) o ≡ bound_kind k o
bound_kind-bound_kind Kind.float p o = refl
bound_kind-bound_kind Kind.integer p o = refl
bound_kind-bound_kind Kind.string p o = refl
bound_kind-bound_kind (Kind.sequence a b) p o = refl
bound_kind-bound_kind Kind.nil p o = refl
bound_kind-bound_kind (Kind.function a b c d e) p o = refl
bound_kind-bound_kind (Kind.class a) p o = refl
bound_kind-bound_kind (Kind.code a) p o = refl
bound_kind-bound_kind (Kind.iterable a) p o = refl
bound_kind-bound_kind Kind.custom p o = refl
bound_kind-bound_kind (Kind.custom_ex a) p o = refl
bound_kind-bound_kind Kind.error p o = refl
bound_kind-bound_kind Kind.boolean p o = refl
bound_kind-bound_kind (Kind.blob a) p o = refl

-- The later of two bindings counts.
bind-bind :
    (heap heap' : Heap) (m p o : ℕ)
    → ((q : ℕ) → heap' q ≡ bind heap m p q)
    → (q : ℕ) → bind heap' m o q ≡ bind heap m o q
unfolding bind
bind-bind heap heap' m p o h q = elim (Bool-cases (tagged m)) [
  | inl t ↦ let hq = h q in rw t (rw t at hq)
  | inr t ↦ elim (Bool-cases (q == m)) [
    | inl e ↦
        let self : (m == m) ≡ true = ground arith in
        let hm = h m in
        let changed : heap' m ≡ record (heap m) { kind = bound_kind (heap m).kind p } =
          rw (t, self) at hm in
        rw (t, e, changed, bound_kind-bound_kind (heap m).kind p o) refl
    | inr e ↦ let hq = h q in rw (t, e) (rw (t, e) at hq)
  ]
]

-- What a lookup leaves: the heap itself if it finds nothing, or else the heap in which the member, if it
-- is a function, is bound to the object.
abbrev pub Leaves : Heap → ℕ → Option (ℕ × Heap) → Type 0
Leaves heap o none = Unit {0}
Leaves heap o (some (zero, heap')) = (q : ℕ) → heap' q ≡ heap q
Leaves heap o (some (suc v, heap')) = (q : ℕ) → heap' q ≡ bind heap (suc v) o q

inherited-Leaves :
    (heap : Heap) (p o : ℕ) (found : Option (ℕ × Heap))
    → Leaves heap p found
    → Leaves heap o (inherited o found)
unfolding inherited
inherited-Leaves heap p o none h = tt
inherited-Leaves heap p o (some (zero, heap')) h = h
inherited-Leaves heap p o (some (suc v, heap')) h = bind-bind heap heap' (suc v) p o h

own_or_inherited-Leaves :
    (heap : Heap) (o : ℕ) (is_proto : Bool) (val proto : ℕ) (found : Option (ℕ × Heap))
    → Leaves heap proto found
    → Leaves heap o (own_or_inherited heap o is_proto val proto found)
unfolding own_or_inherited
own_or_inherited-Leaves heap o is_proto (suc val) proto found h = λ q. refl
own_or_inherited-Leaves heap o true zero proto found h = λ q. refl
own_or_inherited-Leaves heap o false zero zero found h = λ q. refl
own_or_inherited-Leaves heap o false zero (suc proto) found h =
    inherited-Leaves heap (suc proto) o found h

-- A lookup changes nothing but the binding of the function that it finds, which is bound to the object
-- that the lookup began at, also if the function is a member of a prototype.
pub get_member-Leaves :
    (n : ℕ) (heap : Heap) (o : ℕ) (name : List ℕ) → Leaves heap o (get_member n heap o name)
unfolding get_member
get_member-Leaves zero heap o name = tt
get_member-Leaves (suc n) heap o name =
    elim (Bool-cases ((o == 0) || (tagged o || number (heap o).kind))) [
      | inl e ↦ rw (get_member, e) (λ q. refl)
      | inr e ↦
          rw (get_member, e)
            (own_or_inherited-Leaves heap o _ _ _ _
              (get_member-Leaves n heap (get (heap o).members proto_name) name))
    ]

-- a result
abbrev pub Ends : Option (ℕ × Heap) → Type 0
Ends r = (v : ℕ) × (heap' : Heap) × (r ≡ some (v, heap'))

inherited-Ends : (o : ℕ) (found : Option (ℕ × Heap)) → Ends found → Ends (inherited o found)
unfolding inherited
inherited-Ends o none (v, heap', e) = absurd cc
inherited-Ends o (some (zero, heap)) h = (_, _, refl)
inherited-Ends o (some (suc m, heap)) h = (_, _, refl)

own_or_inherited-Ends :
    (heap : Heap) (o : ℕ) (is_proto : Bool) (val proto : ℕ) (found : Option (ℕ × Heap))
    → (proto ≢ 0 → Ends found)
    → Ends (own_or_inherited heap o is_proto val proto found)
unfolding own_or_inherited
own_or_inherited-Ends heap o is_proto (suc val) proto found h = (_, _, refl)
own_or_inherited-Ends heap o true zero proto found h = (_, _, refl)
own_or_inherited-Ends heap o false zero zero found h = (_, _, refl)
own_or_inherited-Ends heap o false zero (suc proto) found h =
    inherited-Ends o found (h (λ e. omega (arith, e)))

-- Where no chain of prototypes has a circle, so that a number falls along each of them, a lookup ends.
pub get_member-Ends :
    (heap : Heap) (rank : ℕ → ℕ)
    → ((o : ℕ)
        → get (heap o).members proto_name ≢ 0
        → rank (get (heap o).members proto_name) < rank o)
    → (n o : ℕ) (name : List ℕ) → rank o < n
    → Ends (get_member n heap o name)
unfolding get_member
get_member-Ends heap rank falls zero o name h = absurd (omega arith)
get_member-Ends heap rank falls (suc n) o name h =
    elim (Bool-cases ((o == 0) || (tagged o || number (heap o).kind))) [
      | inl e ↦ rw (get_member, e) (_, _, refl)
      | inr e ↦
          rw (get_member, e)
            (own_or_inherited-Ends heap o _ _ _ _ (λ p.
              get_member-Ends heap rank falls n (get (heap o).members proto_name) name
                (omega (arith, falls o p))))
    ]

get_member_own :
    (n : ℕ) (heap : Heap) (o : ℕ) (name : List ℕ) (v : ℕ)
    → o ≢ 0
    → tagged o ≡ false
    → number (heap o).kind ≡ false
    → get (heap o).members name ≡ suc v
    → get_member (suc n) heap o name ≡ some (suc v, bind heap (suc v) o)
unfolding get_member own_or_inherited
get_member_own n heap o name v object untagged other value =
    let there : (o == 0) ≡ false = ground arith in
    rw (get_member, there, untagged, other, value) refl

set_member_here :
    (heap : Heap) (o : ℕ) (name : List ℕ) (v : ℕ)
    → tagged o ≡ false
    → number (heap o).kind ≡ false
    → set_member heap o name v o ≡ record (heap o) { members = put (heap o).members name v }
unfolding set_member
set_member_here heap o name v untagged other =
    let self : (o == o) ≡ true = ground arith in rw (untagged, other, self) refl

-- After `lobj_set_member` of a value other than NULL on an object that is not NULL, has no tag, is no
-- integer and no float and has a well-formed table of members, `lobj_get_member` finds that value on the
-- object itself, whatever its prototype has, and binds it to the object.
pub get_member-set_member :
    (n : ℕ) (heap : Heap) (o : ℕ) (name : List ℕ) (v : ℕ)
    → o ≢ 0
    → tagged o ≡ false
    → number (heap o).kind ≡ false
    → IsValid (heap o).members
    → get_member (suc n) (set_member heap o name (suc v)) o name
      ≡ some (suc v, bind (set_member heap o name (suc v)) (suc v) o)
get_member-set_member n heap o name v object untagged other valid =
    let table = put (heap o).members name (suc v) in
    let (valid', views, counted) = put_lem valid name (suc v) in
    let seen : view table name ≡ some (suc v) = views name ∙ rw (bytes_equal_refl name) refl in
    let value : get table name ≡ suc v = get-view table name ∙ ap or_null seen in
    let here = set_member_here heap o name (suc v) untagged other in
    get_member_own n (set_member heap o name (suc v)) o name v object untagged
      (ap (λ x. number x.kind) here ∙ other) (ap (λ x. get x.members name) here ∙ value)
