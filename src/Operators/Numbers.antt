-- ===== src/Operators/Numbers.antt =====
-- lobjb_alloc, lobjb_build_int and OBJ_NUM_UNWRAP of src/interpreter/lkyobj_builtin: integers with and without a tag.
use Prim.Native.String.{String}
use lanky.Prelude.{
  ℕ, ◌+◌, ◌-◌, ◌*◌, ◌/◌, ◌%◌, ◌^◌, ◌<◌, ◌≡◌, ◌≢◌, refl, sym, ap, ◌∙◌, Bool, true, false, ◌&&◌, none,
  some, ◌==◌, ltb, if◌then◌else◌, inl, inr, Bool-cases, ltb→lt, ==→eq, some_injective, arith,
}
use lanky.Operators.{
  Kind, Object, Doubles, Values, Answer, tagged, build_int, alloc_integer, is_float, is_custom,
  untagged_is, obj_is_number, unwrap, is_singleton, promotes_to_float, check_exec_custom_impl,
}

-- the result is the integer `n`
pub data Holds : Answer → ℕ → Type 0 where
  with_tag : {p n : ℕ} → tagged p ≡ true → p / 256 % 2 ^ 28 ≡ n → Holds (Answer.at p) n
  boxed : {n : ℕ} → Holds (Answer.new Kind.integer n) n

tag_odd : (n : ℕ) → tagged (n * 256 + 1) ≡ true
tag_odd n = ground arith

tag_value : (n : ℕ) → n < 2 ^ 28 → (n * 256 + 1) / 256 % 2 ^ 28 ≡ n
tag_value n h = omega (arith, h)

small_tag : (n : ℕ) → ltb n (2 ^ 24 - 1) ≡ true → Holds (Answer.at (n * 256 + 1)) n
small_tag n h =
    let below = ltb→lt n (2 ^ 24 - 1) h in with_tag (tag_odd n) (tag_value n (omega (arith, below)))

no_tag :
    (n : ℕ) (b : Bool) → Holds (if b && false then Answer.at 0 else Answer.new Kind.integer n) n
no_tag n true = boxed
no_tag n false = boxed

pub alloc_integer-Holds : (tags : Bool) (n : ℕ) → Holds (alloc_integer tags n) n
unfolding alloc_integer
alloc_integer-Holds false n = no_tag n (ltb n (2 ^ 28 - 1))
alloc_integer-Holds true n = elim (Bool-cases (ltb n (2 ^ 24 - 1))) [
  | inr e ↦ rw e (no_tag n (ltb n (2 ^ 28 - 1)))
  | inl e ↦
      let f : ltb n (2 ^ 28 - 1) ≡ true = ground (arith, ltb→lt n (2 ^ 24 - 1) e) in
      let g : (n * 256 + 1 == 0) ≡ false = ground arith in rw (e, f, g) (small_tag n e)
]

pub build_int-Holds : (tags : Bool) (n : ℕ) → Holds (build_int tags n) n
unfolding build_int alloc_integer
build_int-Holds false n = no_tag n (ltb n (2 ^ 28 - 1))
build_int-Holds true n = elim (Bool-cases (ltb n (2 ^ 24 - 1))) [
  | inr e ↦ rw e (no_tag n (ltb n (2 ^ 28 - 1)))
  | inl e ↦ let g : (n * 256 + 1 == 0) ≡ false = ground arith in rw (e, g) (small_tag n e)
]

-- the three singletons are objects of other kinds, and NULL is none
pub record IsValues (v : Values) : Type 0 where
  pub untagged_nil : tagged v.lky_nil ≡ false
  pub untagged_yes : tagged v.lky_yes ≡ false
  pub untagged_no : tagged v.lky_no ≡ false
  pub nil_object : (o : Object) × (v.memory v.lky_nil ≡ some o) × (o.type ≡ Kind.nil)
  pub yes_object : (o : Object) × (v.memory v.lky_yes ≡ some o) × (o.type ≡ Kind.bool)
  pub no_object : (o : Object) × (v.memory v.lky_no ≡ some o) × (o.type ≡ Kind.bool)

-- the value at `a` is the integer `n`
pub data Represents (v : Values) (a n : ℕ) : Type 0 where
  by_tag : tagged a ≡ true → a / 256 % 2 ^ 28 ≡ n → Represents v a n
  by_object :
      (o : Object)
      → tagged a ≡ false
      → v.memory a ≡ some o
      → o.type ≡ Kind.integer
      → o.word ≡ n
      → Represents v a n

module _ (dbl : Doubles) (v : Values) (valid : IsValues v) where
  pub unwrap_integer : {a n : ℕ} → Represents v a n → unwrap dbl v a ≡ some (dbl.of_long n)
  unfolding unwrap
  unwrap_integer (by_tag e f) = rw (e, f) refl
  unwrap_integer (by_object o e m k w) = rw (e, m, k, w) refl

  pub untagged_is_integer :
      {a n : ℕ} (p : Kind → Bool)
      → p Kind.integer ≡ false
      → Represents v a n
      → untagged_is dbl v p a ≡ some false
  unfolding untagged_is
  untagged_is_integer p not_integer (by_tag e f) = rw e refl
  untagged_is_integer p not_integer (by_object o e m k w) = rw (e, m, k, not_integer) refl

  pub obj_is_number_integer : {a n : ℕ} → Represents v a n → obj_is_number dbl v a ≡ some true
  unfolding obj_is_number
  obj_is_number_integer (by_tag e f) = rw e refl
  obj_is_number_integer (by_object o e m k w) = rw (e, m, k) refl

  -- an integer is at another address than an object of another kind
  apart :
      {a n : ℕ} (s : ℕ) (k : Kind)
      → tagged s ≡ false
      → ((o : Object) × (v.memory s ≡ some o) × (o.type ≡ k))
      → k ≢ Kind.integer
      → Represents v a n
      → (a == s) ≡ false
  apart {a = a} s k untagged there other r = elim (Bool-cases (a == s)) [
    | inr e ↦ e
    | inl e ↦ absurd (same r (==→eq a s e))
  ]
    where
      same : {n : ℕ} → Represents v a n → a ≡ s → ⊥
      same (by_tag t f) e = let g = rw e at t in absurd cc
      same (by_object o t m k' w) e =
          let (o', m', k'') = there in
          let f : some o ≡ some o' = sym m ∙ ap v.memory e ∙ m' in
          let g : o ≡ o' = some_injective f in other (sym k'' ∙ ap (λ x. x.type) (sym g) ∙ k')

  pub is_singleton_integer : {a n : ℕ} → Represents v a n → is_singleton dbl v a ≡ false
  is_singleton_integer r =
      rw
        (
          apart v.lky_nil Kind.nil valid.untagged_nil valid.nil_object (λ e. absurd cc) r,
          apart v.lky_yes Kind.bool valid.untagged_yes valid.yes_object (λ e. absurd cc) r,
          apart v.lky_no Kind.bool valid.untagged_no valid.no_object (λ e. absurd cc) r,
        )
        refl

  pub nil_integer : {a n : ℕ} → Represents v a n → (a == v.lky_nil) ≡ false
  nil_integer r = apart v.lky_nil Kind.nil valid.untagged_nil valid.nil_object (λ e. absurd cc) r

  pub promotes_integers :
      {a b m n : ℕ} → Represents v a m → Represents v b n → promotes_to_float dbl v a b ≡ some false
  unfolding promotes_to_float
  promotes_integers r s =
      rw (untagged_is_integer is_float refl r) (untagged_is_integer is_float refl s)

  pub check_exec_custom_impl_integers :
      {a b m n : ℕ} (name : String)
      → Represents v a m
      → Represents v b n
      → check_exec_custom_impl dbl v name a b ≡ some none
  unfolding check_exec_custom_impl
  check_exec_custom_impl_integers name r s =
      rw (untagged_is_integer is_custom refl r, untagged_is_integer is_custom refl s) refl
