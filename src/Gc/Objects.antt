-- ===== src/Gc/Objects.antt =====
-- The objects that src/interpreter/lky_gc.c walks over: the addresses that each holds, in the order
-- in which gc_mark_object visits them, and its size.
use lanky.Prelude.{
  ℕ, ◌%◌, Bool, true, false, Option, none, some, List, [], ◌∷◌, ◌++◌, ◌==◌, if◌then◌else◌,
}
use lanky.HashTable.{Table, for_each}

-- `lky_builtin_type` with the addresses of the structure that it stands for. What a `savefunc` or
-- `on_gc` hook marks is the list of its addresses, where there is a hook.
pub data Kind : Type 0 where
  float : Kind
  integer : Kind
  string : Kind
  sequence : ℕ → ℕ → Kind
  nil : Kind
  function : ℕ → ℕ → ℕ → ℕ → List ℕ → Kind
  class : ℕ → Kind
  code : List ℕ → Kind
  iterable : ℕ → Kind
  custom : Kind
  custom_ex : Option (List ℕ) → Kind
  error : Kind
  boolean : Kind
  blob : Option (List ℕ) → Kind

pub record Object : Type 0 where
  pub kind : Kind
  pub members : Table (List ℕ)

abbrev pub Heap : Type 0
Heap = ℕ → Object

-- the part of `stackframe` that the collector reads, without the links
pub record Frame : Type 0 where
  pub bucket : ℕ
  pub data_stack : List ℕ
  pub locals : List ℕ
  pub parent_stack : List ℕ

abbrev pub tagged : ℕ → Bool
tagged o = o % 2 == 1

-- The kinds whose members are visited.
pub has_members : Kind → Bool
has_members Kind.integer = false
has_members Kind.float = false
has_members (Kind.blob _) = false
has_members (Kind.sequence _ _) = false
has_members (Kind.code _) = false
has_members (Kind.iterable _) = false
has_members _ = true

abbrev pub unless_null : ℕ → List ℕ
unless_null o = if o == 0 then [] else o ∷ []

abbrev pub hooked : Option (List ℕ) → List ℕ
hooked none = []
hooked (some os) = os

-- the `switch` of `gc_mark_object`; a field order of a function is bucket, code, owner, bound
pub kind_refs : Kind → List ℕ
kind_refs (Kind.function bucket body owner bound parents) =
    unless_null bucket
    ++ (unless_null body ++ (unless_null owner ++ (unless_null bound ++ parents)))
kind_refs (Kind.sequence value next) = unless_null next ++ unless_null value
kind_refs (Kind.code constants) = constants
kind_refs (Kind.class builder) = builder ∷ []
kind_refs (Kind.custom_ex hook) = hooked hook
kind_refs (Kind.iterable owner) = owner ∷ []
kind_refs (Kind.blob hook) = hooked hook
kind_refs _ = []

unfoldable pub member_refs : Table (List ℕ) → List ℕ
member_refs members = for_each (λ _ val os. os ++ val ∷ []) members []

unfoldable pub refs : Object → List ℕ
unfolding has_members kind_refs member_refs
refs o = (if has_members o.kind then member_refs o.members else []) ++ kind_refs o.kind

-- `sizeof` of the structures, which the platform decides
pub record Sizes : Type 0 where
  pub builtin : ℕ
  pub object : ℕ
  pub custom : ℕ
  pub class : ℕ
  pub function : ℕ
  pub code : ℕ
  pub iterable : ℕ
  pub error : ℕ
  pub seq : ℕ

unfoldable pub determine_size_of : Sizes → Kind → ℕ
determine_size_of s Kind.integer = s.builtin
determine_size_of s Kind.float = s.builtin
determine_size_of s (Kind.blob _) = s.builtin
determine_size_of s Kind.custom = s.object
determine_size_of s (Kind.custom_ex _) = s.custom
determine_size_of s (Kind.class _) = s.class
determine_size_of s (Kind.function _ _ _ _ _) = s.function
determine_size_of s (Kind.code _) = s.code
determine_size_of s (Kind.iterable _) = s.iterable
determine_size_of s Kind.error = s.error
determine_size_of s (Kind.sequence _ _) = s.seq
determine_size_of s _ = 0

pub is_custom : Kind → Bool
is_custom Kind.custom = true
is_custom _ = false
