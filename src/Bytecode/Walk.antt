-- ===== src/Bytecode/Walk.antt =====
-- The loop of calculate_max_stack_depth in src/compiler/bytecode_analyzer.c: it ends, and on code whose
-- operands do not look like instructions it follows the instructions.
use lanky.Prelude.{
  ℕ, zero, suc, ap, ◌+◌, ◌<◌, ◌≤◌, ◌≡◌, ◌≢◌, ◌∙◌, inl, inr, refl, none, some, List, [], ◌∷◌, ◌++◌,
  ◌==◌, if◌then◌else◌, length, drop, length-append, Option-cases, arith,
}
use lanky.Bytecode.{
  Effect, up, op_of, stack_effect_for, ℤ, pos, negsuc, plus, raise_to, depth, no_fuel, walk,
  calculate_max_stack_depth, calculate_max_catch_depth,
}

length-drop : (n : ℕ) (xs : List ℕ) → length (drop n xs) ≤ length xs
length-drop zero xs = omega arith
length-drop (suc n) [] = omega arith
length-drop (suc n) (x ∷ xs) = omega (arith, length-drop n xs)

-- one round of the loop
walk_step :
    (fuel byte : ℕ) (rest : List ℕ) (current : ℤ) (max : ℕ) {effect : Effect} {skip : ℕ}
    → stack_effect_for byte rest ≡ some (effect, skip)
    → walk (suc fuel) (byte ∷ rest) current max
      ≡ walk fuel (drop skip rest) (plus current effect) (raise_to max (plus current effect))
unfolding walk
walk_step fuel byte rest current max e = rw (e, walk) refl

walk_ends :
    (fuel : ℕ) (code : List ℕ) (current : ℤ) (max : ℕ)
    → length code < fuel
    → walk fuel code current max ≢ no_fuel
unfolding walk
walk_ends zero code current max h = absurd (omega arith)
walk_ends (suc fuel) [] current max h = λ e. cc
walk_ends (suc fuel) (byte ∷ rest) current max h =
    elim (Option-cases (stack_effect_for byte rest)) [
      | inl e ↦ rw (e, walk) (λ e'. cc)
      | inr ((effect, skip), e) ↦ rw (walk_step fuel byte rest current max e) (
          walk_ends fuel (drop skip rest) (plus current effect) (raise_to max (plus current effect))
            (omega (arith, length-drop skip rest)))
    ]

-- an instruction as the machine reads it, with the effect that the analyzer takes it to have
pub record Instruction : Type 0 where
  pub byte : ℕ
  pub operands : List ℕ
  pub effect : Effect

abbrev pub encode : List Instruction → List ℕ
encode [] = []
encode (i ∷ is) = i.byte ∷ (i.operands ++ encode is)

-- bytes that are no instructions
abbrev pub AreQuiet : List ℕ → Type 0
AreQuiet [] = Unit
AreQuiet (b ∷ bs) = (op_of b ≡ none) × AreQuiet bs

-- The analyzer skips a part of the operands, and the rest of them are no instructions.
pub record IsClean (i : Instruction) : Type 0 where
  pub skip : ℕ
  pub reads : (rest : List ℕ) → stack_effect_for i.byte (i.operands ++ rest) ≡ some (i.effect, skip)
  pub inside : skip ≤ length i.operands
  pub quiet : AreQuiet (drop skip i.operands)

abbrev pub AreClean : List Instruction → Type 0
AreClean [] = Unit
AreClean (i ∷ is) = IsClean i × AreClean is

-- the highest sum of the effects up to some instruction
abbrev pub highest : ℤ → ℕ → List Instruction → ℕ
highest current max [] = max
highest current max (i ∷ is) =
    highest (plus current i.effect) (raise_to max (plus current i.effect)) is

plus_zero : (c : ℤ) → plus c (up 0) ≡ c
unfolding plus
plus_zero (pos n) = ap pos (omega arith)
plus_zero (negsuc n) = ground arith

raise_to_again : (max : ℕ) (c : ℤ) → raise_to (raise_to max c) c ≡ raise_to max c
unfolding raise_to
raise_to_again max (pos n) = ground arith
raise_to_again max (negsuc n) = refl

drop-append : (n : ℕ) (xs ys : List ℕ) → n ≤ length xs → drop n (xs ++ ys) ≡ drop n xs ++ ys
drop-append zero xs ys h = refl
drop-append (suc n) [] ys h = absurd (omega arith)
drop-append (suc n) (x ∷ xs) ys h = drop-append n xs ys (omega arith)

quiet_effect : (b : ℕ) (rest : List ℕ) → op_of b ≡ none → stack_effect_for b rest ≡ some (up 0, 0)
unfolding stack_effect_for
quiet_effect b rest q = rw (q, stack_effect_for) refl

walk_quiet :
    (bs code : List ℕ) (fuel : ℕ) (current : ℤ) (max : ℕ)
    → AreQuiet bs
    → raise_to max current ≡ max
    → length bs + length code < fuel
    → (fuel' : ℕ) × (length code < fuel')
      × (walk fuel (bs ++ code) current max ≡ walk fuel' code current max)
unfolding walk stack_effect_for
walk_quiet [] code fuel current max q e h = (fuel, omega arith, refl)
walk_quiet (b ∷ bs) code zero current max q e h = absurd (omega arith)
walk_quiet (b ∷ bs) code (suc fuel) current max q e h =
    let (fuel', enough, run) = walk_quiet bs code fuel current max q.1 e (omega arith) in
    (
      fuel',
      enough,
      walk_step fuel b (bs ++ code) current max (quiet_effect b (bs ++ code) q.0)
          ∙ rw (plus_zero current, e) run,
    )

walk-encode :
    (is : List Instruction) (fuel : ℕ) (current : ℤ) (max : ℕ)
    → AreClean is
    → length (encode is) < fuel
    → walk fuel (encode is) current max ≡ depth (highest current max is)
unfolding walk
walk-encode is zero current max clean h = absurd (omega arith)
walk-encode [] (suc fuel) current max clean h = refl
walk-encode (i ∷ is) (suc fuel) current max (c, cs) h =
    let current' = plus current i.effect in
    let max' = raise_to max current' in
    let long = length-append i.operands (encode is) in
    let (fuel', enough, run) =
      walk_quiet (drop c.skip i.operands) (encode is) fuel current' max' c.quiet
        (raise_to_again max current') (omega (arith, long, length-drop c.skip i.operands)) in
    walk_step fuel i.byte (i.operands ++ encode is) current max (c.reads (encode is))
    ∙ rw (drop-append c.skip i.operands (encode is) c.inside)
        (run ∙ walk-encode is fuel' current' max' cs enough)

-- The loop of `calculate_max_stack_depth` ends: each round goes forward, whatever the bytes are.
pub calculate_max_stack_depth_ends : (code : List ℕ) → calculate_max_stack_depth code ≢ no_fuel
unfolding calculate_max_stack_depth
calculate_max_stack_depth_ends code = walk_ends (suc (length code)) code (pos 0) 0 (omega arith)

-- On the code of instructions whose operand bytes behind the ones that the analyzer skips are no
-- instructions, `calculate_max_stack_depth` is the highest stack that the effects of the instructions
-- reach when they are run one after the other.
pub calculate_max_stack_depth-encode :
    (is : List Instruction)
    → AreClean is
    → calculate_max_stack_depth (encode is) ≡ depth (highest (pos 0) 0 is)
unfolding calculate_max_stack_depth
calculate_max_stack_depth-encode is clean =
    walk-encode is (suc (length (encode is))) (pos 0) 0 clean (omega arith)

abbrev pub catches : List Instruction → ℕ
catches [] = 0
catches (i ∷ is) = (if i.byte == 107 then 1 else 0) + catches is

catch_depth-append :
    (xs ys : List ℕ) → calculate_max_catch_depth ys ≤ calculate_max_catch_depth (xs ++ ys)
unfolding calculate_max_catch_depth
catch_depth-append [] ys = omega arith
catch_depth-append (x ∷ xs) ys = omega (arith, catch_depth-append xs ys)

-- `calculate_max_catch_depth` is at least the number of PUSH_CATCH instructions: operand bytes that look
-- like one only add to it.
pub calculate_max_catch_depth-encode :
    (is : List Instruction) → catches is ≤ calculate_max_catch_depth (encode is)
unfolding calculate_max_catch_depth
calculate_max_catch_depth-encode [] = omega arith
calculate_max_catch_depth-encode (i ∷ is) =
    omega (arith, catch_depth-append i.operands (encode is), calculate_max_catch_depth-encode is)
