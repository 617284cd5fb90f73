-- ===== src/Regex/Matches.antt =====
-- rgx_matches of src/stdlib/regex.c: it decides the language of the pattern.
use lanky.Prelude.{
  ℕ, ◌+◌, ◌<◌, ◌≡◌, ◌↔◌, refl, sym, ap, ◌∙◌, Bool, true, false, some, List, [], ◌∷◌, ◌++◌,
  append-nil, inl, inr, length, arith,
}
use mathlib.Core.List.Memᴰ
use lanky.Regex.{Ast, Code}
use lanky.Regex.Language.{In, Accepts, final, empty, split, split_alt, read, Accepted, Wired}
use lanky.Regex.Wired.{In-Accepted, Accepts-In}
use lanky.Regex.Slots.{Inside}
use lanky.Regex.Marks.{IsSafe}
use lanky.Regex.Adding.{add_state-Walks}
use lanky.Regex.Lists.{
  test-IsSilent, unmarked_all, Live, empty_walk, empty-Closed, after, Takes, step-StepWorks,
}
use lanky.Regex.Run.{test, Regex, add, add_start, run, reset_all, matches}
use lanky.Regex.Steps.{complete, Walked-Closed}

-- the effect of the loop of `rgx_matches`
record RunWorks (input list : List ℕ) (rx : Regex) : Type 0 where
  listit' : ℕ → ℕ
  gen : ℕ
  b : Bool
  result : run input list rx ≡ some (after rx listit' gen b)
  later : gen ≡ rx.listgen + length input
  hit : (b ≡ true) ↔ Takes rx list input

run-RunWorks :
    (input list : List ℕ) (rx : Regex)
    → Live rx list
    → (rx.matched ≡ true) ↔ Takes rx list []
    → RunWorks input list rx
unfolding run
run-RunWorks [] list rx live hit = record {
  listit' = rx.listit;
  gen = rx.listgen;
  b = rx.matched;
  result = refl;
  later = omega arith;
  hit = hit;
}
run-RunWorks (c ∷ input) list rx live hit =
    let s = step-StepWorks c list rx live in
    let r =
      run-RunWorks input s.list' (after rx s.listit' (rx.listgen + 1) s.b) s.open_.live s.hit in
    record {
      listit' = r.listit';
      gen = r.gen;
      b = r.b;
      result = rw (run, s.result) r.result;
      later = omega (arith, r.later);
      hit = (λ e. (s.reads input).0 (r.hit.0 e), λ t. r.hit.1 ((s.reads input).1 t));
    }

-- A compiled pattern: its automaton, and marks that are older than the next generation.
pub record IsRegex (head : Ast) (rx : Regex) : Type 0 where
  pub safe : IsSafe rx.store
  pub entry : Inside rx.store.state_count rx.start
  pub exit : ℕ
  pub wired : Wired rx.store.states head rx.start exit
  pub ends : (rx.store.states exit).c ≡ Code.match
  pub fresh : (x : ℕ) → rx.listit x < rx.listgen
  pub positive : 0 < rx.listgen

-- what the automaton accepts from its start
pub start_iff :
    (head : Ast) (rx : Regex)
    → IsRegex head rx
    → (v : List ℕ) → Accepted (test rx.flags) rx.store.states rx.start v ↔ In (test rx.flags) head v
start_iff head rx h v =
    (λ (k, a). to k a, λ i. rw (sym (append-nil v)) (In-Accepted h.wired i (0, final h.ends)))
  where
    at_end :
        (k x : ℕ) (u : List ℕ)
        → (rx.store.states x).c ≡ Code.match
        → Accepts (test rx.flags) rx.store.states k x u
        → u ≡ []
    at_end k x u e (final c) = refl
    at_end k x u e (empty c a) = absurd cc
    at_end k x u e (split c a) = absurd cc
    at_end k x u e (split_alt c a) = absurd cc
    at_end k x u e (read {c = c} t a) =
        absurd (let f = rw e at t in let g = (test-IsSilent rx.flags).no_match c in cc)

    to : (k : ℕ) → Accepts (test rx.flags) rx.store.states k rx.start v → In (test rx.flags) head v
    to k a =
        let p = Accepts-In (test rx.flags) rx.store.states (test-IsSilent rx.flags) h.wired k v a in
        let nothing_left = at_end p.steps h.exit p.rest h.ends p.onward in
        let whole : v ≡ p.word = p.whole ∙ ap (λ r. p.word ++ r) nothing_left ∙ append-nil p.word in
        rw whole p.of_pattern

-- the list that `rgx_matches` begins with
pub record StartWorks (rx : Regex) : Type 0 where
  pub list : List ℕ
  pub listit' : ℕ → ℕ
  pub b : Bool
  pub result : add_start rx [] ≡ some (list, after rx listit' rx.listgen b)
  live : (b' : Bool) → Live (after rx listit' rx.listgen b') list
  reads : (v : List ℕ) → Takes rx list v ↔ Accepted (test rx.flags) rx.store.states rx.start v

pub add_start-StartWorks : (head : Ast) (rx : Regex) → IsRegex head rx → StartWorks rx
unfolding add_start add
add_start-StartWorks head rx h =
    let silent = test-IsSilent rx.flags in
    let w₀ = empty_walk rx.store rx.listgen rx.flags rx.listit rx.matched in
    let room = unmarked_all rx.listgen rx.listit rx.store.state_count in
    let (w, run_, g) =
      add_state-Walks rx.store rx.listgen (test rx.flags) h.safe (rx.store.state_count + 1) rx.start
        w₀ h.entry (omega (arith, room)) (omega (arith, room)) in
    let closed =
      Walked-Closed rx.store rx.listgen (test rx.flags) w₀ rx.start w g
        (empty-Closed rx.store rx.listgen rx.flags rx.listit rx.matched h.fresh) in
    record {
      list = w.mem;
      listit' = w.listit;
      b = w.found;
      result = rw (add_start, run_) refl;
      live = λ b'. record {
        safe = h.safe;
        bound = g.bound (λ x. omega (arith, h.fresh x));
        is_list = g.lists (λ x m. absurd (Memᴰ.not-nil m));
      };
      reads = λ v. (
        (λ (x, m, a). elim (g.sound x m) [ inl m' ↦ absurd (Memᴰ.not-nil m') | inr f ↦ f v a ]),
        (λ (k, a).
            complete rx.store rx.listgen (test rx.flags) silent w closed k rx.start v g.here a),
      );
    }

-- `rgx_matches` on a text that is not empty returns, and its result is whether the text is a word of the
-- pattern. Its lists never need more room than there are states. Afterwards the automaton is ready for
-- another text.
pub matches-In :
    (head : Ast) (rx : Regex) (c : ℕ) (input : List ℕ)
    → IsRegex head rx
    → (b : Bool) × (rx' : Regex) × (matches rx (c ∷ input) ≡ some (b, rx'))
      × ((b ≡ true) ↔ In (test rx.flags) head (c ∷ input))
      × (rx'.flags ≡ rx.flags)
      × IsRegex head rx'
unfolding matches run reset_all
matches-In head rx c input h =
    let s = add_start-StartWorks head rx h in
    let first = step-StepWorks c s.list (after rx s.listit' rx.listgen false) (s.live false) in
    let r =
      run-RunWorks input first.list' (after rx first.listit' (rx.listgen + 1) first.b)
        first.open_.live first.hit in
    let language = start_iff head rx h (c ∷ input) in
    (
      r.b,
      reset_all (after rx r.listit' r.gen r.b),
      rw (matches, s.result, run, first.result, r.result) refl,
      (
        (λ e. language.0 ((s.reads (c ∷ input)).0 ((first.reads input).0 (r.hit.0 e)))),
        (λ i. r.hit.1 ((first.reads input).1 ((s.reads (c ∷ input)).1 (language.1 i)))),
      ),
      refl,
      record {
        safe = h.safe;
        entry = h.entry;
        exit = h.exit;
        wired = h.wired;
        ends = h.ends;
        fresh = λ x. omega (arith, r.later, h.positive);
        positive = omega (arith, r.later);
      },
    )
