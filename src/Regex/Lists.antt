-- ===== src/Regex/Lists.antt =====
-- rgx_step of src/stdlib/regex.c: the list behind a character stands for the words behind it.
use lanky.Prelude.{
  ℕ, zero, suc, ◌+◌, ◌≤◌, ◌<◌, ◌≡◌, ◌↔◌, refl, Bool, true, false, some, List, [], ◌∷◌, inl, inr,
  length, arith,
}
use mathlib.Core.List.{Memᴰ}
use mathlib.Core.List.Memᴰ
use lanky.Regex.{Code, Store}
use lanky.Regex.Language.{Accepts, final, empty, split, split_alt, read, Accepted}
use lanky.Regex.Wired.{IsSilent}
use lanky.Regex.Marks.{IsSafe, unmarked}
use lanky.Regex.Walk.{free, Listed, IsListed, Good}
use lanky.Regex.Run.{Walk, test, Regex, step}
use lanky.Regex.Steps.{Closed, ListAccepts, complete, Stepped, step_each-Stepped}

pub test-IsSilent : (flags : ℕ) → IsSilent (test flags)
unfolding test
test-IsSilent flags = record { no_split = λ c. refl; no_match = λ c. refl; no_nothing = λ c. refl }

pub unmarked_all : (gen : ℕ) (listit : ℕ → ℕ) (n : ℕ) → unmarked gen listit n ≤ n
unfolding unmarked
unmarked_all gen listit zero = omega arith
unmarked_all gen listit (suc n) = ground (arith, unmarked_all gen listit n)

-- A list of states in a run: `rx` has no mark of a later generation.
pub record Live (rx : Regex) (list : List ℕ) : Type 0 where
  pub safe : IsSafe rx.store
  pub bound : (x : ℕ) → rx.listit x ≤ rx.listgen
  pub is_list : IsListed rx.store rx.listgen (test rx.flags) list

module _ (store : Store) (gen : ℕ) (flags : ℕ) where
  abbrev takes_now : Code → ℕ → Bool
  takes_now = test flags

  -- a state of a list that accepts a longer word takes its first character
  first_read :
      (k x c : ℕ) (v : List ℕ)
      → Listed store gen takes_now (store.states x).c
      → Accepts takes_now store.states k x (c ∷ v)
      → (takes_now (store.states x).c c ≡ true)
        × Accepted takes_now store.states (store.states x).out v
  first_read k x c v l (empty e a) = absurd (rw e at l)
  first_read k x c v l (split e a) = absurd (rw e at l)
  first_read k x c v l (split_alt e a) = absurd (rw e at l)
  first_read k x c v l (read h a) = (h, (_, a))

  -- a list accepts the empty word exactly if it has a state MATCH
  found_iff :
      (w : Walk)
      → Good store gen takes_now w
      → (w.found ≡ true) ↔ ListAccepts store gen takes_now w.mem []
  found_iff w g =
      (λ f. let (x, m, c) = g.flag f in (x, m, (0, final c)), λ (x, m, (k, a)). back k x m a)
    where
      back : (k x : ℕ) → Memᴰ x w.mem → Accepts takes_now store.states k x [] → w.found ≡ true
      back k x m (final c) = g.flagged x m c
      back k x m (empty e a) = absurd (let l = (g.listed x m).1 in rw e at l)
      back k x m (split e a) = absurd (let l = (g.listed x m).1 in rw e at l)
      back k x m (split_alt e a) = absurd (let l = (g.listed x m).1 in rw e at l)

  abbrev pub empty_walk : (ℕ → ℕ) → Bool → Walk
  empty_walk listit b = record { listit = listit; mem = []; found = b }

  -- nothing is marked with a new generation
  pub empty-Closed :
      (listit : ℕ → ℕ) (b : Bool)
      → ((x : ℕ) → listit x < gen)
      → Closed store gen takes_now (empty_walk listit b)
  empty-Closed listit b h x m = absurd (let f = h x in ground (arith, f, m))

  empty-Good : (listit : ℕ → ℕ) → Good store gen takes_now (empty_walk listit false)
  empty-Good listit = record {
    listed = λ x m. absurd (Memᴰ.not-nil m);
    flag = λ f. absurd cc;
    flagged = λ x m c. absurd (Memᴰ.not-nil m);
  }

  step_iff :
      (c : ℕ) (list : List ℕ) (listit : ℕ → ℕ) (w : Walk)
      → ((x : ℕ) → listit x < gen)
      → IsListed store gen takes_now list
      → Stepped store gen takes_now (test-IsSilent flags) c list (empty_walk listit false) w
      → (v : List ℕ)
      → ListAccepts store gen takes_now w.mem v ↔ ListAccepts store gen takes_now list (c ∷ v)
  step_iff c list listit w old is_list h v = (
    (λ (x, m, a). elim (h.sound x m) [
      | inl m' ↦ absurd (Memᴰ.not-nil m')
      | inr (s, m', t, f) ↦ let (k, b) = f v a in (s, m', (suc k, read t b))
    ]),
    (λ (x, m, (k, a)).
        let (t, (j, b)) = first_read k x c v (is_list x m).1 a in
        complete store gen takes_now (test-IsSilent flags) w
          (h.closed (empty-Closed listit false old)) j (store.states x).out v (h.reached x m t) b),
  )

-- the regex after a run
abbrev pub after : Regex → (ℕ → ℕ) → ℕ → Bool → Regex
after rx listit gen b = record rx { listit = listit; listgen = gen; matched = b }

abbrev pub Takes : Regex → List ℕ → List ℕ → Type 0
Takes rx list v = ListAccepts rx.store rx.listgen (test rx.flags) list v

-- the list that is built, with the marks
abbrev pub walk : Regex → List ℕ → Walk
walk rx list = record { listit = rx.listit; mem = list; found = rx.matched }

-- A list to which more states can be added in the same generation.
pub record Open (rx : Regex) (list : List ℕ) : Type 0 where
  pub live : Live rx list
  pub closed : Closed rx.store rx.listgen (test rx.flags) (walk rx list)
  pub room :
      length list + free rx.store rx.listgen (test rx.flags) (walk rx list) ≤ rx.store.state_count

-- the effect of `rgx_step`
pub record StepWorks (c : ℕ) (list : List ℕ) (rx : Regex) : Type 0 where
  pub list' : List ℕ
  pub listit' : ℕ → ℕ
  pub b : Bool
  pub result : step c list rx ≡ some (list', after rx listit' (rx.listgen + 1) b)
  pub open_ : Open (after rx listit' (rx.listgen + 1) b) list'
  pub hit : (b ≡ true) ↔ Takes rx list' []
  pub reads : (v : List ℕ) → Takes rx list' v ↔ Takes rx list (c ∷ v)

pub step-StepWorks : (c : ℕ) (list : List ℕ) (rx : Regex) → Live rx list → StepWorks c list rx
unfolding step
step-StepWorks c list rx live =
    let gen = rx.listgen + 1 in
    let silent = test-IsSilent rx.flags in
    let old : (x : ℕ) → rx.listit x < gen = λ x. omega (arith, live.bound x) in
    let (w, run_, h) =
      step_each-Stepped rx.store gen (test rx.flags) silent live.safe c list
        (empty_walk rx.store gen rx.flags rx.listit false) live.is_list
        (omega (arith, unmarked_all gen rx.listit rx.store.state_count)) in
    let good = h.good (empty-Good rx.store gen rx.flags rx.listit) in
    record {
      list' = w.mem;
      listit' = w.listit;
      b = w.found;
      result = rw (step, run_) refl;
      open_ = record {
        live = record {
          safe = live.safe;
          bound = h.bound (λ x. omega (arith, old x));
          is_list = good.listed;
        };
        closed = h.closed (empty-Closed rx.store gen rx.flags rx.listit false old);
        room = omega (arith, h.room, unmarked_all gen rx.listit rx.store.state_count);
      };
      hit = found_iff rx.store gen rx.flags w good;
      reads = step_iff rx.store gen rx.flags c list rx.listit w old live.is_list h;
    }
