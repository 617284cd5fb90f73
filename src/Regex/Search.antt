-- ===== src/Regex/Search.antt =====
-- rgx_search of src/stdlib/regex.c: it returns, and does not pass over a word of the pattern.
use lanky.Prelude.{
  ℕ, suc, ◌+◌, ◌≤◌, ◌<◌, ◌≡◌, refl, ◌∙◌, Bool, true, false, Option, none, some, List, [], ◌∷◌, ◌++◌,
  ◌⊎◌, Bool-cases, inl, inr, length, arith,
}
use mathlib.Core.List.Memᴰ
use lanky.Regex.{Ast}
use lanky.Regex.Language.{In, Accepted}
use lanky.Regex.Slots.{Inside}
use lanky.Regex.Adding.{add_state-Walks}
use lanky.Regex.Steps.{Walked-Closed, complete}
use lanky.Regex.Lists.{Open, walk, Takes, after, step-StepWorks, test-IsSilent, unmarked_all}
use lanky.Regex.Matches.{IsRegex, start_iff}
use lanky.Regex.Compiled.{compiled-IsRegex}
use lanky.Regex.Run.{
  test, Regex, compiled, add, add_start, step, reset_all, search_at, search_from, search,
}

List-cases : (xs : List ℕ) → (xs ≡ []) ⊎ ((y : ℕ) × (ys : List ℕ) × (xs ≡ y ∷ ys))
List-cases [] = inl refl
List-cases (y ∷ ys) = inr (y, ys, refl)

-- the list with the start
record Started (rx : Regex) (list : List ℕ) : Type 0 where
  list' : List ℕ
  listit' : ℕ → ℕ
  b : Bool
  result : add_start rx list ≡ some (list', after rx listit' rx.listgen b)
  open_ : Open (after rx listit' rx.listgen b) list'
  starts : (v : List ℕ) → Accepted (test rx.flags) rx.store.states rx.start v → Takes rx list' v

add_start-Started :
    (rx : Regex) (list : List ℕ)
    → Inside rx.store.state_count rx.start
    → Open rx list
    → Started rx list
unfolding add_start add
add_start-Started rx list entry h =
    let takes = test rx.flags in
    let (w, run_, g) =
      add_state-Walks rx.store rx.listgen takes h.live.safe (rx.store.state_count + 1) rx.start
        (walk rx list) entry (omega (arith, h.room)) h.room in
    let closed = Walked-Closed rx.store rx.listgen takes (walk rx list) rx.start w g h.closed in
    record {
      list' = w.mem;
      listit' = w.listit;
      b = w.found;
      result = rw (add_start, run_) refl;
      open_ = record {
        live = record {
          safe = h.live.safe;
          bound = g.bound h.live.bound;
          is_list = g.lists h.live.is_list;
        };
        closed = closed;
        room = omega (arith, g.room, h.room);
      };
      starts = λ v (k, a).
          complete rx.store rx.listgen takes (test-IsSilent rx.flags) w closed k rx.start v g.here
            a;
    }

-- the empty list
fresh-Open : (head : Ast) (rx : Regex) → IsRegex head rx → Open rx []
fresh-Open head rx h = record {
  live = record {
    safe = h.safe;
    bound = λ x. omega (arith, h.fresh x);
    is_list = λ x m. absurd (Memᴰ.not-nil m);
  };
  closed = λ x m. absurd (let f = h.fresh x in ground (arith, f, m));
  room = omega (arith, unmarked_all rx.listgen rx.listit rx.store.state_count);
}

-- an attempt from one index on
record Attempted (input list : List ℕ) (rx : Regex) : Type 0 where
  hit : Bool
  list' : List ℕ
  listit' : ℕ → ℕ
  gen : ℕ
  b : Bool
  result : search_at input list rx ≡ some (hit, list', after rx listit' gen b)
  open_ : Open (after rx listit' gen b) list'
  finds : (c : ℕ) (w rest : List ℕ) → input ≡ c ∷ w ++ rest → Takes rx list (c ∷ w) → hit ≡ true

-- a character without a match
search_at_miss :
    (x : ℕ) (input list list' : List ℕ) (rx rx' : Regex) (y : ℕ) (ys : List ℕ)
    → step x list rx ≡ some (list', rx')
    → rx'.matched ≡ false
    → list' ≡ y ∷ ys
    → search_at (x ∷ input) list rx ≡ search_at input list' rx'
unfolding search_at
search_at_miss x input list list' rx rx' y ys result miss left =
    rw (search_at, result) (simp (miss, left) refl)

search_at-Attempted : (input list : List ℕ) (rx : Regex) → Open rx list → Attempted input list rx
unfolding search_at
search_at-Attempted [] list rx h = record {
  hit = false;
  list' = list;
  listit' = rx.listit;
  gen = rx.listgen;
  b = rx.matched;
  result = refl;
  open_ = h;
  finds = λ c w rest e t. absurd cc;
}
search_at-Attempted (x ∷ input) list rx h =
    let s = step-StepWorks x list rx h.live in
    let rx' = after rx s.listit' (rx.listgen + 1) s.b in
    let reads : (c : ℕ) (w rest : List ℕ)
        → x ∷ input ≡ c ∷ w ++ rest
        → Takes rx list (c ∷ w)
        → Takes rx s.list' w =
      λ c w rest e t. let same : c ≡ x = cc in (s.reads w).1 (rw same at t) in
    elim (Bool-cases s.b) [
      | inl e ↦ record {
        hit = true;
        list' = s.list';
        listit' = s.listit';
        gen = rx.listgen + 1;
        b = s.b;
        result = rw (search_at, s.result, e) refl;
        open_ = s.open_;
        finds = λ c w rest e t. refl;
      }
      | inr e ↦ elim (List-cases s.list') [
        | inl none_left ↦ record {
          hit = false;
          list' = [];
          listit' = s.listit';
          gen = rx.listgen + 1;
          b = s.b;
          result = rw (search_at, s.result, e, none_left) refl;
          open_ = rw none_left at s.open_;
          finds = λ c w rest e' t.
              absurd (let (y, m, a) = reads c w rest e' t in Memᴰ.not-nil (rw none_left at m));
        }
        | inr (y, ys, some_left) ↦
            let r = search_at-Attempted input s.list' rx' s.open_ in
            record {
              hit = r.hit;
              list' = r.list';
              listit' = r.listit';
              gen = r.gen;
              b = r.b;
              result =
                  search_at_miss x input list s.list' rx rx' y ys s.result e some_left ∙ r.result;
              open_ = r.open_;
              finds = λ c w rest e' t.
                  let behind : input ≡ w ++ rest = cc in
                  later s.b s.list' rx input r.hit w rest e s.hit.1 r.finds behind
                    (reads c w rest e' t);
            }
      ]
    ]
  where
    -- a word is read at once, or it goes on
    later :
        (b : Bool) (list : List ℕ) (rx : Regex) (input : List ℕ) (hit : Bool) (w rest : List ℕ)
        → b ≡ false
        → (Takes rx list [] → b ≡ true)
        → ((c : ℕ) (w rest : List ℕ) → input ≡ c ∷ w ++ rest → Takes rx list (c ∷ w) → hit ≡ true)
        → input ≡ w ++ rest
        → Takes rx list w
        → hit ≡ true
    later b list rx input hit [] rest e now more e' t = absurd (let f = now t in cc)
    later b list rx input hit (c ∷ w) rest e now more e' t = more c w rest e' t

-- a search from the index `idx` on
record Searched (head : Ast) (idx : ℕ) (input list : List ℕ) (rx : Regex) : Type 0 where
  found : Option ℕ
  rx' : Regex
  result : search_from idx input list rx ≡ some (found, rx')
  finds :
      (before : List ℕ) (c : ℕ) (w rest : List ℕ)
      → input ≡ before ++ c ∷ w ++ rest
      → In (test rx.flags) head (c ∷ w)
      → (i : ℕ) × (found ≡ some i) × (i ≤ idx + length before)
  within : (i : ℕ) → found ≡ some i → i < idx + length input

-- a word that does not begin at this index is found from the next one on
beyond :
    (x idx : ℕ) (input before : List ℕ) (c : ℕ) (w rest : List ℕ) (found : Option ℕ)
    → x ∷ input ≡ before ++ c ∷ w ++ rest
    → (x ∷ input ≡ c ∷ w ++ rest → ⊥)
    → ((before' : List ℕ)
        → input ≡ before' ++ c ∷ w ++ rest
        → (i : ℕ) × (found ≡ some i) × (i ≤ suc idx + length before'))
    → (i : ℕ) × (found ≡ some i) × (i ≤ idx + length before)
beyond x idx input [] c w rest found e missed more = absurd (missed e)
beyond x idx input (b ∷ before) c w rest found e missed more =
    let (i, f, l) = more before cc in (i, f, omega (arith, l))

search_from-Searched :
    (head : Ast) (idx : ℕ) (input list : List ℕ) (rx : Regex)
    → Inside rx.store.state_count rx.start
    → ((v : List ℕ)
        → In (test rx.flags) head v
        → Accepted (test rx.flags) rx.store.states rx.start v)
    → Open rx list
    → Searched head idx input list rx
unfolding search_from
search_from-Searched head idx [] list rx entry words h = record {
  found = none;
  rx' = reset_all rx;
  result = refl;
  finds = λ before c w rest e i. absurd (nothing_there before c w rest e);
  within = λ i e. absurd cc;
}
  where
    nothing_there :
        (before : List ℕ) (c : ℕ) (w rest : List ℕ)
        → ◌≡◌ {A = List ℕ} [] (before ++ c ∷ w ++ rest)
        → ⊥
    nothing_there [] c w rest e = absurd cc
    nothing_there (b ∷ before) c w rest e = absurd cc
search_from-Searched head idx (x ∷ input) list rx entry words h =
    let st = add_start-Started rx list entry h in
    let rx₁ = after rx st.listit' rx.listgen st.b in
    let a = search_at-Attempted (x ∷ input) st.list' rx₁ st.open_ in
    let rx₂ = after rx a.listit' a.gen a.b in
    elim (Bool-cases a.hit) [
      | inl e ↦ record {
        found = some idx;
        rx' = reset_all rx₂;
        result = rw (search_from, st.result, a.result, e) refl;
        finds = λ before c w rest e' i. (idx, refl, omega arith);
        within = λ i e'. let same : idx ≡ i = cc in omega (arith, same);
      }
      | inr e ↦
          let r = search_from-Searched head (suc idx) input a.list' rx₂ entry words a.open_ in
          record {
            found = r.found;
            rx' = r.rx';
            result = rw (search_from, st.result, a.result, e) r.result;
            finds = λ before c w rest e' i.
                beyond x idx input before c w rest r.found e'
                  (λ now. let f = a.finds c w rest now (st.starts (c ∷ w) (words (c ∷ w) i)) in cc)
                  (λ before' e''. r.finds before' c w rest e'' i);
            within = λ i e'. omega (arith, r.within i e');
          }
    ]

-- A search with a compiled pattern, under either flag, returns: its lists have room, and the calls of
-- rgx_add_state end. An index that it gives is one of the text, and where a word of the pattern that is not
-- empty begins somewhere, it gives that index or an earlier one.
pub search-finds :
    (head : Ast) (flags : ℕ) (text : List ℕ)
    → (found : Option ℕ) × (rx' : Regex) × (search (record (compiled head) { flags = flags }) text
        ≡ some (found, rx'))
      × ((before : List ℕ) (c : ℕ) (w rest : List ℕ)
          → text ≡ before ++ c ∷ w ++ rest
          → In (test flags) head (c ∷ w)
          → (i : ℕ) × (found ≡ some i) × (i ≤ length before))
      × ((i : ℕ) → found ≡ some i → i < length text)
unfolding search compiled
search-finds head flags text =
    let rx = record (compiled head) { flags = flags } in
    let h = compiled-IsRegex head flags in
    let st = add_start-Started rx [] h.entry (fresh-Open head rx h) in
    let r =
      search_from-Searched head 0 text st.list' (after rx st.listit' rx.listgen st.b) h.entry
        (λ v i. (start_iff head rx h v).1 i) st.open_ in
    (
      r.found,
      r.rx',
      rw (search, st.result) r.result,
      (λ before c w rest e i.
          let (j, f, l) = r.finds before c w rest e i in (j, f, omega (arith, l))),
      (λ i e. omega (arith, r.within i e)),
    )
