-- ===== src/Events/Scan.antt =====
-- rt_scan and rt_poll of src/interpreter/runtime.c.
use lanky.Prelude.{
  ℕ, zero, suc, ◌+◌, ◌≤◌, ◌<◌, ◌≡◌, ◌≢◌, refl, Bool, true, none, some, List, [], ◌∷◌, ◌++◌, ◌==◌,
  if◌then◌else◌, get_elem?, length, occurrences, arith, ℕ_discrete, Bool-cases, Option-cases, inl,
  inr, sym, ◌∙◌, append_assoc, length-append,
}
use lanky.Events.{Runtime, remove_at, enqueue, scan_from, scan}

-- how often an event stands in the two lists
abbrev pub registered : ℕ → Runtime → ℕ
registered q rt = occurrences q rt.events + occurrences q rt.event_queue

pub occurrences-remove_at :
    (q : ℕ) (xs : List ℕ) (i e : ℕ)
    → get_elem? xs i ≡ some e
    → occurrences q (remove_at xs i) + (if e == q then 1 else 0) ≡ occurrences q xs
unfolding occurrences remove_at
occurrences-remove_at q [] i e h = absurd cc
occurrences-remove_at q (x ∷ xs) zero e h = let same : x ≡ e = cc in rw same (omega arith)
occurrences-remove_at q (x ∷ xs) (suc i) e h = omega (arith, occurrences-remove_at q xs i e h)

registered-enqueue :
    (q i e : ℕ) (rt : Runtime)
    → get_elem? rt.events i ≡ some e
    → registered q (enqueue i e rt) ≡ registered q rt
unfolding enqueue occurrences
registered-enqueue q i e rt h = omega (arith, occurrences-remove_at q rt.events i e h)

-- A scan loses no event and doubles none.
registered-scan_from :
    (fire : ℕ → Bool) (n i : ℕ) (rt : Runtime) (q : ℕ)
    → registered q (scan_from fire n i rt) ≡ registered q rt
unfolding scan_from
registered-scan_from fire zero i rt q = refl
registered-scan_from fire (suc n) i rt q = elim (Option-cases (get_elem? rt.events i)) [
  | inl e ↦ rw (scan_from, e) refl
  | inr (x, e) ↦
      rw (scan_from, e)
        (elim (Bool-cases (fire x)) [
          | inl f ↦ rw f (
              registered-scan_from fire n (suc i) (enqueue i x rt) q
              ∙ registered-enqueue q i x rt e)
          | inr f ↦ rw f (registered-scan_from fire n (suc i) rt q)
        ])
]

pub registered-scan :
    (fire : ℕ → Bool) (rt : Runtime) (q : ℕ) → registered q (scan fire rt) ≡ registered q rt
unfolding scan
registered-scan fire rt q = registered-scan_from fire (length rt.events) 0 rt q

-- A scan puts events in front of the queue only, and changes nothing but the two lists.
pub record Scanned (rt rt' : Runtime) : Type 0 where
  pub new : List ℕ
  pub queue : rt'.event_queue ≡ new ++ rt.event_queue
  pub same_store : rt'.store ≡ rt.store
  pub same_gc : rt'.gc ≡ rt.gc

Scanned-enqueue :
    (i e : ℕ) (rt : Runtime) {rt' : Runtime} → Scanned (enqueue i e rt) rt' → Scanned rt rt'
unfolding enqueue
Scanned-enqueue i e rt s = record {
  new = s.new ++ e ∷ [];
  queue = s.queue ∙ sym (append_assoc s.new (e ∷ []) rt.event_queue);
  same_store = s.same_store;
  same_gc = s.same_gc;
}

scan_from-Scanned : (fire : ℕ → Bool) (n i : ℕ) (rt : Runtime) → Scanned rt (scan_from fire n i rt)
unfolding scan_from
scan_from-Scanned fire zero i rt = record {
  new = [];
  queue = refl;
  same_store = refl;
  same_gc = refl;
}
scan_from-Scanned fire (suc n) i rt = elim (Option-cases (get_elem? rt.events i)) [
  | inl e ↦ rw (scan_from, e) (record { new = []; queue = refl; same_store = refl; same_gc = refl })
  | inr (x, e) ↦
      rw (scan_from, e)
        (elim (Bool-cases (fire x)) [
          | inl f ↦
              rw f (Scanned-enqueue i x rt (scan_from-Scanned fire n (suc i) (enqueue i x rt)))
          | inr f ↦ rw f (scan_from-Scanned fire n (suc i) rt)
        ])
]

pub scan-Scanned : (fire : ℕ → Bool) (rt : Runtime) → Scanned rt (scan fire rt)
unfolding scan
scan-Scanned fire rt = scan_from-Scanned fire (length rt.events) 0 rt

Scanned-length :
    {rt rt' : Runtime} → Scanned rt rt' → length rt.event_queue ≤ length rt'.event_queue
Scanned-length {rt} s = rw (s.queue) (omega (arith, length-append s.new rt.event_queue))

-- a position in front of another one of a list
get_elem?_below :
    (xs : List ℕ) (i j e : ℕ) → i ≤ j → get_elem? xs j ≡ some e → get_elem? xs i ≢ none
get_elem?_below [] i j e le h none_ = cc
get_elem?_below (x ∷ xs) zero j e le h none_ = cc
get_elem?_below (x ∷ xs) (suc i) zero e le h none_ = absurd (omega arith)
get_elem?_below (x ∷ xs) (suc i) (suc j) e le h none_ =
    get_elem?_below xs i j e (omega arith) h none_

pub get_elem?-length : (xs : List ℕ) (i e : ℕ) → get_elem? xs i ≡ some e → i < length xs
get_elem?-length [] i e h = absurd cc
get_elem?-length (x ∷ xs) zero e h = omega arith
get_elem?-length (x ∷ xs) (suc i) e h = omega (arith, get_elem?-length xs i e h)

enqueue-length :
    (fire : ℕ → Bool) (n i x : ℕ) (rt : Runtime)
    → 0 < length (scan_from fire n (suc i) (enqueue i x rt)).event_queue
unfolding enqueue
enqueue-length fire n i x rt =
    omega (arith, Scanned-length (scan_from-Scanned fire n (suc i) (enqueue i x rt)))

-- Behind an event that fired, the scan leaves a queue that is not empty.
scan_from_fired :
    (fire : ℕ → Bool) (n i j e : ℕ) (rt : Runtime)
    → get_elem? rt.events j ≡ some e
    → fire e ≡ true
    → i ≤ j
    → j < i + n
    → 0 < length (scan_from fire n i rt).event_queue
unfolding scan_from
scan_from_fired fire zero i j e rt h f above below = absurd (omega arith)
scan_from_fired fire (suc n) i j e rt h f above below = elim (ℕ_discrete i j) [
  | yes same ↦
      let here : get_elem? rt.events i ≡ some e = cc in
      rw (scan_from, here, f) (enqueue-length fire n i e rt)
  | no other ↦ elim (Option-cases (get_elem? rt.events i)) [
    | inl e' ↦ absurd (get_elem?_below rt.events i j e above h e')
    | inr (x, e') ↦
        rw (scan_from, e')
          (elim (Bool-cases (fire x)) [
            | inl f' ↦ rw f' (enqueue-length fire n i x rt)
            | inr f' ↦ rw f' (scan_from_fired fire n (suc i) j e rt h f (omega arith) (omega arith))
          ])
  ]
]

pub scan_fired :
    (fire : ℕ → Bool) (j e : ℕ) (rt : Runtime)
    → get_elem? rt.events j ≡ some e
    → fire e ≡ true
    → 0 < length (scan fire rt).event_queue
unfolding scan
scan_fired fire j e rt h f =
    scan_from_fired fire (length rt.events) 0 j e rt h f (omega arith)
      (omega (arith, get_elem?-length rt.events j e h))
