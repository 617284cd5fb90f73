-- ===== src/Events/Rounds.antt =====
-- rt_next of src/interpreter/runtime.c, with rt_register and the roots of the collector.
use lanky.Prelude.{
  ℕ, zero, suc, ◌+◌, ◌-◌, ◌<◌, ◌≡◌, refl, ap, sym, ◌∙◌, Bool, true, false, some, List, [], ◌∷◌,
  ◌++◌, ◌==◌, if◌then◌else◌, get_elem?, length, length-append, append_assoc, arith,
}
use lanky.Gc.{Gc, add_root_object, remove_root_object}
use lanky.Gc.Register.{remove-add_root_object}
use lanky.Events.{
  RtEvent, make, Runtime, returned, remove_at, poll, polled, delivered, idle, register, next, scan,
  scan_from, enqueue, make_event,
}
use lanky.Events.Scan.{
  registered, registered-scan, occurrences-remove_at, scan-Scanned, scan_fired, get_elem?-length,
}

event_at : (xs : List ℕ) (i : ℕ) → i < length xs → (e : ℕ) × (get_elem? xs i ≡ some e)
event_at [] i h = absurd (omega arith)
event_at (x ∷ xs) zero h = (x, refl)
event_at (x ∷ xs) (suc i) h = event_at xs i (omega arith)

-- what `poll` does with a queue that is not empty
pub record Polled (rt : Runtime) : Type 0 where
  pub event : ℕ
  pub rest : Runtime
  pub result : poll rt ≡ some (event, rest)
  pub taken : (q : ℕ) → registered q rest + (if event == q then 1 else 0) ≡ registered q rt
  pub same_gc : rest.gc ≡ rt.gc
  pub same_store : rest.store ≡ rt.store

poll-Polled : (rt : Runtime) → 0 < length rt.event_queue → Polled rt
unfolding poll
poll-Polled rt h =
    let (e, last) = event_at rt.event_queue (length rt.event_queue - 1) (omega arith) in
    record {
      event = e;
      rest = record rt { event_queue = remove_at rt.event_queue (length rt.event_queue - 1) };
      result = rw (poll, last) refl;
      taken = λ q.
          omega (arith, occurrences-remove_at q rt.event_queue (length rt.event_queue - 1) e last);
      same_gc = refl;
      same_store = refl;
    }

-- If an event has fired when a round scans, `rt_next` returns an event in that round, whatever the later
-- rounds are. The event is taken from the two lists once, nothing else is lost or doubled, and the
-- collector is the one from before after a gc_remove_root_object of the event's callback.
pub next_fired :
    (fire : ℕ → Bool) (more : List (ℕ → Bool)) (rt : Runtime) (j e : ℕ)
    → get_elem? rt.events j ≡ some e
    → fire e ≡ true
    → (e' : ℕ) × (rt' : Runtime) × (next (fire ∷ more) rt ≡ returned e' rt')
      × ((q : ℕ) → registered q rt' + (if e' == q then 1 else 0) ≡ registered q rt)
      × (rt'.gc ≡ remove_root_object rt.gc (rt.store e').callback)
unfolding next idle delivered polled
next_fired fire more rt j e h f =
    let p = poll-Polled (scan fire rt) (scan_fired fire j e rt h f) in
    let s = scan-Scanned fire rt in
    let busy : (length rt.events == 0) ≡ false = ground (arith, get_elem?-length rt.events j e h) in
    (
      p.event,
      delivered p.event p.rest,
      rw (next, busy, p.result) refl,
      (λ q. omega (arith, p.taken q, registered-scan fire rt q)),
      rw (p.same_gc, p.same_store, s.same_gc, s.same_store) refl,
    )

last_of_append :
    (xs : List ℕ) (e : ℕ)
    → (get_elem? (xs ++ e ∷ []) (length xs) ≡ some e) × (remove_at (xs ++ e ∷ []) (length xs) ≡ xs)
unfolding remove_at
last_of_append [] e = (refl, refl)
last_of_append (x ∷ xs) e = let (a, b) = last_of_append xs e in (a, ap (λ l. x ∷ l) b)

poll_last :
    (rt : Runtime) (older : List ℕ) (e : ℕ)
    → rt.event_queue ≡ older ++ e ∷ []
    → poll rt ≡ some (e, record rt { event_queue = older })
unfolding poll
poll_last rt older e h =
    let (a, b) = last_of_append older e in
    let last : length rt.event_queue - 1 ≡ length older =
      rw h (omega (arith, length-append older (e ∷ []))) in
    rw (poll, last, h, a, last, h, b) refl

idle_queued : (rt : Runtime) → 0 < length rt.event_queue → idle rt ≡ false
unfolding idle
idle_queued rt h = ground arith

-- The oldest event of the queue is returned first, also if other events fire in the round.
pub next_oldest :
    (fire : ℕ → Bool) (more : List (ℕ → Bool)) (rt : Runtime) (older : List ℕ) (e : ℕ)
    → rt.event_queue ≡ older ++ e ∷ []
    → (rt' : Runtime) × (new : List ℕ) × (next (fire ∷ more) rt ≡ returned e rt')
      × (rt'.event_queue ≡ new ++ older)
unfolding next delivered polled poll
next_oldest fire more rt older e h =
    let s = scan-Scanned fire rt in
    let queue : (scan fire rt).event_queue ≡ (s.new ++ older) ++ e ∷ [] =
      s.queue ∙ ap (λ l. s.new ++ l) h ∙ sym (append_assoc s.new older (e ∷ [])) in
    let busy = idle_queued rt (rw h (omega (arith, length-append older (e ∷ [])))) in
    (
      delivered e (record (scan fire rt) { event_queue = s.new ++ older }),
      s.new,
      rw (next, busy, poll_last (scan fire rt) (s.new ++ older) e queue) refl,
      refl,
    )

-- a runtime whose only event waits for its thread
abbrev alone : (ℕ → RtEvent) → Gc → ℕ → Runtime
alone store gc address = record { events = address ∷ []; event_queue = []; store = store; gc = gc }

next_alone :
    (fire : ℕ → Bool) (more : List (ℕ → Bool)) (store : ℕ → RtEvent) (gc : Gc) (address : ℕ)
    → fire address ≡ true
    → next (fire ∷ more) (alone store gc address)
      ≡ returned address (make store (remove_root_object gc (store address).callback))
unfolding next idle delivered polled poll remove_at scan scan_from enqueue make
next_alone fire more store gc address f = rw f refl

-- rounds in which an event has not fired
abbrev pub AreQuiet : ℕ → List (ℕ → Bool) → Type 0
AreQuiet address [] = Unit {0}
AreQuiet address (fire ∷ rounds) = (fire address ≡ false) × AreQuiet address rounds

next_quiet :
    (quiet rounds : List (ℕ → Bool)) (store : ℕ → RtEvent) (gc : Gc) (address : ℕ)
    → AreQuiet address quiet
    → next (quiet ++ rounds) (alone store gc address) ≡ next rounds (alone store gc address)
unfolding next idle polled poll scan scan_from
next_quiet [] rounds store gc address h = refl
next_quiet (fire ∷ quiet) rounds store gc address (f, h) =
    rw (next, f) (next_quiet quiet rounds store gc address h)

-- An event that is registered while none waits and the collector is started is returned by the first
-- round that finds it fired, whatever number of rounds came before. Its callback is a root until then, and
-- afterwards the lists and the collector are as before the registration.
pub next-register :
    (quiet : List (ℕ → Bool)) (fire : ℕ → Bool) (more : List (ℕ → Bool)) (rt : Runtime)
    (callback given address : ℕ)
    → AreQuiet address quiet
    → rt.events ≡ []
    → rt.event_queue ≡ []
    → rt.gc.started ≡ true
    → fire address ≡ true
    → (next (quiet ++ fire ∷ more) (register rt callback given address)
        ≡ returned address (record rt { store = (register rt callback given address).store }))
      × ((register rt callback given address).gc.roots ≡ callback ∷ rt.gc.roots)
unfolding register make_event make add_root_object
next-register quiet fire more rt callback given address before none_ empty on f =
    let found : (address == address) ≡ true = ground arith in
    (
      rw (none_, empty)
          (next_quiet quiet (fire ∷ more) (register rt callback given address).store
              (add_root_object rt.gc callback) address before
            ∙ next_alone fire more (register rt callback given address).store
                (add_root_object rt.gc callback) address f
            ∙ rw (found, remove-add_root_object rt.gc callback on) refl),
      rw on refl,
    )
