-- ===== src/Events/Tests.antt =====
-- src/interpreter/runtime.c on three events.
use lanky.Prelude.{ℕ, ◌+◌, ◌≡◌, refl, Bool, true, false, List, [], ◌∷◌, ◌++◌, ◌==◌, if◌then◌else◌}
use lanky.Gc.{Gc, init, remove_root_object}
use lanky.Events.{Runtime, returned, nothing, waiting, make_event, register, scan, next}
use lanky.Events.Scan.{registered}
use lanky.Events.Rounds.{next_fired, next_oldest, next-register}

abbrev collector : Gc
collector = init [] (λ o. false)

collector_started : collector.started ≡ true
unfolding init
collector_started = refl

-- the callback of the event e is e + 100
abbrev three : Runtime
three = record {
  events = 1 ∷ 2 ∷ 3 ∷ [];
  event_queue = [];
  store = λ e. make_event (e + 100);
  gc = collector;
}

abbrev none_fired : ℕ → Bool
none_fired e = false

abbrev all_fired : ℕ → Bool
all_fired e = true

-- A scan passes over the event behind one that it takes.
scan-three : scan all_fired three ≡ record three { events = 2 ∷ []; event_queue = 3 ∷ 1 ∷ [] }
unfolding scan
scan-three = refl

next_waiting : next (none_fired ∷ []) three ≡ waiting three
unfolding next
next_waiting = refl

next_nothing : next [] (record three { events = [] }) ≡ nothing (record three { events = [] })
unfolding next
next_nothing = refl

next_fired_example :
    (e' : ℕ) × (rt' : Runtime) × (next (all_fired ∷ []) three ≡ returned e' rt')
    × ((q : ℕ) → registered q rt' + (if e' == q then 1 else 0) ≡ registered q three)
    × (rt'.gc ≡ remove_root_object three.gc (three.store e').callback)
next_fired_example = next_fired all_fired [] three 1 2 refl refl

abbrev queued : Runtime
queued = record three { events = 3 ∷ []; event_queue = 2 ∷ 1 ∷ [] }

next_oldest_example :
    (rt' : Runtime) × (new : List ℕ) × (next (all_fired ∷ []) queued ≡ returned 1 rt')
    × (rt'.event_queue ≡ new ++ 2 ∷ [])
next_oldest_example = next_oldest all_fired [] queued (2 ∷ []) 1 refl

abbrev quiet : Runtime
quiet = record three { events = [] }

next-register_example :
    (next ((λ e. false) ∷ all_fired ∷ []) (register quiet 50 7 4)
      ≡ returned 4 (record quiet { store = (register quiet 50 7 4).store }))
    × ((register quiet 50 7 4).gc.roots ≡ 50 ∷ quiet.gc.roots)
next-register_example =
    next-register ((λ e. false) ∷ []) all_fired [] quiet 50 7 4 (refl, tt) refl refl
      collector_started refl
