-- ===== src/Events.antt =====
-- src/interpreter/runtime.c: the events that wait for their threads, and the queue of the ones that
-- fired. An event is its address, 0 is NULL; `store` is the memory of the events. A list is what an
-- arraylist holds. `fire` is set by the event's thread: a scan reads it once for each event, and what it
-- reads is the argument `fire` of the scan.
mod Scan
mod Rounds
mod Tests
use lanky.Prelude.{
  ℕ, zero, suc, ◌-◌, Bool, true, false, ◌&&◌, Option, none, some, List, [], ◌∷◌, ◌++◌, ◌==◌,
  if◌then◌else◌, get_elem?, length,
}
use lanky.Gc.{Gc, add_root_object, remove_root_object}

pub record RtEvent : Type 0 where
  pub callback : ℕ
  pub args : ℕ
  pub data_of : ℕ

pub record Runtime : Type 0 where
  pub events : List ℕ
  pub event_queue : List ℕ
  pub store : ℕ → RtEvent
  pub gc : Gc

unfoldable pub make_event : ℕ → RtEvent
make_event callback = record { callback = callback; args = 0; data_of = 0 }

-- `rt_make`, with the memory and the collector around it
unfoldable pub make : (ℕ → RtEvent) → Gc → Runtime
make store gc = record { events = []; event_queue = []; store = store; gc = gc }

-- `address` is what malloc gives; the thread starts with the flag cleared
unfoldable pub register : Runtime → ℕ → ℕ → ℕ → Runtime
unfolding make_event
register rt callback given address = record rt {
  events = rt.events ++ address ∷ [];
  store =
      λ e. if e == address then record (make_event callback) { data_of = given } else rt.store e;
  gc = add_root_object rt.gc callback;
}

-- `arr_remove(list, NULL, index)`
unfoldable pub remove_at : List ℕ → ℕ → List ℕ
remove_at [] i = []
remove_at (x ∷ xs) zero = xs
remove_at (x ∷ xs) (suc i) = x ∷ remove_at xs i

unfoldable pub poll : Runtime → Option (ℕ × Runtime)
unfolding remove_at
poll rt = elim (get_elem? rt.event_queue (length rt.event_queue - 1)) [
  | none ↦ none
  | some e ↦
      some (e, record rt { event_queue = remove_at rt.event_queue (length rt.event_queue - 1) })
]

-- the event at `i` goes to the front of the queue
unfoldable pub enqueue : ℕ → ℕ → Runtime → Runtime
unfolding remove_at
enqueue i e rt = record rt { events = remove_at rt.events i; event_queue = e ∷ rt.event_queue }

-- The index goes on after a removal too. The fuel of the loop is the number of events.
unfoldable pub scan_from : (ℕ → Bool) → ℕ → ℕ → Runtime → Runtime
unfolding enqueue
scan_from fire zero i rt = rt
scan_from fire (suc n) i rt = elim (get_elem? rt.events i) [
  | none ↦ rt
  | some e ↦ scan_from fire n (suc i) (if fire e then enqueue i e rt else rt)
]

unfoldable pub scan : (ℕ → Bool) → Runtime → Runtime
unfolding scan_from
scan fire rt = scan_from fire (length rt.events) 0 rt

-- `nothing` is the result NULL, `waiting` the state after the rounds that are given
pub data Delivery : Type 0 where
  returned : ℕ → Runtime → Delivery
  nothing : Runtime → Delivery
  waiting : Runtime → Delivery

unfoldable pub delivered : ℕ → Runtime → Runtime
delivered e rt = record rt { gc = remove_root_object rt.gc (rt.store e).callback }

unfoldable pub idle : Runtime → Bool
idle rt = (length rt.events == 0) && (length rt.event_queue == 0)

-- the event that a round polls, or else what the later rounds give
unfoldable pub polled : Option (ℕ × Runtime) → Delivery → Delivery
unfolding delivered
polled none later = later
polled (some (e, rt)) later = returned e (delivered e rt)

-- the loop of `rt_next`: a round for each of the flags that its scans read, with a sleep in between
unfoldable pub next : List (ℕ → Bool) → Runtime → Delivery
unfolding scan poll polled idle
next [] rt = if idle rt then nothing rt else waiting rt
next (fire ∷ more) rt =
    let later = next more (scan fire rt) in
    if idle rt then nothing rt else polled (poll (scan fire rt)) later
