-- ===== src/Sse.antt =====
-- src/ride_service/sse.py: the registry of live event streams. A queue is an object that the
-- registry and a running stream may share, so the registry maps a key to the number of a queue,
-- and the queues stand in a heap by number; nothing removes a queue object.
pub mod Delivery
use uber_clone_python.Base.{
  ℕ, zero, suc, Bool, true, false, String, ◌==◌, ◌<>◌, Option, none, some, List, [], ◌∷◌, ◌++◌,
  length, if◌then◌else◌,
}

-- `Event = tuple[str, str]`
abbrev pub Event : Type 0
Event = String × String

-- What a queue holds: events, and `None`, the close sentinel.
abbrev pub Queue : Type 0
Queue = List (Option Event)

-- `_emitters`, and the queue objects.
pub record Registry : Type 0 where
  pub emitters : List (String × ℕ)
  pub queues : List Queue

-- `_emitters.get(key)`
unfoldable pub lookup : String → List (String × ℕ) → Option ℕ
lookup key [] = none
lookup key ((k, q) ∷ rest) = if k == key then some q else lookup key rest

-- `_emitters.pop(key, None)`, what is left
unfoldable pub erase : String → List (String × ℕ) → List (String × ℕ)
erase key [] = []
erase key ((k, q) ∷ rest) =
    let others = erase key rest in if k == key then others else (k, q) ∷ others

-- `queue.put_nowait(item)` on the queue of a number
unfoldable pub put_nowait : ℕ → Option Event → List Queue → List Queue
put_nowait n item [] = []
put_nowait zero item (q ∷ qs) = (q ++ item ∷ []) ∷ qs
put_nowait (suc n) item (q ∷ qs) = q ∷ put_nowait n item qs

unfoldable pub queue_at : ℕ → List Queue → Option Queue
queue_at n [] = none
queue_at zero (q ∷ qs) = some q
queue_at (suc n) (q ∷ qs) = queue_at n qs

-- A new queue is registered under the key, in the place of an older one.
unfoldable pub register : String → Registry → ℕ × Registry
register key r = (
  length r.queues,
  record { emitters = (key, length r.queues) ∷ erase key r.emitters; queues = r.queues ++ [] ∷ [] },
)

unfoldable pub unregister : String → Registry → Registry
unregister key r = record r { emitters = erase key r.emitters }

put_found : Option ℕ → Option Event → List Queue → List Queue
put_found none item qs = qs
put_found (some n) item qs = put_nowait n item qs

unfoldable pub emit : String → String → String → Registry → Registry
unfolding put_found
emit key event payload r = record r {
  queues = put_found (lookup key r.emitters) (some (event, payload)) r.queues;
}

unfoldable pub complete : String → Registry → Registry
unfolding put_found
complete key r = record {
  emitters = erase key r.emitters;
  queues = put_found (lookup key r.emitters) none r.queues;
}

unfoldable pub format_event : String → String → String
format_event event payload = "event: " <> event <> "\ndata: " <> payload <> "\n\n"

-- `queue.get()`: the first item, and the queue without it. An empty queue makes the reader wait.
unfoldable pub dequeue : ℕ → List Queue → Option (Option Event × List Queue)
dequeue n [] = none
dequeue zero ([] ∷ qs) = none
dequeue zero ((item ∷ q) ∷ qs) = some (item, q ∷ qs)
dequeue (suc n) (q ∷ qs) = elim (dequeue n qs) [
  | none ↦ none
  | some (item, qs') ↦ some (item, q ∷ qs')
]

-- One turn of the loop of `stream(key)` on queue `n`: it waits, it yields a frame, or it ends by
-- the sentinel and runs its `finally`.
pub data Turn : Type 0 where
  waits : Turn
  yields : String → Registry → Turn
  ends : Registry → Turn

turn_of : String → Registry → Option (Option Event × List Queue) → Turn
turn_of key r none = waits
turn_of key r (some (none, qs)) = ends (unregister key (record r { queues = qs }))
turn_of key r (some (some (event, payload), qs)) =
    yields (format_event event payload) (record r { queues = qs })

unfoldable pub turn : String → ℕ → Registry → Turn
unfolding turn_of dequeue unregister
turn key n r = turn_of key r (dequeue n r.queues)

-- The client goes away: the generator is closed, and its `finally` runs.
unfoldable pub disconnect : String → Registry → Registry
unfolding unregister
disconnect key r = unregister key r

-- `stream(key)` run as far as it goes without waiting, on fuel: the frames it yields, whether it
-- ended, and the registry it leaves.
unfoldable pub run_stream : ℕ → String → ℕ → Registry → List String × Bool × Registry
unfolding turn
run_stream zero key n r = ([], false, r)
run_stream (suc fuel) key n r = elim (turn key n r) [
  | waits ↦ ([], false, r)
  | ends r' ↦ ([], true, r')
  | yields frame r' ↦
      let (frames, ended, r'') = run_stream fuel key n r' in (frame ∷ frames, ended, r'')
]
