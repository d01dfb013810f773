-- ===== src/Sse/Delivery.antt =====
-- What the registry delivers: every event emitted under a key reaches the stream that registered
-- last, once and in order, and a close ends it.
use uber_clone_python.Base.{
  ℕ, zero, suc, ◌<◌, String, ◌==◌, eq_iff, eq_refl, ◌≡◌, refl, ◌∙◌, ◌≢◌, true, Option, none, some,
  List, [], ◌∷◌, ◌++◌, map, length, arith, if◌then◌else◌, ap,
}
use mathlib.Core.List.{append-nil, append_assoc}
use uber_clone_python.Sse.{
  Event, Queue, Registry, lookup, erase, put_nowait, queue_at, register, unregister, emit, complete,
  format_event, dequeue, disconnect, run_stream,
}

pub lookup-erase :
    (k j : String) (l : List (String × ℕ))
    → lookup j (erase k l) ≡ (if k == j then none else lookup j l)
unfolding lookup erase
lookup-erase k j [] = ground arith
lookup-erase k j ((i, n) ∷ l) =
    ground (arith, lookup-erase k j l, eq_iff i k, eq_iff i j, eq_iff k j)

-- The last queue of a heap that has just grown.
queue_at-new : (qs : List Queue) → queue_at (length qs) (qs ++ [] ∷ []) ≡ some []
unfolding queue_at
queue_at-new [] = refl
queue_at-new (q ∷ qs) = queue_at-new qs

queue_at-put_self :
    (n : ℕ) (item : Option Event) (qs : List Queue) (q : Queue)
    → queue_at n qs ≡ some q
    → queue_at n (put_nowait n item qs) ≡ some (q ++ item ∷ [])
unfolding queue_at put_nowait
queue_at-put_self n item [] q h = cc
queue_at-put_self zero item (p ∷ qs) q h = ground arith
queue_at-put_self (suc n) item (p ∷ qs) q h = queue_at-put_self n item qs q h

pub queue_at-put_ne :
    (n m : ℕ) (item : Option Event) (qs : List Queue)
    → n ≢ m
    → queue_at m (put_nowait n item qs) ≡ queue_at m qs
unfolding queue_at put_nowait
queue_at-put_ne n m item [] h = refl
queue_at-put_ne zero zero item (p ∷ qs) h = absurd (h refl)
queue_at-put_ne zero (suc m) item (p ∷ qs) h = refl
queue_at-put_ne (suc n) zero item (p ∷ qs) h = refl
queue_at-put_ne (suc n) (suc m) item (p ∷ qs) h = queue_at-put_ne n m item qs (λ e. h (ap suc e))

-- Events emitted one after the other under one key.
pub emit_all : String → List Event → Registry → Registry
emit_all key [] r = r
emit_all key ((event, payload) ∷ es) r = emit_all key es (emit key event payload r)

pub emit_live :
    (key event payload : String) (r : Registry) (n : ℕ) (q : Queue)
    → lookup key r.emitters ≡ some n
    → queue_at n r.queues ≡ some q
    → (queue_at n (emit key event payload r).queues ≡ some (q ++ some (event, payload) ∷ []))
      × (lookup key (emit key event payload r).emitters ≡ some n)
unfolding emit
emit_live key event payload r n q h at =
    ground (arith, queue_at-put_self n (some (event, payload)) r.queues q)

emit_all_live :
    (key : String) (es : List Event) (r : Registry) (n : ℕ) (q : Queue)
    → lookup key r.emitters ≡ some n
    → queue_at n r.queues ≡ some q
    → (queue_at n (emit_all key es r).queues ≡ some (q ++ map some es))
      × (lookup key (emit_all key es r).emitters ≡ some n)
unfolding emit_all
emit_all_live key [] r n q h at = (rw append-nil at, h)
emit_all_live key ((event, payload) ∷ es) r n q h at =
    let (at', h') = emit_live key event payload r n q h at in
    let (at'', h'') =
      emit_all_live key es (emit key event payload r) n (q ++ some (event, payload) ∷ []) h' at' in
    (at'' ∙ ap some (append_assoc q (some (event, payload) ∷ []) (map some es)), h'')

-- Taking the first item of a queue.
dequeue-cons :
    (n : ℕ) (qs : List Queue) (item : Option Event) (q : Queue)
    → queue_at n qs ≡ some (item ∷ q)
    → (qs' : List Queue) × (dequeue n qs ≡ some (item, qs')) × (queue_at n qs' ≡ some q)
unfolding queue_at dequeue
dequeue-cons n [] item q h = absurd (ground arith)
dequeue-cons zero ([] ∷ qs) item q h = absurd (ground arith)
dequeue-cons zero ((x ∷ p) ∷ qs) item q h = (q ∷ qs, ground arith, refl)
dequeue-cons (suc n) (p ∷ qs) item q h =
    let (qs', e, at) = dequeue-cons n qs item q h in (p ∷ qs', ground arith, at)

-- The frames of some events.
pub frames_of : List Event → List String
frames_of [] = []
frames_of ((event, payload) ∷ es) = format_event event payload ∷ frames_of es

run_stream_all :
    (fuel : ℕ) (key : String) (n : ℕ) (es : List Event) (r : Registry)
    → length es < fuel
    → queue_at n r.queues ≡ some (map some es ++ none ∷ [])
    → (r' : Registry) × (run_stream fuel key n r ≡ (frames_of es, true, r'))
      × (r'.emitters ≡ erase key r.emitters)
unfolding run_stream frames_of
run_stream_all zero key n es r enough at = absurd (omega arith)
run_stream_all (suc fuel) key n [] r enough at =
    let (qs', e, at') = dequeue-cons n r.queues none [] at in
    (unregister key (record r { queues = qs' }), ground arith, ground arith)
run_stream_all (suc fuel) key n ((event, payload) ∷ es) r enough at =
    let (qs', e, at') =
      dequeue-cons n r.queues (some (event, payload)) (map some es ++ none ∷ []) at in
    let (r', run, gone) =
      run_stream_all fuel key n es (record r { queues = qs' }) (omega arith) at' in
    (r', ground arith, gone)

pub complete_live :
    (key : String) (r : Registry) (n : ℕ) (q : Queue)
    → lookup key r.emitters ≡ some n
    → queue_at n r.queues ≡ some q
    → queue_at n (complete key r).queues ≡ some (q ++ none ∷ [])
unfolding complete
complete_live key r n q h at = ground (arith, queue_at-put_self n none r.queues q)

pub complete_gone : (key : String) (r : Registry) → lookup key (complete key r).emitters ≡ none
unfolding complete
complete_gone key r = rw lookup-erase (ground (arith, eq_refl key))

register_live :
    (key : String) (r : Registry)
    → (lookup key (register key r).1.emitters ≡ some (register key r).0)
      × (queue_at (register key r).0 (register key r).1.queues ≡ some [])
unfolding register lookup
register_live key r = (ground (arith, eq_refl key), queue_at-new r.queues)

-- A stream that registers under a key, is sent events under that key and is then completed yields
-- one frame for each event, in order, ends, and leaves the key unregistered, for every fuel above
-- the number of events.
pub stream_delivers :
    (key : String) (es : List Event) (r : Registry) (fuel : ℕ)
    → length es < fuel
    → let (n, opened) = register key r in
      let closed = complete key (emit_all key es opened) in
      ((run_stream fuel key n closed).0 ≡ frames_of es)
      × ((run_stream fuel key n closed).1 ≡ true)
      × (lookup key (run_stream fuel key n closed).2.emitters ≡ none)
stream_delivers key es r fuel enough =
    let (n, opened) = register key r in
    let (h, at) = register_live key r in
    let (at', h') = emit_all_live key es opened n [] h at in
    let closed = complete key (emit_all key es opened) in
    let (r', run, gone) =
      run_stream_all fuel key n es closed enough
        (complete_live key (emit_all key es opened) n (map some es) h' at') in
    rw run (refl, refl, rw gone (rw lookup-erase (ground (arith, eq_refl key))))

-- An event emitted under a key whose queue is another one does not touch a queue.
pub emit_other :
    (key event payload : String) (r : Registry) (n m : ℕ)
    → lookup key r.emitters ≡ some n
    → n ≢ m
    → queue_at m (emit key event payload r).queues ≡ queue_at m r.queues
unfolding emit
emit_other key event payload r n m h ne =
    ground (arith, queue_at-put_ne n m (some (event, payload)) r.queues)

pub emit_absent :
    (key event payload : String) (r : Registry)
    → lookup key r.emitters ≡ none
    → emit key event payload r ≡ r
unfolding emit
emit_absent key event payload r h = ground arith

-- If two streams register under one key, then the newer one is the one registered, but when the
-- older one closes the key has no registration, and an event emitted under the key does not reach
-- the newer stream's queue.
pub older_stream_detaches_newer :
    (key event payload : String) (r : Registry)
    → let (_, first) = register key r in
      let (n, both) = register key first in
      let after = disconnect key both in
      (lookup key both.emitters ≡ some n)
      × (lookup key after.emitters ≡ none)
      × (queue_at n (emit key event payload after).queues ≡ some [])
unfolding disconnect
older_stream_detaches_newer key event payload r =
    let (_, first) = register key r in
    let (n, both) = register key first in
    let (h, at) = register_live key first in
    let gone : lookup key (unregister key both).emitters ≡ none =
      unfold unregister in rw lookup-erase (ground (arith, eq_refl key)) in
    (
      h,
      gone,
      ap (λ (x : Registry). queue_at n x.queues)
            (emit_absent key event payload (unregister key both) gone)
          ∙ unfold unregister in at,
    )
