-- ===== src/Listener/Delivery.antt =====
-- The messages that the listener passes on, against the queues that get them.
use uber_clone_python.Base.{
  ℕ, String, ◌==◌, eq_iff, ◌≡◌, refl, ap, ◌∙◌, ◌≢◌, inl, inr, Bool, true, false, ◌&&◌, Option, some,
  List, [], ◌∷◌, ◌++◌, map, arith, if◌then◌else◌, Bool-cases, Option-cases,
}
use uber_clone_python.Models.{Ride}
use uber_clone_python.Env.{Env, World}
use mathlib.Core.Option
use mathlib.Core.List.{append-nil, append_assoc}
use uber_clone_python.Base.{◌<>◌}
use uber_clone_python.Text.{removeprefix, removeprefix-append}
use uber_clone_python.Geo.{eta_minutes}
use uber_clone_python.Dispatch.{NearbyDriver, ride_offer_channel_prefix, offer_payload}
use uber_clone_python.Dispatch.Offers.{Offered, channels}
use uber_clone_python.Sse.{Event, Registry, lookup, queue_at, emit}
use uber_clone_python.Sse.Delivery.{emit_live, emit_absent, queue_at-put_ne}
use uber_clone_python.Listener.{PubSubMessage, forward, listen_loop}

-- What Redis hands to a subscriber of the pattern for a message published on a channel.
abbrev pub delivered : String × String → PubSubMessage
delivered (channel, payload) = record {
  kind = "pmessage";
  pattern = some (ride_offer_channel_prefix <> "*");
  channel = channel;
  text = payload;
}

-- One event for each driver.
abbrev pub emit_offers : List NearbyDriver → List String → Registry → Registry
emit_offers (d ∷ ds) (payload ∷ payloads) r =
    emit_offers ds payloads (emit d.driver_id "ride_offer" payload r)
emit_offers _ _ r = r

forward-delivered :
    (key payload : String) (r : Registry)
    → forward (delivered (ride_offer_channel_prefix <> key, payload)) r
      ≡ emit key "ride_offer" payload r
unfolding forward
forward-delivered key payload r =
    ap (λ k. emit k "ride_offer" payload r) (removeprefix-append ride_offer_channel_prefix key)

listen_loop-delivered :
    (ds : List NearbyDriver) (sent : List (String × String)) (r : Registry)
    → map (λ m. m.0) sent ≡ channels ds
    → listen_loop (map delivered sent) r ≡ emit_offers ds (map (λ m. m.1) sent) r
unfolding listen_loop
listen_loop-delivered [] [] r h = refl
listen_loop-delivered [] (m ∷ sent) r h = absurd (ground arith)
listen_loop-delivered (d ∷ ds) [] r h = absurd (ground arith)
listen_loop-delivered (d ∷ ds) ((channel, payload) ∷ sent) r h =
    let same : channel ≡ ride_offer_channel_prefix <> d.driver_id = ground arith in
    let told : forward (delivered (channel, payload)) r ≡ emit d.driver_id "ride_offer" payload r =
      ap (λ c. forward (delivered (c, payload)) r) same ∙ forward-delivered d.driver_id payload r in
    ap (listen_loop (map delivered sent)) told
    ∙ listen_loop-delivered ds sent (emit d.driver_id "ride_offer" payload r) (ground arith)

module _ (env : Env) where
  -- If the messages that a fanout published, one for each nearby driver, are delivered to the
  -- listener, it emits one offer for each of these drivers, in the order of the search, under the
  -- driver's id, with the payload for the driver's own time of arrival.
  pub listen_loop-Offered :
      (ride : Ride) (ds : List NearbyDriver) (before after : World env)
      → Offered env ride ds before after
      → (r : Registry)
      → (sent : List (String × String)) × (payloads : List String) × (after.published
          ≡ before.published ++ sent)
        × (map some payloads
            ≡ map
                (λ d. Option.map (offer_payload env ride) (eta_minutes env.floats d.distance_km))
                ds)
        × (listen_loop (map delivered sent) r ≡ emit_offers ds payloads r)
  listen_loop-Offered ride ds before after o r = (
    o.sent,
    map (λ m. m.1) o.sent,
    o.published,
    some_each o.sent ∙ o.texts,
    listen_loop-delivered ds o.sent r o.to_each,
  )
    where
      some_each : (l : List (String × String)) → map some (map (λ m. m.1) l) ≡ map (λ m. some m.1) l
      some_each [] = refl
      some_each (m ∷ l) = ap (λ t. some m.1 ∷ t) (some_each l)

-- What the stream of a key is to hear of some messages.
abbrev pub heard : String → List PubSubMessage → List (Option Event)
heard key [] = []
heard key (m ∷ ms) =
    let others = heard key ms in
    if m.kind == "pmessage" && removeprefix ride_offer_channel_prefix m.channel == key
    then some ("ride_offer", m.text) ∷ others
    else others

-- The keys of the registry and the queue of one of them.
abbrev pub AloneOn : String → ℕ → Registry → Type 0
AloneOn key n r = (k : String) → lookup k r.emitters ≡ some n → k ≡ key

emit_aside :
    (key other event payload : String) (r : Registry) (n : ℕ)
    → AloneOn key n r
    → other ≢ key
    → queue_at n (emit other event payload r).queues ≡ queue_at n r.queues
unfolding emit
emit_aside key other event payload r n only apart = elim (Option-cases (lookup other r.emitters)) [
  | inl missing ↦
      ap (λ (x : Registry). queue_at n x.queues) (emit_absent other event payload r missing)
  | inr (m, live) ↦
      let ne : m ≢ n = λ same. apart (only other (live ∙ ap some same)) in
      ground (arith, queue_at-put_ne m n (some (event, payload)) r.queues)
]

abbrev is_for : String → PubSubMessage → Bool
is_for key m = m.kind == "pmessage" && removeprefix ride_offer_channel_prefix m.channel == key

forward_emitters : (m : PubSubMessage) (r : Registry) → (forward m r).emitters ≡ r.emitters
unfolding forward emit
forward_emitters m r = ground arith

forward_for :
    (key : String) (m : PubSubMessage) (r : Registry) (n : ℕ) (q : List (Option Event))
    → lookup key r.emitters ≡ some n
    → queue_at n r.queues ≡ some q
    → is_for key m ≡ true
    → queue_at n (forward m r).queues ≡ some (q ++ some ("ride_offer", m.text) ∷ [])
unfolding forward
forward_for key m r n q live at h =
    let same : removeprefix ride_offer_channel_prefix m.channel ≡ key =
      ground (arith, eq_iff (removeprefix ride_offer_channel_prefix m.channel) key) in
    let sent : forward m r ≡ emit key "ride_offer" m.text r = ground arith in
    rw sent (emit_live key "ride_offer" m.text r n q live at).0

forward_aside :
    (key : String) (m : PubSubMessage) (r : Registry) (n : ℕ)
    → AloneOn key n r
    → is_for key m ≡ false
    → queue_at n (forward m r).queues ≡ queue_at n r.queues
unfolding forward
forward_aside key m r n only h = elim (Bool-cases (m.kind == "pmessage")) [
  | inl message ↦
      let other = removeprefix ride_offer_channel_prefix m.channel in
      let apart : other ≢ key = λ same. absurd (ground (arith, eq_iff other key)) in
      let sent : forward m r ≡ emit other "ride_offer" m.text r = ground arith in
      rw sent (emit_aside key other "ride_offer" m.text r n only apart)
  | inr note ↦ ground arith
]

-- Whatever messages the listener receives, a queue that stands in the registry under one key
-- alone has afterwards, behind what it held, one offer for each pattern message on that key's
-- channel, in order, and nothing else.
pub listen_loop_live :
    (key : String) (messages : List PubSubMessage) (r : Registry) (n : ℕ) (q : List (Option Event))
    → lookup key r.emitters ≡ some n
    → AloneOn key n r
    → queue_at n r.queues ≡ some q
    → queue_at n (listen_loop messages r).queues ≡ some (q ++ heard key messages)
unfolding listen_loop
listen_loop_live key [] r n q live only at = rw append-nil at
listen_loop_live key (m ∷ ms) r n q live only at =
    let kept = forward_emitters m r in
    let live' : lookup key (forward m r).emitters ≡ some n = rw kept live in
    let only' : AloneOn key n (forward m r) = rw kept only in
    elim (Bool-cases (is_for key m)) [
      | inl told ↦
          let added = forward_for key m r n q live at told in
          rw told (
            listen_loop_live key ms (forward m r) n (q ++ some ("ride_offer", m.text) ∷ []) live'
              only' added
            ∙ ap some (append_assoc q (some ("ride_offer", m.text) ∷ []) (heard key ms)))
      | inr untold ↦ rw untold (
          listen_loop_live key ms (forward m r) n q live' only'
            (forward_aside key m r n only untold ∙ at))
    ]
