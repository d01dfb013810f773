-- ===== src/Dispatch/Offers.antt =====
-- The offers of `fanout_to_nearby_drivers`: one to each nearby driver, in the order of the search.
use uber_clone_python.Base.{
  String, ◌≡◌, refl, sym, ap, ◌∙◌, inl, inr, some, List, [], ◌∷◌, ◌++◌, map, arith, Option-cases,
}
use uber_clone_python.Exec.{ok}
use uber_clone_python.Models.{Ride}
use uber_clone_python.Env.{Env, World}
use mathlib.Core.Option
use uber_clone_python.Base.{◌<>◌}
use uber_clone_python.Geo.{eta_minutes}
use uber_clone_python.Dispatch.{
  NearbyDriver, find_nearby_available_drivers, fanout_to_nearby_drivers, offer_ride, offer_to_each,
  default_search_radius_km, ride_offer_channel_prefix, dispatched_key_prefix,
  dispatched_ttl_seconds, offer_payload,
}
use mathlib.Core.List.{append-nil, append_assoc}

-- The channels of the drivers.
abbrev pub channels : List NearbyDriver → List String
channels ds = map (λ d. ride_offer_channel_prefix <> d.driver_id) ds

module _ (env : Env) where
  -- A message for each driver, with a time of arrival of that driver.
  pub record Offered (ride : Ride) (ds : List NearbyDriver) (before after : World env)
      : Type 0 where
    pub sent : List (String × String)
    pub published : after.published ≡ before.published ++ sent
    pub to_each : map (λ m. m.0) sent ≡ channels ds
    pub texts :
        map (λ m. some m.1) sent
        ≡ map (λ d. Option.map (offer_payload env ride) (eta_minutes env.floats d.distance_km)) ds

  offer_to_each-Offered :
      (ride : Ride) (ds : List NearbyDriver) (w : World env)
      → (offer_to_each env ride ds w).0 ≡ ok tt
      → Offered ride ds w (offer_to_each env ride ds w).1
  unfolding offer_to_each
  offer_to_each-Offered ride [] w h = record {
    sent = [];
    published = sym (append-nil w.published);
    to_each = refl;
    texts = refl;
  }
  offer_to_each-Offered ride (d ∷ ds) w h =
      elim (Option-cases (eta_minutes env.floats d.distance_km)) [
        | inl far ↦ absurd (ground arith)
        | inr (eta, near) ↦
            let message : String × String =
              (ride_offer_channel_prefix <> d.driver_id, offer_payload env ride eta) in
            let told : World env = record w { published = w.published ++ message ∷ [] } in
            let run : offer_to_each env ride (d ∷ ds) w ≡ offer_to_each env ride ds told =
              ground arith in
            let rest = offer_to_each-Offered ride ds told (ground arith) in
            record {
              sent = message ∷ rest.sent;
              published =
                  ap (λ v. v.1.published) run
                  ∙ rest.published
                  ∙ append_assoc w.published (message ∷ []) rest.sent;
              to_each = ap (λ l. (ride_offer_channel_prefix <> d.driver_id) ∷ l) rest.to_each;
              texts = rw near (ap (λ l. some (offer_payload env ride eta) ∷ l) rest.texts);
            }
      ]

  offer_to_each_expiring :
      (ride : Ride) (ds : List NearbyDriver) (w : World env)
      → (offer_to_each env ride ds w).1.expiring ≡ w.expiring
  unfolding offer_to_each
  offer_to_each_expiring ride [] w = refl
  offer_to_each_expiring ride (d ∷ ds) w =
      elim (Option-cases (eta_minutes env.floats d.distance_km)) [
        | inl far ↦ ground arith
        | inr (eta, near) ↦ grind (arith, offer_to_each_expiring ride ds)
      ]

  -- The set of the drivers who were offered the ride, under its key with its expiry.
  abbrev pub dispatched : World env → Ride → List NearbyDriver → env.expiring.State
  dispatched w ride ds =
      env.expiring.expire
        (env.expiring.sadd w.expiring w.now (dispatched_key_prefix <> ride.id)
          (map (λ d. d.driver_id) ds))
        w.now (dispatched_key_prefix <> ride.id) dispatched_ttl_seconds

  -- If the search around the pickup point finds drivers, and the offers to them succeed, then one
  -- message is published for each of these drivers, in the order of the search, on the driver's
  -- channel, with the payload for the driver's own time of arrival, and the drivers are noted
  -- under the ride's dispatched key with its expiry.
  pub fanout-Offered :
      (w : World env) (ride : Ride) (d : NearbyDriver) (ds : List NearbyDriver)
      → find_nearby_available_drivers env ride.pickup_lat ride.pickup_lng
          (default_search_radius_km env)
          w
        ≡ (ok (d ∷ ds), w)
      → (fanout_to_nearby_drivers env ride w).0 ≡ ok tt
      → Offered ride (d ∷ ds) w (fanout_to_nearby_drivers env ride w).1
        × ((fanout_to_nearby_drivers env ride w).1.expiring ≡ dispatched w ride (d ∷ ds))
  unfolding fanout_to_nearby_drivers offer_ride
  fanout-Offered w ride d ds found h =
      let noted : World env = record w { expiring = dispatched w ride (d ∷ ds) } in
      let run : fanout_to_nearby_drivers env ride w ≡ offer_to_each env ride (d ∷ ds) noted =
        ground arith in
      let o = offer_to_each-Offered ride (d ∷ ds) noted (ground arith) in
      (
        record {
          sent = o.sent;
          published = ap (λ v. v.1.published) run ∙ o.published;
          to_each = o.to_each;
          texts = o.texts;
        },
        ap (λ v. v.1.expiring) run ∙ offer_to_each_expiring ride (d ∷ ds) noted,
      )
