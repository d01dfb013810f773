-- ===== src/Dispatch/Nearby.antt =====
-- `find_nearby_available_drivers` against a plain filter of the search's results, and the offers of
-- `fanout_to_nearby_drivers`.
use uber_clone_python.Base.{
  ◌≤◌, String, ◌≡◌, refl, inl, inr, Bool, true, some, List, [], ◌∷◌, All, length, arith,
  if◌then◌else◌, Bool-cases, Option-cases,
}
use uber_clone_python.Exec.{ok}
use uber_clone_python.Models.{Float}
use uber_clone_python.Env.{Env, World}
use uber_clone_python.Env.Laws.{IsLawful}
use uber_clone_python.Repositories.Driver.{driver_geo_key, driver_available_set}
use uber_clone_python.Dispatch.{
  NearbyDriver, available_only, smismember, find_nearby_available_drivers, max_results,
}

-- The results of the search whose members are in a set, in their order.
pub nearby_in : (String → Bool) → List (String × Float) → List NearbyDriver
nearby_in is_free [] = []
nearby_in is_free ((id, km) ∷ results) =
    let rest = nearby_in is_free results in
    if is_free id then record { driver_id = id; distance_km = km } ∷ rest else rest

nearby_in-free :
    (is_free : String → Bool) (results : List (String × Float))
    → All (λ (d : NearbyDriver). is_free d.driver_id ≡ true) (nearby_in is_free results)
unfolding nearby_in
nearby_in-free is_free [] = tt
nearby_in-free is_free ((id, km) ∷ results) = elim (Bool-cases (is_free id)) [
  | inl free ↦ rw free (free, nearby_in-free is_free results)
  | inr busy ↦ rw busy (nearby_in-free is_free results)
]

length-nearby_in :
    (is_free : String → Bool) (results : List (String × Float))
    → length (nearby_in is_free results) ≤ length results
unfolding nearby_in
length-nearby_in is_free [] = omega arith
length-nearby_in is_free ((id, km) ∷ results) = ground (arith, length-nearby_in is_free results)

module _ (env : Env) where
  -- The zip of the results with the answers of the set never fails, and is the filter.
  available_only-smismember :
      (sets : env.sets.State) (results : List (String × Float))
      → available_only results (smismember env sets results)
        ≡ ok (nearby_in (env.sets.sismember sets driver_available_set) results)
  unfolding available_only smismember nearby_in
  available_only-smismember sets [] = refl
  available_only-smismember sets ((id, km) ∷ results) = rw (available_only-smismember sets results)

  find_nearby_lem :
      (w : World env) (lat lng radius : Float) (results : List (String × Float))
      → env.geo.geosearch w.geo driver_geo_key lng lat radius max_results ≡ some results
      → find_nearby_available_drivers env lat lng radius w
        ≡ (ok (nearby_in (env.sets.sismember w.sets driver_available_set) results), w)
  unfolding find_nearby_available_drivers
  find_nearby_lem w lat lng radius results h =
      ground (arith, available_only-smismember w.sets results)

  -- In a lawful environment, if the search for nearby drivers returns, it returns the members of
  -- the availability set among the drivers that the geo-index found, in the order of the index,
  -- at most twenty, and it changes nothing.
  pub find_nearby-available :
      (L : IsLawful env) (w : World env) (lat lng radius : Float) (ds : List NearbyDriver)
      → (find_nearby_available_drivers env lat lng radius w).0 ≡ ok ds
      → (results : List (String × Float)) × (env.geo.geosearch w.geo driver_geo_key lng lat radius
            max_results
          ≡ some results)
        × (ds ≡ nearby_in (env.sets.sismember w.sets driver_available_set) results)
        × All
            (λ (d : NearbyDriver).
              env.sets.sismember w.sets driver_available_set d.driver_id ≡ true)
            ds
        × (length ds ≤ 20)
        × ((find_nearby_available_drivers env lat lng radius w).1 ≡ w)
  find_nearby-available L w lat lng radius ds h =
      elim (Option-cases (env.geo.geosearch w.geo driver_geo_key lng lat radius max_results)) [
        | inl out ↦ absurd (unfold find_nearby_available_drivers in ground arith)
        | inr (results, found) ↦
            let is_free = env.sets.sismember w.sets driver_available_set in
            let run = find_nearby_lem w lat lng radius results found in
            let same : ds ≡ nearby_in is_free results = ground arith in
            (
              results,
              found,
              same,
              rw same (nearby_in-free is_free results),
              rw same (
                  omega (
                    arith,
                    length-nearby_in is_free results,
                    L.geo.geosearch_count w.geo driver_geo_key lng lat radius max_results results
                        found,
                  )),
              ground arith,
            )
      ]
