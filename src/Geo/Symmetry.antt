-- ===== src/Geo/Symmetry.antt =====
-- Facts about distances and times of arrival that hold for every float, given what IEEE arithmetic
-- keeps under a change of sign.
use uber_clone_python.Base.{ℕ, ◌≤◌, ◌≡◌, ◌⊎◌, inl, inr, none, some, arith, Option-cases}
use uber_clone_python.Models.{Float}
use uber_clone_python.Env.{FloatOps}
use uber_clone_python.Geo.{half_chord, haversine_km, eta_minutes, two}

-- `Opposite a b`: b is -a, or both are zero or both no number. The functions below keep it, and a
-- square does not tell the two apart; multiplication commutes.
pub record IsSymmetric (fl : FloatOps) : Type 1 where
  pub Opposite : Float → Float → Type 0
  pub sub_opposite : (a b : Float) → Opposite (fl.sub a b) (fl.sub b a)
  pub radians_opposite : (a b : Float) → Opposite a b → Opposite (fl.radians a) (fl.radians b)
  pub half_opposite : (a b c : Float) → Opposite a b → Opposite (fl.div a c) (fl.div b c)
  -- The sine of the opposite is the opposite of the sine, and one fails where the other does.
  pub sin_opposite :
      (a b : Float)
      → Opposite a b
      → ((fl.sin a ≡ none) × (fl.sin b ≡ none))
        ⊎ ((x : Float) × (y : Float) × (fl.sin a ≡ some x) × (fl.sin b ≡ some y) × Opposite x y)
  pub square_opposite : (a b : Float) → Opposite a b → fl.square a ≡ fl.square b
  pub mul_comm : (a b : Float) → fl.mul a b ≡ fl.mul b a

module _ (fl : FloatOps) (S : IsSymmetric fl) where
  half_chord_opposite : (a b : Float) → S.Opposite a b → half_chord fl a ≡ half_chord fl b
  unfolding half_chord
  half_chord_opposite a b o =
      elim (S.sin_opposite (fl.div a (two fl)) (fl.div b (two fl))
        (S.half_opposite a b (two fl) o)) [
          | inl (ea, eb) ↦ ground arith
          | inr (x, y, ea, eb, o') ↦ ground (arith, S.square_opposite x y o')
        ]

  chord_comm :
      (a b : Float)
      → half_chord fl (fl.radians (fl.sub a b)) ≡ half_chord fl (fl.radians (fl.sub b a))
  chord_comm a b = half_chord_opposite _ _ (S.radians_opposite _ _ (S.sub_opposite a b))

  -- For float operations under which a change of sign behaves as in IEEE arithmetic, the distance
  -- between two points is bit for bit the same in both directions, and raises in both or in
  -- neither.
  pub haversine_km_comm :
      (lat1 lng1 lat2 lng2 : Float)
      → haversine_km fl lat1 lng1 lat2 lng2 ≡ haversine_km fl lat2 lng2 lat1 lng1
  unfolding haversine_km
  haversine_km_comm lat1 lng1 lat2 lng2 = elim (Option-cases (fl.cos (fl.radians lat1))) [
    | inl far ↦ ground (arith, chord_comm lat2 lat1)
    | inr (c1, e1) ↦ elim (Option-cases (fl.cos (fl.radians lat2))) [
      | inl far ↦ ground (arith, chord_comm lat2 lat1)
      | inr (c2, e2) ↦ ground (arith, chord_comm lat2 lat1, chord_comm lng2 lng1, S.mul_comm c1 c2)
    ]
  ]

-- If a time of arrival is computed, it is at least one minute.
pub eta_minutes-pos : (fl : FloatOps) (km : Float) (n : ℕ) → eta_minutes fl km ≡ some n → 1 ≤ n
unfolding eta_minutes
eta_minutes-pos fl km n h = ground arith
