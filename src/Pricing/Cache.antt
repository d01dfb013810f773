-- ===== src/Pricing/Cache.antt =====
-- The surge cache in front of the multiplier: `SurgeCache` and `get_surge_multiplier`.
use uber_clone_python.Base.{
  ℕ, ◌+◌, ◌≤◌, ◌<◌, String, eq_iff, ◌≡◌, refl, ap, ◌∙◌, inl, inr, none, some, arith,
}
use uber_clone_python.Exec.{ok}
use uber_clone_python.Models.{Float}
use uber_clone_python.Decimal.{Decimal}
use uber_clone_python.Env.{Env, World}
use uber_clone_python.Env.Laws.{IsLawful}
use uber_clone_python.Exec.{ok-or-err}
use uber_clone_python.Pricing.{
  compute_surge_multiplier, get_surge_multiplier, surge_grid_key, fresh_multiplier, cache_set,
  surge_ttl_seconds,
}

module _ (env : Env) where
  -- The world after a multiplier was stored for the cell of a position.
  abbrev pub stored_world : World env → Float → Float → Decimal → World env
  stored_world w lat lng d = record w {
    strings =
        env.strings.set_ex w.strings w.now (surge_grid_key env lat lng) (env.decimal_text d)
          surge_ttl_seconds;
  }

  -- A miss computes the multiplier and stores it.
  surge_miss :
      (w : World env) (lat lng : Float) (p a : ℕ) (d : Decimal)
      → env.strings.get w.strings w.now (surge_grid_key env lat lng) ≡ none
      → compute_surge_multiplier p a ≡ ok d
      → get_surge_multiplier env lat lng p a w ≡ (ok d, stored_world w lat lng d)
  unfolding get_surge_multiplier fresh_multiplier cache_set
  surge_miss w lat lng p a d h e = ground arith

  -- A hit returns what is stored, whatever the demand and the supply, and changes nothing.
  surge_hit :
      (w : World env) (lat lng : Float) (p a : ℕ) (text : String)
      → env.strings.get w.strings w.now (surge_grid_key env lat lng) ≡ some text
      → get_surge_multiplier env lat lng p a w ≡ (ok (env.text_decimal text), w)
  unfolding get_surge_multiplier
  surge_hit w lat lng p a text h = ground arith

  -- Without a stored text the answer is the multiplier of the demand and the supply.
  surge_afresh :
      (w : World env) (lat lng : Float) (p a : ℕ)
      → env.strings.get w.strings w.now (surge_grid_key env lat lng) ≡ none
      → (get_surge_multiplier env lat lng p a w).0 ≡ compute_surge_multiplier p a
  unfolding get_surge_multiplier fresh_multiplier cache_set
  surge_afresh w lat lng p a h = elim (ok-or-err (compute_surge_multiplier p a)) [
    | inl (e, failed) ↦ ground arith
    | inr (d, computed) ↦ ground arith
  ]

  -- In a lawful environment where the text of the multiplier reads back as that multiplier: if a
  -- cell has no stored multiplier and one is computed, then for less than 30 seconds every call
  -- in that cell returns it, whatever demand and supply are, and changes nothing; from 30 seconds
  -- on a call returns what its own demand and supply give.
  pub surge_cached :
      (L : IsLawful env) (w : World env) (lat lng : Float) (p a : ℕ) (d : Decimal)
      → env.strings.get w.strings w.now (surge_grid_key env lat lng) ≡ none
      → compute_surge_multiplier p a ≡ ok d
      → env.text_decimal (env.decimal_text d) ≡ d
      → (lat' lng' : Float) → surge_grid_key env lat' lng' ≡ surge_grid_key env lat lng
      → (elapsed p' a' : ℕ)
      → let (answer, after) = get_surge_multiplier env lat lng p a w in
        let later = record after { now = after.now + elapsed } in
        (answer ≡ ok d)
        × (elapsed < 30000000 → get_surge_multiplier env lat' lng' p' a' later ≡ (ok d, later))
        × (30000000 ≤ elapsed
            → (get_surge_multiplier env lat' lng' p' a' later).0 ≡ compute_surge_multiplier p' a')
  surge_cached L w lat lng p a d miss e reads lat' lng' cell elapsed p' a' =
      let after = stored_world w lat lng d in
      let later : World env = record after { now = w.now + elapsed } in
      let read =
        L.strings.get-set_ex w.strings w.now (surge_grid_key env lat lng) (env.decimal_text d)
          surge_ttl_seconds (w.now + elapsed) (surge_grid_key env lat' lng') (omega arith) in
      rw (surge_miss w lat lng p a d miss e) (
        refl,
        λ soon.
            surge_hit later lat' lng' p' a' (env.decimal_text d)
              (ground (arith, eq_iff (surge_grid_key env lat lng) (surge_grid_key env lat' lng')))
            ∙ ap (λ x. (ok x, later)) reads,
        λ late.
            surge_afresh later lat' lng' p' a'
              (ground (arith, eq_iff (surge_grid_key env lat lng) (surge_grid_key env lat' lng'))),
      )
