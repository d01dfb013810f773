-- ===== src/Listener.antt =====
-- src/ride_service/ride_offer_listener.py: published offers, forwarded to the streams of the drivers.
-- Subscribing, and starting and stopping the task, are in Process/Background.
pub mod Delivery
use uber_clone_python.Base.{
  ℕ, zero, suc, ◌+◌, ◌≤◌, ◌<◌, ⊤, String, ◌==◌, eq_iff, eq_refl, ◌≡◌, refl, sym, ap, ◌∙◌, ◌≢◌, ◌↔◌,
  ◌⊎◌, inl, inr, Bool, true, false, not, ◌&&◌, ◌||◌, Option, none, some, List, [], ◌∷◌, ◌++◌, map,
  Mem, not-mem-nil, All, length, is_empty, is_some, is_text, head?, contains, arith, ltb, leb, eqb,
  if◌then◌else◌, Bool-cases, Option-cases,
}
use uber_clone_python.Exec.{
  Error, http, integrity_error, value_error, decimal_error, redis_error, key_error, Result, ok, err,
  Result-cases, Exec, pure, raise, lift, gets, or_raise, ◌>>=◌, ◌>>◌, raise_if, modify,
}
use uber_clone_python.Models.{
  Float, DateTime, Role, rider, driver, RideStatus, requested, matched, in_progress, completed,
  cancelled, role_value, status_value, role_of, status_of, is_role, is_status, User, Driver, Ride,
  Rating, UserRow, DriverRow, RideRow, RatingRow,
}
use uber_clone_python.Decimal.{Decimal}
use uber_clone_python.Env.{Env, World, Table}
use uber_clone_python.Base.{◌<>◌}
use uber_clone_python.Text.{removeprefix, removeprefix-append}
use uber_clone_python.Dispatch.{ride_offer_channel_prefix}
use uber_clone_python.Sse as Sse
use uber_clone_python.Sse.{Registry}

-- The field `data` is `text` here, since `data` is a word of this language.
pub record PubSubMessage : Type 0 where
  pub kind : String
  pub pattern : Option String
  pub channel : String
  pub text : String

-- One message. `emit` raises nothing, so its `except` has nothing to do.
unfoldable pub forward : PubSubMessage → Registry → Registry
forward message r =
    if message.kind == "pmessage"
    then Sse.emit (removeprefix ride_offer_channel_prefix message.channel) "ride_offer" message.text
        r
    else r

-- `_listen_loop` on the messages that arrive.
unfoldable pub listen_loop : List PubSubMessage → Registry → Registry
unfolding forward
listen_loop [] r = r
listen_loop (message ∷ messages) r = listen_loop messages (forward message r)
