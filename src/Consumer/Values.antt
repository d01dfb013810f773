-- ===== src/Consumer/Values.antt =====
-- src/ride_service/kafka_consumer.py: the loop over messages as bytes.
use uber_clone_python.Base.{
  ⊤, String, ◌≡◌, refl, sym, ap, ◌∙◌, Option, none, some, List, [], ◌∷◌, ◌++◌,
}
use uber_clone_python.Exec.{
  unicode_error, Result, ok, err, Exec, pure, or_raise, ◌>>=◌, ◌>>◌, modify,
}
use uber_clone_python.Env.{Env, World}
use mathlib.Core.List.{append-nil}
use uber_clone_python.Consumer.{handle_message, consume_loop}

module _ (env : Env) (Bytes : Type 0) (decode : Bytes → Option String) where
  -- `_consume_loop` on what the broker delivers: the decoding stands outside the `try`.
  unfoldable pub consume_values : List (String × Bytes) → Exec (World env) ⊤
  unfolding handle_message
  consume_values [] = pure tt
  consume_values ((topic, value) ∷ messages) = do
    ride_id ← or_raise (decode value) unicode_error
    modify (λ w. (handle_message env (topic, ride_id) w).1)
    consume_values messages

  -- The values are the encodings of the messages.
  abbrev pub Decoded : List (String × Bytes) → List (String × String) → Type 0
  Decoded [] [] = ⊤
  Decoded ((t, v) ∷ vs) ((topic, ride_id) ∷ ms) =
      (t ≡ topic) × (decode v ≡ some ride_id) × Decoded vs ms
  Decoded _ _ = ⊥

  -- What was decoded is handled first.
  pub consume_values_stop :
      (good : List (String × Bytes)) (messages : List (String × String))
      (rest : List (String × Bytes)) (w : World env)
      → Decoded good messages
      → consume_values (good ++ rest) w ≡ consume_values rest (consume_loop env messages w)
  unfolding consume_values consume_loop
  consume_values_stop [] [] rest w h = refl
  consume_values_stop [] (m ∷ ms) rest w h = absurd h
  consume_values_stop (v ∷ vs) [] rest w h = absurd h
  consume_values_stop ((t, v) ∷ vs) ((topic, ride_id) ∷ ms) rest w (same, read, more) =
      ap (λ o. received rest vs (or_raise o unicode_error w)) read
      ∙ consume_values_stop vs ms rest _ more
      ∙ ap (λ x. consume_values rest (consume_loop env ms (handle_message env (x, ride_id) w).1))
          same
    where
      received :
          List (String × Bytes)
          → List (String × Bytes)
          → Result String × World env
          → Result ⊤ × World env
      received rest vs m = elim m.0 [
        | ok id ↦ consume_values (vs ++ rest) (handle_message env (t, id) m.1).1
        | err e ↦ (err e, m.1)
      ]

  -- If the bytes of some messages decode to ride ids, and those of the message behind them do not
  -- decode, then the consumer's loop handles the messages before as it would on their own and
  -- raises there: the messages behind are not handled.
  pub consume_values_cut :
      (good : List (String × Bytes)) (messages : List (String × String)) (topic : String)
      (value : Bytes) (rest : List (String × Bytes)) (w : World env)
      → Decoded good messages
      → decode value ≡ none
      → consume_values (good ++ (topic, value) ∷ rest) w
        ≡ (err unicode_error, consume_loop env messages w)
  unfolding consume_values
  consume_values_cut good messages topic value rest w h bad =
      consume_values_stop good messages ((topic, value) ∷ rest) w h
      ∙ ap (λ o. received (or_raise o unicode_error (consume_loop env messages w))) bad
    where
      received : Result String × World env → Result ⊤ × World env
      received m = elim m.0 [
        | ok id ↦ consume_values rest (handle_message env (topic, id) m.1).1
        | err e ↦ (err e, m.1)
      ]

module _ (env : Env) (Bytes : Type 0) (decode : Bytes → Option String) (encode : String → Bytes)
    (decode-encode : (s : String) → decode (encode s) ≡ some s) where
  -- `ride_id.encode("utf-8")` in the four `publish` functions.
  abbrev pub encoded : List (String × String) → List (String × Bytes)
  encoded [] = []
  encoded ((topic, ride_id) ∷ ms) = (topic, encode ride_id) ∷ encoded ms

  encoded-Decoded : (ms : List (String × String)) → Decoded env Bytes decode (encoded ms) ms
  encoded-Decoded [] = tt
  encoded-Decoded ((topic, ride_id) ∷ ms) = (refl, decode-encode ride_id, encoded-Decoded ms)

  -- Messages as the producer encodes them.
  pub consume_values-encoded :
      (messages : List (String × String)) (w : World env)
      → consume_values env Bytes decode (encoded messages) w ≡ (ok tt, consume_loop env messages w)
  unfolding consume_values
  consume_values-encoded messages w =
      ap (λ vs. consume_values env Bytes decode vs w) (sym (append-nil (encoded messages)))
      ∙ consume_values_stop env Bytes decode (encoded messages) messages [] w
          (encoded-Decoded messages)
