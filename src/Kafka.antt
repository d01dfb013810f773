-- ===== src/Kafka.antt =====
-- src/ride_service/kafka_producer.py: a publication is recorded with its topic, in the order of the
-- sends.
use uber_clone_python.Base.{⊤, String, [], ◌∷◌, ◌++◌}
use uber_clone_python.Exec.{Exec, modify}
use uber_clone_python.Env.{Env, World}

abbrev pub ride_requested_topic : String
ride_requested_topic = "ride-requested"

abbrev pub ride_accepted_topic : String
ride_accepted_topic = "ride-accepted"

abbrev pub ride_completed_topic : String
ride_completed_topic = "ride-completed"

abbrev pub ride_cancelled_topic : String
ride_cancelled_topic = "ride-cancelled"

module _ (env : Env) where
  -- `producer.send_and_wait(topic, ride_id)`
  abbrev send : String → String → Exec (World env) ⊤
  send topic ride_id = modify (λ w. record w { kafka = w.kafka ++ (topic, ride_id) ∷ [] })

  unfoldable pub publish_ride_requested : String → Exec (World env) ⊤
  publish_ride_requested ride_id = send ride_requested_topic ride_id

  unfoldable pub publish_ride_accepted : String → Exec (World env) ⊤
  publish_ride_accepted ride_id = send ride_accepted_topic ride_id

  unfoldable pub publish_ride_completed : String → Exec (World env) ⊤
  publish_ride_completed ride_id = send ride_completed_topic ride_id

  unfoldable pub publish_ride_cancelled : String → Exec (World env) ⊤
  publish_ride_cancelled ride_id = send ride_cancelled_topic ride_id
