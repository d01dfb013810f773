-- ===== src/Tests/Process.antt =====
-- The connections and the tasks of the process, and the messages as bytes, on concrete inputs.
use uber_clone_python.Base.{
  ℕ, String, ◌≢◌, Option, ◌≡◌, refl, true, none, some, List, [], ◌∷◌, arith,
}
use uber_clone_python.Exec.{ok, err, kafka_error, unicode_error}
use uber_clone_python.Env.{World}
use uber_clone_python.Memory.{memory}
use uber_clone_python.Models.{requested}
use uber_clone_python.Config.{default_settings}
use uber_clone_python.Consumer.{consume_loop}
use uber_clone_python.Consumer.Values.{consume_values, consume_values_cut}
use uber_clone_python.Objects.{object, get}
use uber_clone_python.Process.{
  redis_client, limit_strategy, kafka_producer, client, connection, running, ended, Process,
  Libraries,
}
use uber_clone_python.Process.Clients.{
  start_producer, get_client, dispose, found_or_new, open_client,
}
use uber_clone_python.Process.Effects.{clients_of}
use uber_clone_python.Process.Bound.{
  IsBound, Operation, acquire, drop, at_loop, perform, perform_all,
}
use uber_clone_python.Process.Stable.{get_client_stable}
use uber_clone_python.Process.Background.{
  start_consumer, start_retry, start_listener, reach_kafka, subscribe,
}
use uber_clone_python.Process.Lifespan.{startup, shutdown, lifespan}
use uber_clone_python.Process.Race.{called, returned, advance, begin, resume}
use uber_clone_python.Process.Alone.{advance_stored}
use uber_clone_python.Process.Leak.{both, both_leak}
use uber_clone_python.Process.Stops.{without_listener}
use uber_clone_python.Process.Shutdown.{IsReleased}
use uber_clone_python.Process.Dead.{shutdown_cut}
use uber_clone_python.Process.Serving.{IsServing}
use uber_clone_python.Process.Uptime.{
  Event, got, queried, disposed, returned as finished, happen_all, lifespan-IsReleased,
}
use uber_clone_python.Tests.Scenario.{town, the_ride}

-- Libraries that accept every address, and servers that answer.
abbrev willing : Libraries
willing = record {
  accepts_redis = λ address. true;
  accepts_storage = λ address. true;
  kafka_answers = λ attempt servers. true;
  redis_answers = λ attempt pattern_text. true;
  pools = λ poolclass before. 1;
}

-- A process on its loop that has opened nothing.
abbrev blank : Process
blank = record {
  loop = some 0;
  connections = [];
  tasks = [];
  attempts = 0;
  seams = λ c. record { address = none; clients = [] };
  consumer_servers = none;
  consumer = none;
  consumer_task = none;
  retry_task = none;
  pubsub = none;
  offer_task = none;
  engines = [];
  engine = none;
  sessionmaker = none;
}

blank-IsBound : IsBound blank
unfolding get
blank-IsBound c l n h = absurd (ground arith)

blank-IsServing : IsServing 0 blank
unfolding object
blank-IsServing = record {
  loop = refl;
  owned = record {
    tasks = λ n h. absurd (ground arith);
    pools = λ n e h. absurd (ground arith);
    factory = refl;
    connections = λ n k h is_open. absurd (ground arith);
  };
  well = λ n e h. absurd (ground arith);
}

given : (get_client default_settings willing redis_client blank).0 ≡ ok 0
unfolding get_client found_or_new open_client get
given = refl

-- Another loop comes and goes, and the limiter's storage is opened.
abbrev meanwhile : List (Option ℕ × Operation)
meanwhile =
    (some 1, acquire redis_client)
    ∷ (some 0, acquire limit_strategy)
    ∷ (some 1, drop redis_client)
    ∷ []

abbrev later : Process
later = at_loop (some 0) (
    perform_all default_settings willing meanwhile
      (perform default_settings willing (acquire redis_client) blank))

get_client_stable_example :
    ((get_client default_settings willing redis_client later).0 ≡ ok 0)
    × ((a : String) × (object 0 later.connections
          ≡ some (connection (client redis_client) a 0 true)))
get_client_stable_example =
    get_client_stable default_settings willing blank redis_client 0 0 meanwhile blank-IsBound given
      (refl, (refl, (refl, tt)))

started : (startup default_settings willing blank).0 ≡ ok tt
unfolding startup start_consumer start_retry start_listener reach_kafka subscribe get_client
    found_or_new open_client get
started = refl

abbrev served : List Event
served =
    got 0 kafka_producer ∷ queried ∷ got 1 redis_client ∷ finished 1 ∷ disposed 1 redis_client ∷ []

lifespan-IsReleased_example :
    ((lifespan default_settings willing (happen_all default_settings willing served) blank).0
      ≡ ok tt)
    × IsReleased 0
        (lifespan default_settings willing (happen_all default_settings willing served) blank).1
lifespan-IsReleased_example =
    lifespan-IsReleased default_settings willing 0 served blank blank-IsServing
      (refl, refl, refl, refl, refl) started

-- The retry task has ended with an exception; the consumer's runs.
abbrev broken : Process
broken = record blank {
  tasks = running ∷ ended (err kafka_error) ∷ [];
  consumer_task = some 0;
  retry_task = some 1;
}

failed_there : object 1 broken.tasks ≡ some (ended (err kafka_error))
unfolding object
failed_there = refl

shutdown_cut_example :
    shutdown default_settings willing broken ≡ (err kafka_error, without_listener broken)
shutdown_cut_example =
    shutdown_cut default_settings willing 1 kafka_error broken refl failed_there
      (λ same. absurd (ground arith)) (λ n e h was. absurd (ground arith))

abbrev fetched : Process
fetched =
    (advance default_settings willing 0 (advance default_settings willing 0 (called, blank))).1

fetches :
    advance default_settings willing 0 (advance default_settings willing 0 (called, blank))
    ≡ (returned (ok 0), fetched)
unfolding advance begin resume start_producer get
fetches = refl

advance_stored_example :
    IsBound fetched
    × (get 0 (clients_of fetched kafka_producer) ≡ some 0)
    × ((a : String) × (object 0 fetched.connections
          ≡ some (connection (client kafka_producer) a 0 true)))
    × ((j : ℕ)
        → j ≢ 0
        → get j (clients_of fetched kafka_producer) ≡ get j (clients_of blank kafka_producer))
advance_stored_example =
    advance_stored default_settings willing 0 0 blank fetched blank-IsBound refl fetches

no_producer : get 0 (clients_of blank kafka_producer) ≡ none
unfolding get
no_producer = refl

abbrev after : Process
after = dispose default_settings willing kafka_producer (both default_settings willing 0 blank).2

both_leak_example :
    ((both default_settings willing 0 blank).0 ≡ returned (ok 0))
    × (object 0 after.connections
        ≡ some (connection (client kafka_producer) "localhost:9092" 0 true))
    × (get 0 (clients_of after kafka_producer) ≡ none)
both_leak_example = both_leak default_settings willing 0 blank refl no_producer refl refl

abbrev waiting : World memory
waiting = town (the_ride requested none) true

-- Bytes that may not be a text.
consume_values_cut_example :
    consume_values memory
      (Option String)
      (λ b. b)
      (("ride-requested", some "") ∷ ("ride-cancelled", none) ∷ ("ride-cancelled", some "") ∷ [])
      waiting
    ≡ (err unicode_error, consume_loop memory (("ride-requested", "") ∷ []) waiting)
consume_values_cut_example =
    consume_values_cut memory (Option String) (λ b. b) (("ride-requested", some "") ∷ [])
      (("ride-requested", "") ∷ []) "ride-cancelled" none (("ride-cancelled", some "") ∷ []) waiting
      (refl, refl, tt) refl
