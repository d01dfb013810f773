-- ===== src/Process/Lifespan.antt =====
-- src/ride_service/main.py: what runs before the application serves and after, and the
-- configuration in src/ride_service/state.py.
use uber_clone_python.Base.{⊤, none}
use uber_clone_python.Exec.{Exec, ◌>>◌, modify}
use uber_clone_python.Config.{Settings}
use uber_clone_python.Process.{Process, Libraries}
use uber_clone_python.Process.Clients.{
  configure, dispose, configure_redis_client, configure_strategy, configure_producer,
  dispose_producer, dispose_redis_client,
}
use uber_clone_python.Process.Background.{
  configure_engine, configure_consumer, start_consumer, start_retry, start_listener, stop_consumer,
  stop_retry, stop_listener, dispose_engine,
}

module _ (settings : Settings) (lib : Libraries) where
  -- The five calls of `configure` in state.py.
  unfoldable pub configure_all : Process → Process
  unfolding configure_engine configure configure_consumer
  configure_all p =
      let p1 = configure_engine settings lib settings.database_url none p in
      let p2 = configure_redis_client settings lib settings.redis_url p1 in
      let p3 = configure_strategy settings lib settings.redis_url p2 in
      let p4 = configure_producer settings lib settings.kafka_bootstrap_servers p3 in
      configure_consumer settings lib settings.kafka_bootstrap_servers p4

  -- `lifespan` up to its `yield`, and from there on.
  unfoldable pub startup : Exec Process ⊤
  unfolding start_consumer start_retry start_listener
  startup = do start_consumer settings lib; start_retry settings lib; start_listener settings lib

  unfoldable pub shutdown : Exec Process ⊤
  unfolding stop_listener stop_retry stop_consumer dispose dispose_engine
  shutdown = do
    stop_listener settings lib
    stop_retry settings lib
    stop_consumer settings lib
    modify (dispose_producer settings lib)
    modify (dispose_engine settings lib)
    modify (dispose_redis_client settings lib)

  -- All of `lifespan`; `served` is what the application does in between.
  unfoldable pub lifespan : (Process → Process) → Exec Process ⊤
  unfolding startup shutdown
  lifespan served = do startup; modify served; shutdown
