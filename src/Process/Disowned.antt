-- ===== src/Process/Disowned.antt =====
-- What owns the tasks and connections when a background task of src/ride_service has stopped.
use uber_clone_python.Base.{ℕ, ◌≢◌, inl, inr, some}
use uber_clone_python.Process.{Kind, client, kafka_consumer, pub_sub, Process}
use uber_clone_python.Process.Owned.{Named, IsOwned}
use uber_clone_python.Process.Stops.{
  running-cancelled_in, open-closed_in, without_listener, without_retry, without_consumer,
}

pub without_listener-IsOwned : (p : Process) → IsOwned p → IsOwned (without_listener p)
without_listener-IsOwned p o = record {
  tasks = λ n h.
      let (apart, old) = running-cancelled_in p.offer_task n p.tasks h in
      elim (o.tasks n old) [
        | inl one ↦ inl one
        | inr (inl two) ↦ inr (inl two)
        | inr (inr three) ↦ absurd (apart three)
      ];
  pools = o.pools;
  factory = o.factory;
  connections = λ n k h is_open.
      let (apart, old) = open-closed_in p.pubsub n p.connections k h is_open in
      still p n k.kind k.loop apart (o.connections n k old is_open);
}
  where
    still :
        (p : Process) (n : ℕ) (k : Kind) (l : ℕ)
        → p.pubsub ≢ some n
        → Named p n k l
        → Named (without_listener p) n k l
    still p n (client c) l apart h = h
    still p n kafka_consumer l apart h = h
    still p n pub_sub l apart h = absurd (apart h)

pub without_retry-IsOwned : (p : Process) → IsOwned p → IsOwned (without_retry p)
without_retry-IsOwned p o = record {
  tasks = λ n h.
      let (apart, old) = running-cancelled_in p.retry_task n p.tasks h in
      elim (o.tasks n old) [
        | inl one ↦ inl one
        | inr (inl two) ↦ absurd (apart two)
        | inr (inr three) ↦ inr (inr three)
      ];
  pools = o.pools;
  factory = o.factory;
  connections = λ n k h is_open. still p n k.kind k.loop (o.connections n k h is_open);
}
  where
    still : (p : Process) (n : ℕ) (k : Kind) (l : ℕ) → Named p n k l → Named (without_retry p) n k l
    still p n (client c) l h = h
    still p n kafka_consumer l h = h
    still p n pub_sub l h = h

pub without_consumer-IsOwned : (p : Process) → IsOwned p → IsOwned (without_consumer p)
without_consumer-IsOwned p o = record {
  tasks = λ n h.
      let (apart, old) = running-cancelled_in p.consumer_task n p.tasks h in
      elim (o.tasks n old) [
        | inl one ↦ absurd (apart one)
        | inr (inl two) ↦ inr (inl two)
        | inr (inr three) ↦ inr (inr three)
      ];
  pools = o.pools;
  factory = o.factory;
  connections = λ n k h is_open.
      let (apart, old) = open-closed_in p.consumer n p.connections k h is_open in
      still p n k.kind k.loop apart (o.connections n k old is_open);
}
  where
    still :
        (p : Process) (n : ℕ) (k : Kind) (l : ℕ)
        → p.consumer ≢ some n
        → Named p n k l
        → Named (without_consumer p) n k l
    still p n (client c) l apart h = h
    still p n kafka_consumer l apart h = absurd (apart h)
    still p n pub_sub l apart h = h
