-- ===== src/Tests/Brokers.antt =====
-- The brokers over small client libraries: an AMQP library with a list of open channels, and a Kafka
-- library whose consumer has three events, of which the second is an error.
use game_ad_service.Common.{
  Bool-cases, subst, ap, inl, inr, ◌⊎◌, length, ◌==◌, if◌then◌else◌, ℕ, List, [], ◌∷◌, ◌≡◌, refl,
  arith,
}
use game_ad_service.Errors.{queue_closed}
use game_ad_service.Storage.{ok, err, panic, pure, throw, ◌>>=◌, ◌>>◌, deferring}
use game_ad_service.Messaging.{
  Bytes, Handler, handle_each, consume_events, Amqp, rabbit_broker, KafkaEvent, delivered, failed,
  notice, KafkaClient, Kafka, new_kafka, kafka_broker,
}
use game_ad_service.Messaging.Channels.{OpensNone, AmqpLaws, rabbit_broker-OpensNone}
use game_ad_service.Messaging.Events.{messages_before_error, first_error, finish, kafka_broker_lem}

-- The state is the list of open channels; a queue always delivers two messages, and publishing fails,
-- at which the server closes the channel.
unfoldable IsOpen : ℕ → List ℕ → Type 0
IsOpen ch [] = ⊥
IsOpen ch (n ∷ s) = (n ≡ ch) ⊎ IsOpen ch s

unfoldable without : ℕ → List ℕ → List ℕ
without ch [] = []
without ch (n ∷ s) = if n == ch then without ch s else n ∷ without ch s

without-IsOpen : (ch : ℕ) (s : List ℕ) → ¬ IsOpen ch (without ch s)
unfolding without IsOpen
without-IsOpen ch [] o = elim o [ ]
without-IsOpen ch (n ∷ s) o = elim (Bool-cases (n == ch)) [
  | inl e ↦
      without-IsOpen ch s
        (subst (λ b. IsOpen ch (if b then without ch s else n ∷ without ch s)) e o)
  | inr e ↦ elim (subst (λ b. IsOpen ch (if b then without ch s else n ∷ without ch s)) e o) [
    | inl p ↦ absurd (ground (arith, e, p))
    | inr q ↦ without-IsOpen ch s q
  ]
]

still_open : (ch j : ℕ) (s : List ℕ) → IsOpen j (without ch s) → IsOpen j s
unfolding without IsOpen
still_open ch j [] o = o
still_open ch j (n ∷ s) o = elim (Bool-cases (n == ch)) [
  | inl e ↦
      inr (
        still_open ch j s
          (subst (λ b. IsOpen j (if b then without ch s else n ∷ without ch s)) e o))
  | inr e ↦ elim (subst (λ b. IsOpen j (if b then without ch s else n ∷ without ch s)) e o) [
    | inl p ↦ inl p
    | inr q ↦ inr (still_open ch j s q)
  ]
]

abbrev amqp : Amqp (List ℕ) (Unit {0}) ℕ
amqp = record {
  dial = λ url s. (ok tt, s);
  channel = λ c s. (ok (length s), length s ∷ s);
  close = λ ch s. (ok tt, without ch s);
  publish = λ ch exchange key mandatory immediate p s. (err queue_closed, without ch s);
  queue_declare = λ ch name durable delete_unused exclusive no_wait s. (ok name, s);
  consume =
      λ ch queue consumer auto_ack exclusive no_local no_wait s. (ok ((1 ∷ []) ∷ (2 ∷ []) ∷ []), s);
}

amqp_laws : AmqpLaws amqp IsOpen
unfolding IsOpen
amqp_laws = record {
  opened = λ c ch s o. elim o [ inl p ↦ inr (ap ok p) | inr q ↦ inl q ];
  closed = without-IsOpen;
  close = λ ch j s o. still_open ch j s o;
  publish = λ ch exchange key mandatory immediate p j s o. still_open ch j s o;
  queue_declare = λ ch name durable delete_unused exclusive no_wait j s o. o;
  consume = λ ch queue consumer auto_ack exclusive no_local no_wait j s o. o;
}

-- A handler that panics.
abbrev panics : Handler (List ℕ)
panics message s = (panic, s)

rabbit_broker-OpensNone_example :
    let b = rabbit_broker amqp (record { conn = tt }) in
    OpensNone IsOpen (b.publish "ads" (1 ∷ [])) × OpensNone IsOpen (b.subscribe "ads" panics)
rabbit_broker-OpensNone_example =
    rabbit_broker-OpensNone amqp IsOpen amqp_laws (record { conn = tt }) "ads" (1 ∷ []) panics
      (λ m j s o. o)

abbrev events : List KafkaEvent
events = delivered (1 ∷ []) ∷ notice ∷ failed queue_closed ∷ delivered (2 ∷ []) ∷ []

-- The state is the list of what was done, the last first: 0 for closing, otherwise the message.
abbrev kafka_client : KafkaClient (List Bytes) (Unit {0}) (Unit {0})
kafka_client = record {
  new_producer = λ servers s. (ok tt, s);
  new_consumer = λ servers s. (ok tt, s);
  produce = λ p topic message s. (ok tt, message ∷ s);
  subscribe = λ c topic s. (ok tt, s);
  events = λ c s. (ok events, s);
  close = λ c s. (ok tt, (0 ∷ []) ∷ s);
}

abbrev connected : Kafka kafka_client
connected = record { producer = tt; consumer = tt }

abbrev keeps : Handler (List Bytes)
keeps message s = (ok tt, message ∷ s)

kafka_broker_lem_example :
    let handled = handle_each keeps (messages_before_error events) >> finish (first_error events) in
    let (r, s) = handled [] in
    (kafka_broker kafka_client connected).subscribe "ads" keeps []
    ≡ (r, (kafka_client.close tt s).1)
kafka_broker_lem_example =
    kafka_broker_lem kafka_client connected "ads" keeps events [] [] [] refl refl

-- Connecting, and subscribing once.
one_subscription :
    (new_kafka kafka_client "k1,k2" >>= λ k. (kafka_broker kafka_client k).subscribe "ads" keeps) []
    ≡ (err queue_closed, (0 ∷ []) ∷ (1 ∷ []) ∷ [])
unfolding new_kafka kafka_broker consume_events ◌>>=◌ ◌>>◌ pure deferring throw
one_subscription = refl
