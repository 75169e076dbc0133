-- ===== src/Messaging.antt =====
-- pkg/messaging: messaging.go, rabbitMQ/rabbitMQ.go and kafka/kafka.go. The two client libraries are
-- parameters; what a subscription delivers until its channel is closed is a list.
pub mod Channels
pub mod Events
use game_ad_service.Common.{ℕ, String, Bool, true, false, Option, List, [], ◌∷◌}
use game_ad_service.Errors.{Error}
use game_ad_service.Storage.{Action, pure, throw, ◌>>=◌, ◌>>◌, deferring}

abbrev pub Bytes : Type 0
Bytes = List ℕ

-- A handler may panic.
abbrev pub Handler : Type 0 → Type 0
Handler S = Bytes → Action S (Unit {0})

pub record MessageBroker (S : Type 0) : Type 0 where
  pub publish : String → Bytes → Action S (Unit {0})
  pub subscribe : String → Handler S → Action S (Unit {0})

-- The handler on each message, in order.
unfoldable pub handle_each : {S : Type 0} → Handler S → List Bytes → Action S (Unit {0})
handle_each handler [] = pure tt
handle_each handler (message ∷ messages) = handler message >> handle_each handler messages

pub record Publishing : Type 0 where
  pub content_type : String
  pub body : Bytes

-- The calls of the AMQP library, with the arguments that the code gives.
pub record Amqp (S Connection Channel : Type 0) : Type 0 where
  pub dial : String → Action S Connection
  pub channel : Connection → Action S Channel
  pub close : Channel → Action S (Unit {0})
  pub publish :
      Channel
      → (exchange key : String) → (mandatory immediate : Bool) → Publishing
      → Action S (Unit {0})
  pub queue_declare :
      Channel → String → (durable delete_unused exclusive no_wait : Bool) → Action S String
  pub consume :
      Channel
      → (queue consumer : String) → (auto_ack exclusive no_local no_wait : Bool)
      → Action S (List Bytes)

module _ {S Connection Channel : Type 0} (amqp : Amqp S Connection Channel) where
  pub record RabbitMq : Type 0 where
    pub conn : Connection

  unfoldable pub new_rabbit_mq : String → Action S RabbitMq
  new_rabbit_mq url = do conn ← amqp.dial url; pure (record { conn = conn })

  -- On the channel, which is closed at the end.
  unfoldable pub publish_on : String → Bytes → Channel → Action S (Unit {0})
  publish_on topic message ch = deferring (amqp.close ch) (
      amqp.publish ch topic "" false false (record { content_type = "text/plain"; body = message }))

  unfoldable pub subscribe_on : String → Handler S → Channel → Action S (Unit {0})
  unfolding handle_each
  subscribe_on topic handler ch = deferring (amqp.close ch) (do
    queue ← amqp.queue_declare ch topic false false false false
    messages ← amqp.consume ch queue "" true false false false
    handle_each handler messages)

  unfoldable pub rabbit_broker : RabbitMq → MessageBroker S
  unfolding publish_on subscribe_on
  rabbit_broker r = record {
    publish = λ topic message. amqp.channel r.conn >>= publish_on topic message;
    subscribe = λ topic handler. amqp.channel r.conn >>= subscribe_on topic handler;
  }

-- What the consumer's channel of events delivers.
pub data KafkaEvent : Type 0 where
  delivered : Bytes → KafkaEvent
  failed : Error → KafkaEvent
  notice : KafkaEvent

-- The calls of the Kafka library; a message goes to any partition of its topic.
pub record KafkaClient (S Producer Consumer : Type 0) : Type 0 where
  pub new_producer : (servers : String) → Action S Producer
  pub new_consumer : (servers : String) → Action S Consumer
  pub produce : Producer → (topic : String) → Bytes → Action S (Unit {0})
  pub subscribe : Consumer → String → Action S (Unit {0})
  pub events : Consumer → Action S (List KafkaEvent)
  pub close : Consumer → Action S (Unit {0})

-- The loop over the events: an error event ends it with that error.
unfoldable pub consume_events : {S : Type 0} → Handler S → List KafkaEvent → Action S (Unit {0})
consume_events handler [] = pure tt
consume_events handler (delivered message ∷ events) =
    handler message >> consume_events handler events
consume_events handler (failed e ∷ events) = throw e
consume_events handler (notice ∷ events) = consume_events handler events

module _ {S Producer Consumer : Type 0} (client : KafkaClient S Producer Consumer) where
  pub record Kafka : Type 0 where
    pub producer : Producer
    pub consumer : Consumer

  -- `servers` is `strings.Join(brokers, ",")`.
  unfoldable pub new_kafka : (servers : String) → Action S Kafka
  new_kafka servers = do
    producer ← client.new_producer servers
    consumer ← client.new_consumer servers
    pure (record { producer = producer; consumer = consumer })

  unfoldable pub kafka_broker : Kafka → MessageBroker S
  unfolding consume_events
  kafka_broker k = record {
    publish = λ topic message. client.produce k.producer topic message;
    subscribe = λ topic handler.
        client.subscribe k.consumer topic
        >> deferring (client.close k.consumer)
            (do events ← client.events k.consumer; consume_events handler events);
  }

  unfoldable pub close_kafka : Kafka → Action S (Unit {0})
  close_kafka k = client.close k.consumer
