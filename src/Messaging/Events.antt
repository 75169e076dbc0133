-- ===== src/Messaging/Events.antt =====
-- What the Kafka broker makes of the events that its consumer delivers.
use game_ad_service.Common.{
  Option, none, some, List, [], ◌∷◌, ◌≡◌, refl, sym, ap, ◌∙◌, arith, String,
}
use game_ad_service.Errors.{Error}
use game_ad_service.Storage.{Action, Result, ok, pure, throw, ◌>>=◌, ◌>>◌, deferring}
use game_ad_service.Messaging.{
  Bytes, Handler, KafkaEvent, delivered, failed, notice, handle_each, consume_events, KafkaClient,
  Kafka, kafka_broker,
}

-- The messages that come before the first error.
abbrev pub messages_before_error : List KafkaEvent → List Bytes
messages_before_error [] = []
messages_before_error (delivered message ∷ events) = message ∷ messages_before_error events
messages_before_error (failed e ∷ events) = []
messages_before_error (notice ∷ events) = messages_before_error events

abbrev pub first_error : List KafkaEvent → Option Error
first_error [] = none
first_error (delivered message ∷ events) = first_error events
first_error (failed e ∷ events) = some e
first_error (notice ∷ events) = first_error events

abbrev pub finish : {S : Type 0} → Option Error → Action S (Unit {0})
finish none = pure tt
finish (some e) = throw e

-- One step of a sequence of calls whose rest is known by its equation.
then-cong :
    {S A B : Type 0} (act : Action S A) (x y : Action S B)
    → ((s : S) → x s ≡ y s)
    → (s : S) → (act >> x) s ≡ (act >> y) s
unfolding ◌>>=◌ ◌>>◌
then-cong act x y h s = ground (arith, h (act s).1)

then_assoc :
    {S A B C : Type 0} (a : Action S A) (b : Action S B) (c : Action S C) (s : S)
    → ((a >> b) >> c) s ≡ (a >> (b >> c)) s
unfolding ◌>>=◌ ◌>>◌
then_assoc a b c s = ground arith

nothing-then : {S A : Type 0} (next : Action S A) (s : S) → next s ≡ (pure tt >> next) s
unfolding ◌>>=◌ ◌>>◌ pure
nothing-then next s = refl

bind_run :
    {S A B : Type 0} (act : Action S A) (f : A → Action S B) (s s' : S) (a : A)
    → act s ≡ (ok a, s')
    → (act >>= f) s ≡ f a s'
unfolding ◌>>=◌
bind_run act f s s' a e = ground (arith, e)

consume_events_lem :
    {S : Type 0} (handler : Handler S) (events : List KafkaEvent) (s : S)
    → consume_events handler events s
      ≡ (handle_each handler (messages_before_error events) >> finish (first_error events)) s
unfolding consume_events handle_each
consume_events_lem handler [] s = nothing-then (finish none) s
consume_events_lem handler (delivered message ∷ events) s =
    then-cong (handler message) _ _ (consume_events_lem handler events) s
    ∙ sym (then_assoc (handler message) _ _ s)
consume_events_lem handler (failed e ∷ events) s = nothing-then (finish (some e)) s
consume_events_lem handler (notice ∷ events) s = consume_events_lem handler events s

module _ {S Producer Consumer : Type 0} (client : KafkaClient S Producer Consumer) where
  -- Once the consumer has subscribed and its events are known, `Subscribe` calls the handler on the
  -- messages that come before the first error event, in order and passing over other events, up to a
  -- handler's panic; it returns that error, or none if there is none; and it closes the consumer at the
  -- end in every case.
  pub kafka_broker_lem :
      (k : Kafka client) (topic : String) (handler : Handler S) (events : List KafkaEvent)
      (s s1 s2 : S)
      → client.subscribe k.consumer topic s ≡ (ok tt, s1)
      → client.events k.consumer s1 ≡ (ok events, s2)
      → let handled =
          handle_each handler (messages_before_error events) >> finish (first_error events) in
        let (r, s3) = handled s2 in
        (kafka_broker client k).subscribe topic handler s ≡ (r, (client.close k.consumer s3).1)
  unfolding kafka_broker ◌>>◌ deferring
  kafka_broker_lem k topic handler events s s1 s2 subscribed known =
      let read = client.events k.consumer in
      let handled =
        bind_run read (consume_events handler) s1 s2 events known
        ∙ consume_events_lem handler events s2 in
      let rest =
        λ (_ : Unit {0}). deferring (client.close k.consumer) (read >>= consume_events handler) in
      bind_run (client.subscribe k.consumer topic) rest s s1 tt subscribed
      ∙ ap (λ (x : Result (Unit {0}) × S). (x.0, (client.close k.consumer x.1).1)) handled
