-- ===== src/Messaging/Channels.antt =====
-- What the RabbitMQ broker does with the channels that it opens.
use game_ad_service.Common.{String, Bool, List, [], ◌∷◌, ◌≡◌, sym, subst, arith, inl, inr, ◌⊎◌}
use game_ad_service.Storage.{Action, ok, Result-cases, ◌>>=◌, deferring}
use game_ad_service.Storage.Safe.{
  Safe, Any, any_result, pure-Safe, bind-Safe, then-Safe, bind_ok, bind_err, bind_panic,
}
use game_ad_service.Messaging.{
  Bytes, Handler, Publishing, Amqp, RabbitMq, publish_on, subscribe_on, rabbit_broker, handle_each,
}

-- After the call, whatever its result, no channel is open that was not open before. It may close
-- channels.
abbrev pub OpensNone : {S A Channel : Type 0} → (Channel → S → Type 0) → Action S A → Type 0
OpensNone {S} {Channel = Channel} IsOpen act =
    (ch : Channel) (s : S) → IsOpen ch (act s).1 → IsOpen ch s

-- What the library says of open channels: one is opened just by `Channel`, which returns it; closing
-- leaves it closed, also if the server has closed it before, as it does on an error of another call;
-- and no other call opens one.
pub record AmqpLaws {S Connection Channel : Type 0} (amqp : Amqp S Connection Channel)
    (IsOpen : Channel → S → Type 0) : Type 0 where
  pub opened :
      (c : Connection) (ch : Channel) (s : S)
      → IsOpen ch (amqp.channel c s).1
      → IsOpen ch s ⊎ ((amqp.channel c s).0 ≡ ok ch)
  pub closed : (ch : Channel) (s : S) → ¬ IsOpen ch (amqp.close ch s).1
  pub close : (ch : Channel) → OpensNone IsOpen (amqp.close ch)
  pub publish :
      (ch : Channel) (exchange key : String) (mandatory immediate : Bool) (p : Publishing)
      → OpensNone IsOpen (amqp.publish ch exchange key mandatory immediate p)
  pub queue_declare :
      (ch : Channel) (name : String) (durable delete_unused exclusive no_wait : Bool)
      → OpensNone IsOpen (amqp.queue_declare ch name durable delete_unused exclusive no_wait)
  pub consume :
      (ch : Channel) (queue consumer : String) (auto_ack exclusive no_local no_wait : Bool)
      → OpensNone IsOpen (amqp.consume ch queue consumer auto_ack exclusive no_local no_wait)

module _ {S Connection Channel : Type 0} (amqp : Amqp S Connection Channel)
    (IsOpen : Channel → S → Type 0) (laws : AmqpLaws amqp IsOpen) where
  -- The channels that are open were open in an earlier world.
  abbrev Among : S → S → Type 0
  Among s0 s = (ch : Channel) → IsOpen ch s → IsOpen ch s0

  opens_none-Safe :
      {A : Type 0} (s0 : S) {act : Action S A} → OpensNone IsOpen act → Safe (Among s0) Any act
  opens_none-Safe s0 {act} h = record {
    keep = λ s i. ((λ ch o. i ch (h ch s o)), any_result (act s).0);
  }

  handle_each-Safe :
      (s0 : S) (handler : Handler S) (messages : List Bytes)
      → ((message : Bytes) → OpensNone IsOpen (handler message))
      → Safe (Among s0) Any (handle_each handler messages)
  unfolding handle_each
  handle_each-Safe s0 handler [] h = pure-Safe Any tt tt
  handle_each-Safe s0 handler (message ∷ messages) h =
      then-Safe Any Any (opens_none-Safe s0 (h message)) (handle_each-Safe s0 handler messages h)

  -- `Channel` that returns none has opened none.
  failed :
      (c : Connection) (j : Channel) (s : S)
      → IsOpen j (amqp.channel c s).1
      → ¬ ((amqp.channel c s).0 ≡ ok j)
      → IsOpen j s
  failed c j s o n = elim (laws.opened c j s o) [ inl before ↦ before | inr new ↦ absurd (n new) ]

  -- A channel that is opened for a call is closed after it.
  with_channel :
      {A : Type 0} (c : Connection) (body : Channel → Action S A) (s : S)
      → ((ch : Channel) (s0 : S) → Safe (Among s0) Any (body ch))
      → Among s ((amqp.channel c >>= λ ch. deferring (amqp.close ch) (body ch)) s).1
  unfolding deferring
  with_channel c body s h =
      let s1 = (amqp.channel c s).1 in
      elim (Result-cases (amqp.channel c s).0) [
        | inl (ch, e) ↦
            let s2 = (body ch s1).1 in
            let kept : Among s1 s2 = ((h ch s1).keep s1 (λ j o. o)).0 in
            rw (bind_ok (amqp.channel c) _ s ch e) (λ j o.
              elim (laws.opened c j s (kept j (laws.close ch j s2 o))) [
                | inl before ↦ before
                | inr new ↦
                    let same : ch ≡ j = ground (arith, e, new) in
                    absurd
                      (laws.closed ch s2 (subst (λ k. IsOpen k (amqp.close ch s2).1) (sym same) o))
              ])
        | inr (inl (x, e)) ↦
            rw (bind_err (amqp.channel c) _ s x e)
              (λ j o. failed c j s o (λ f. ground (arith, e, f)))
        | inr (inr e) ↦
            rw (bind_panic (amqp.channel c) _ s e)
              (λ j o. failed c j s o (λ f. ground (arith, e, f)))
      ]

  -- Over an AMQP library of which only `Channel` opens channels, one that it returns, and `Close`
  -- leaves its channel closed, whatever channels an error has closed before: publishing leaves no
  -- channel open that was not open before, whether it succeeds or fails, and neither does
  -- subscribing with a handler that leaves none open, on every error and also if the handler panics.
  pub rabbit_broker-OpensNone :
      (r : RabbitMq amqp) (topic : String) (message : Bytes) (handler : Handler S)
      → ((m : Bytes) → OpensNone IsOpen (handler m))
      → let b = rabbit_broker amqp r in
        OpensNone IsOpen (b.publish topic message) × OpensNone IsOpen (b.subscribe topic handler)
  unfolding rabbit_broker publish_on subscribe_on
  rabbit_broker-OpensNone r topic message handler h = (
    (λ j s. with_channel r.conn _ s (λ ch s0. opens_none-Safe s0 (laws.publish ch _ _ _ _ _)) j),
    λ j s.
        with_channel r.conn _ s
          (λ ch s0.
            bind-Safe Any Any (opens_none-Safe s0 (laws.queue_declare ch _ _ _ _ _)) λ queue _.
              bind-Safe Any Any (opens_none-Safe s0 (laws.consume ch _ _ _ _ _ _))
                λ messages _. handle_each-Safe s0 handler messages h)
          j,
  )
