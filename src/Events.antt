-- ===== src/Events.antt =====
-- internal/domain/events/event.go: a bus that calls the handlers of an event's type, in the order in
-- which they subscribed. A handler is an action on a state `S`.
use game_ad_service.Common.{
  String, String-discrete, none, some, List, [], ◌∷◌, ◌++◌, ◌≡◌, arith, ite,
}
use game_ad_service.Common.Int.{ℤ}
use game_ad_service.Common.Dict.{Dict, lookup, insert, lookup-insert}
use game_ad_service.Storage.{Action, pure, ◌>>=◌, ◌>>◌, handle, ignore}

pub record Event : Type 0 where
  pub id : String
  pub event_type : String
  pub created_at : ℤ
  pub updated_at : ℤ

abbrev pub EventHandler : Type 0 → Type 0
EventHandler S = Event → Action S (Unit {0})

abbrev pub EventBus : Type 0 → Type 0
EventBus S = Dict (List (EventHandler S))

unfoldable pub new_event_bus : {S : Type 0} → EventBus S
new_event_bus = []

module _ {S : Type 0} where
  -- `e.handlers[eventType]`, with no handler for a missing key.
  unfoldable pub handlers_of : String → EventBus S → List (EventHandler S)
  handlers_of event_type bus = elim (lookup event_type bus) [ none ↦ [] | some hs ↦ hs ]

  -- The loop of `Publish`: the errors of the handlers are dropped.
  unfoldable pub call_each : List (EventHandler S) → Event → Action S (Unit {0})
  call_each [] event = pure tt
  call_each (h ∷ hs) event = ignore (h event) >> call_each hs event

  unfoldable pub publish : EventBus S → Event → Action S (Unit {0})
  unfolding handlers_of call_each
  publish bus event = call_each (handlers_of event.event_type bus) event

  unfoldable pub subscribe : String → EventHandler S → EventBus S → EventBus S
  unfolding handlers_of
  subscribe event_type handler bus =
      insert event_type (handlers_of event_type bus ++ handler ∷ []) bus

  call_each-append :
      (hs : List (EventHandler S)) (h : EventHandler S) (event : Event) (s : S)
      → call_each (hs ++ h ∷ []) event s ≡ (call_each hs event >> ignore (h event)) s
  unfolding call_each ignore handle pure ◌>>=◌ ◌>>◌
  call_each-append [] h event s = ground arith
  call_each-append (g ∷ hs) h event s = ground (arith, call_each-append hs h event (g event s).1)

  -- After a subscription, publishing an event of that type does what it did before and then calls the
  -- new handler, whose error is dropped; publishing an event of another type does what it did.
  pub publish-subscribe :
      (event_type : String) (h : EventHandler S) (bus : EventBus S) (event : Event) (s : S)
      → publish (subscribe event_type h bus) event s
        ≡ ite
            (String-discrete event_type event.event_type)
            ((publish bus event >> ignore (h event)) s)
            (publish bus event s)
  unfolding publish subscribe handlers_of
  publish-subscribe event_type h bus event s =
      let hs = handlers_of event_type bus in
      let found = lookup-insert event.event_type event_type (hs ++ h ∷ []) bus in
      elim (String-discrete event_type event.event_type) [
        | yes e ↦ ground (arith, found, e, call_each-append hs h event s)
        | no n ↦ ground (arith, found, n)
      ]
