-- ===== src/State/Bus/Examples.antt =====
-- Tests of the activity bus.
use stackd.Base.{◌≡◌, refl, some, none, Option, [], ◌∷◌, Bytes, bytes, take, arith}
use stackd.State.{ActivityEvent}
use stackd.State.Bus.{Bus, new_bus, subscribe, cancel, buffer_size}
use stackd.State.Bus.Laws.{buffer_in, buffer_of, messages, publish_all, published-take}

abbrev event : Bytes → ActivityEvent
event m = record { kind = bytes "done"; repo = bytes "infra"; stack = []; msg = m }

abbrev marshal : ActivityEvent → Option Bytes
marshal ev = some ev.msg

abbrev two_subscribers : Bus
two_subscribers = subscribe 2 (subscribe 1 new_bus)

published-take_example :
    buffer_of 1 (publish_all marshal (event (bytes "x") ∷ event (bytes "y") ∷ []) two_subscribers)
    ≡ some (take buffer_size (messages marshal (event (bytes "x") ∷ event (bytes "y") ∷ [])))
unfolding subscribe buffer_in
published-take_example =
    published-take marshal 1 (event (bytes "x") ∷ event (bytes "y") ∷ []) two_subscribers {q = []}
      refl (omega arith)

unsubscribed : buffer_of 1 (cancel 1 two_subscribers) ≡ none
unfolding subscribe cancel buffer_in
unsubscribed = refl
