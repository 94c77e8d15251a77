-- ===== src/State/Bus.antt =====
-- internal/state/state.go: ActivityBus. A subscriber's channel is the list of the messages in its
-- buffer, the oldest at the head, under the number that stands for the channel. Each method holds the
-- lock, so it is one step.
mod Laws
mod Examples
use mathlib.Core.Option
use stackd.Base.{
  ℕ, ◌==◌, ltb, not, Bool, Option, none, some, List, [], ◌∷◌, ◌++◌, map, keep, length,
  if◌then◌else◌, Bytes,
}
use stackd.State.{ActivityEvent}

pub record Subscriber : Type 0 where
  pub channel : ℕ
  pub buffer : List Bytes

-- ActivityBus
pub record Bus : Type 0 where
  pub subs : List Subscriber

-- NewActivityBus
abbrev pub new_bus : Bus
new_bus = record { subs = [] }

-- make(chan []byte, 32)
abbrev pub buffer_size : ℕ
buffer_size = 32

-- A send that is dropped where the buffer is full.
abbrev pub offer : Bytes → Subscriber → Subscriber
offer msg s = record s {
  buffer = if ltb (length s.buffer) buffer_size then s.buffer ++ msg ∷ [] else s.buffer;
}

-- Publish; `marshal` is json.Marshal, `none` where it fails.
unfoldable pub publish : (ActivityEvent → Option Bytes) → ActivityEvent → Bus → Bus
publish marshal ev b = elim (marshal ev) [
  | none ↦ b
  | some msg ↦ record { subs = map (offer msg) b.subs }
]

-- Subscribe, with the number of the new channel.
unfoldable pub subscribe : ℕ → Bus → Bus
subscribe channel b = record { subs = record { channel = channel; buffer = [] } ∷ b.subs }

-- The cancel function of a subscription.
unfoldable pub cancel : ℕ → Bus → Bus
cancel channel b = record { subs = keep (λ s. not (s.channel == channel)) b.subs }
