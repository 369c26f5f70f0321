-- ===== src/Units/Broker.antt =====
-- internal/units/events.go: the broker of unit events. A Go channel is its buffer with a mark for
-- being closed; the broker's map holds the channels that are marked `subscribed`.
pub mod Streams
pub mod NoGap
use unit_management.Base.{
  ℕ, suc, Bool, true, false, not, Option, List, [], ◌∷◌, ◌++◌, ltb, ◌==◌, if◌then◌else◌, length,
  map_if, map, none, some, find?,
}
use unit_management.Models.{Uuid, UnitRow}

pub data EventType : Type 0 where
  created updated deleted : EventType

pub record Event : Type 0 where
  pub type : EventType
  pub id : Uuid
  pub unit : Option UnitRow

abbrev pub subscriber_buffer : ℕ
subscriber_buffer = 64

pub record Channel : Type 0 where
  pub id : ℕ
  pub buffer : List Event
  pub subscribed : Bool
  pub closed : Bool
  -- A send to a closed channel or a second close, where Go panics.
  pub panicked : Bool

pub record Broker : Type 0 where
  -- The number of channels made so far.
  pub next : ℕ
  pub channels : List Channel

-- NewBroker
unfoldable pub new_broker : Broker
new_broker = record { next = 0; channels = [] }

-- make(chan Event, subscriberBuffer), put into the map
unfoldable pub new_channel : ℕ → Channel
new_channel id = record {
  id = id;
  buffer = [];
  subscribed = true;
  closed = false;
  panicked = false;
}

-- Subscribe: the new channel is known by its number.
unfoldable pub subscribe : Broker → ℕ × Broker
unfolding new_channel
subscribe b =
    (b.next, record { next = suc b.next; channels = b.channels ++ new_channel b.next ∷ [] })

-- close(ch)
unfoldable pub close : Channel → Channel
close ch = if ch.closed then record ch { panicked = true } else record ch { closed = true }

-- Broker.remove
unfoldable pub remove : Channel → Channel
unfolding close
remove ch = if ch.subscribed then close (record ch { subscribed = false }) else ch

-- The turn of Publish's loop for a channel of the map: send, or remove where the buffer is full.
unfoldable pub offer : Event → Channel → Channel
unfolding remove
offer ev ch =
    if not ch.subscribed
    then ch
    else if ch.closed
    then record ch { panicked = true }
    else if ltb (length ch.buffer) subscriber_buffer
    then record ch { buffer = ch.buffer ++ ev ∷ [] }
    else remove ch

unfoldable pub publish : Event → Broker → Broker
publish ev b = record b { channels = map (offer ev) b.channels }

-- The cancel function that Subscribe returns.
unfoldable pub cancel : ℕ → Broker → Broker
cancel id b = record b { channels = map_if (λ ch. ch.id == id) remove b.channels }

abbrev pop : Channel → Channel
pop ch = elim ch.buffer [ [] ↦ ch | ev ∷ rest ↦ record ch { buffer = rest } ]

-- A receive by the holder of a channel, which takes the oldest event of the buffer, if there is one.
unfoldable pub receive : ℕ → Broker → Broker
receive id b = record b { channels = map_if (λ ch. ch.id == id) pop b.channels }

-- The channel of a subscription.
abbrev pub channel_of : Broker → ℕ → Option Channel
channel_of b id = find? (λ ch. ch.id == id) b.channels

-- What `receive` hands over.
unfoldable pub received : ℕ → Broker → List Event
received id b = elim (channel_of b id) [
  | none ↦ []
  | some ch ↦ elim ch.buffer [ [] ↦ [] | ev ∷ rest ↦ ev ∷ [] ]
]
