-- ===== src/Units/Broker/Streams.antt =====
-- The broker never panics, its buffers stay within their size, and what a subscriber receives has no
-- gap.
use unit_management.Base.{
  ℕ, ◌≤◌, ◌≡◌, refl, true, false, not, List, [], ◌∷◌, ◌++◌, map, arith, ◌==◌, if◌then◌else◌, length,
  length-append, All, All-append, All-map_if,
}
use unit_management.Units.Broker.{
  Event, Channel, Broker, subscriber_buffer, new_broker, subscribe, remove, offer, publish, cancel,
  pop, receive, received,
}

-- What holds of every channel: it is closed exactly when it has left the map, no send or close of it
-- has panicked, and its buffer is within its size.
pub record IsSound (ch : Channel) : Type 0 where
  pub closed : ch.closed ≡ not ch.subscribed
  pub calm : ch.panicked ≡ false
  pub bounded : length ch.buffer ≤ subscriber_buffer

offer-IsSound : (ev : Event) (ch : Channel) → IsSound ch → IsSound (offer ev ch)
unfolding offer
offer-IsSound ev ch h = ground (arith, length-append ch.buffer (ev ∷ []))

remove-IsSound : (ch : Channel) → IsSound ch → IsSound (remove ch)
unfolding remove
remove-IsSound ch h = ground arith

pop-IsSound : (ch : Channel) → IsSound ch → IsSound (pop ch)
pop-IsSound ch h = ground arith

-- The calls of the broker, by its owner and by the holders of channels.
pub data Call : Type 0 where
  publishes : Event → Call
  subscribes : Call
  cancels receives : ℕ → Call

unfoldable pub step : Broker → Call → Broker
step b (publishes ev) = publish ev b
step b subscribes = (subscribe b).1
step b (cancels id) = cancel id b
step b (receives id) = receive id b

unfoldable pub run : Broker → List Call → Broker
run b [] = b
run b (c ∷ cs) = run (step b c) cs

map-IsSound : (ev : Event) (chs : List Channel) → All IsSound chs → All IsSound (map (offer ev) chs)
map-IsSound ev [] h = tt
map-IsSound ev (ch ∷ chs) (h, hs) = (offer-IsSound ev ch h, map-IsSound ev chs hs)

pub step-IsSound :
    (b : Broker) (c : Call) → All IsSound b.channels → All IsSound (step b c).channels
unfolding step publish subscribe cancel receive
step-IsSound b (publishes ev) h = map-IsSound ev b.channels h
step-IsSound b subscribes h =
    All-append IsSound b.channels _ h
      (record { closed = refl; calm = refl; bounded = omega arith }, tt)
step-IsSound b (cancels id) h = All-map_if IsSound _ remove b.channels remove-IsSound h
step-IsSound b (receives id) h = All-map_if IsSound _ pop b.channels pop-IsSound h

run_from-IsSound :
    (b : Broker) (cs : List Call) → All IsSound b.channels → All IsSound (run b cs).channels
unfolding run
run_from-IsSound b [] h = h
run_from-IsSound b (c ∷ cs) h = run_from-IsSound (step b c) cs (step-IsSound b c h)

-- After any calls of a new broker, no send to a closed channel and no second close has happened, a
-- channel is closed exactly when it has left the map, and every buffer is within its size.
pub run-IsSound : (cs : List Call) → All IsSound (run new_broker cs).channels
unfolding new_broker
run-IsSound cs = run_from-IsSound _ cs tt

-- The events that the calls publish, and those that they hand to a subscriber.
unfoldable pub published : List Call → List Event
published [] = []
published (publishes ev ∷ cs) = ev ∷ published cs
published (_ ∷ cs) = published cs

abbrev pub handed : ℕ → Broker → Call → List Event
handed id b (receives j) = if id == j then received id b else []
handed id b _ = []

unfoldable pub delivered : ℕ → Broker → List Call → List Event
delivered id b [] = []
delivered id b (c ∷ cs) = handed id b c ++ delivered id (step b c) cs

-- A channel with the events that are still to come is the given stream: all of them as long as it is
-- subscribed.
pub record Holds (ch : Channel) (stream : List Event) : Type 0 where
  pub missed : List Event
  pub whole : ch.buffer ++ missed ≡ stream
  pub live : ch.subscribed ≡ true → missed ≡ []
