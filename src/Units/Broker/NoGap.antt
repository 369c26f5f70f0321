-- ===== src/Units/Broker/NoGap.antt =====
-- A subscriber receives the events in order and without a gap, up to where it is dropped.
use mathlib.Core.List.{append_assoc, append-nil}
use unit_management.Base.{
  ℕ, suc, ◌<◌, ◌≡◌, refl, sym, ap, ◌∙◌, ◌⊎◌, Bool, true, false, none, some, List, [], ◌∷◌, ◌++◌,
  map, arith, ◌==◌, if◌then◌else◌, find?, map_if, All, All-append, All-map_if, find?-append_none,
  Bool-cases, inl, inr, ==_refl, All-find?,
}
use unit_management.Units.Broker.{
  Event, Channel, Broker, new_broker, new_channel, subscribe, remove, offer, publish, cancel, pop,
  receive, channel_of, received,
}
use unit_management.Units.Broker.Streams.{
  IsSound, Call, publishes, subscribes, cancels, receives, step, run, Holds, published, handed,
  delivered, step-IsSound, run-IsSound,
}

-- The events that one call publishes.
abbrev sent : Call → List Event
sent (publishes ev) = ev ∷ []
sent _ = []

published-cons : (c : Call) (cs : List Call) → published (c ∷ cs) ≡ sent c ++ published cs
unfolding published
published-cons (publishes ev) cs = refl
published-cons _ cs = refl

-- After a call the channel holds the stream without what was handed over, and with what was sent.
record Advanced (id : ℕ) (b : Broker) (c : Call) (stream : List Event) : Type 0 where
  channel : Channel
  found : channel_of (step b c) id ≡ some channel
  rest : List Event
  holds : Holds channel rest
  balance : handed id b c ++ rest ≡ stream ++ sent c

find?-map-offer :
    (ev : Event) (id : ℕ) (chs : List Channel) {ch : Channel}
    → find? (λ ch. ch.id == id) chs ≡ some ch
    → find? (λ ch. ch.id == id) (map (offer ev) chs) ≡ some (offer ev ch)
unfolding offer
find?-map-offer ev id [] h = cc
find?-map-offer ev id (c ∷ chs) {ch = d} h = ground (arith, find?-map-offer ev id chs {ch = d})

offer-cases :
    (ev : Event) (ch : Channel)
    → IsSound ch
    → ((ch.subscribed ≡ false) × (offer ev ch ≡ ch))
      ⊎ ((ch.subscribed ≡ true) × ((offer ev ch).buffer ≡ ch.buffer ++ ev ∷ []))
      ⊎ ((ch.subscribed ≡ true)
          × ((offer ev ch).buffer ≡ ch.buffer)
          × ((offer ev ch).subscribed ≡ false))
unfolding offer
offer-cases ev ch h = ground arith

offer-Holds :
    (ev : Event) (ch : Channel) (stream : List Event)
    → IsSound ch
    → Holds ch stream
    → Holds (offer ev ch) (stream ++ ev ∷ [])
offer-Holds ev ch stream sound h = elim (offer-cases ev ch sound) [
  | inl (gone, same) ↦ rw same (record {
    missed = h.missed ++ ev ∷ [];
    whole = sym (append_assoc ch.buffer h.missed (ev ∷ [])) ∙ ap (λ l. l ++ ev ∷ []) h.whole;
    live = λ live. cc;
  })
  | inr (inl (live, grown)) ↦ record {
    missed = [];
    whole = rw (append-nil, grown) (ap (λ l. l ++ ev ∷ []) (all_there h live));
    live = λ _. refl;
  }
  | inr (inr (live, same, dropped)) ↦ record {
    missed = ev ∷ [];
    whole = rw same (ap (λ l. l ++ ev ∷ []) (all_there h live));
    live = λ live'. cc;
  }
]
  where
    all_there : Holds ch stream → ch.subscribed ≡ true → ch.buffer ≡ stream
    all_there h live =
        sym (append-nil ch.buffer) ∙ (ap (λ m. ch.buffer ++ m) (sym (h.live live)) ∙ h.whole)

remove-fields : (ch : Channel) → ((remove ch).buffer ≡ ch.buffer) × ((remove ch).subscribed ≡ false)
unfolding remove
remove-fields ch = ground arith

remove-Holds : (ch : Channel) (stream : List Event) → Holds ch stream → Holds (remove ch) stream
remove-Holds ch stream h = record {
  missed = h.missed;
  whole = rw (remove-fields ch).0 h.whole;
  live = λ live. cc ((remove-fields ch).1);
}

find?-change :
    (id j : ℕ) (f : Channel → Channel) (chs : List Channel) {ch : Channel}
    → ((c : Channel) → (f c).id ≡ c.id)
    → find? (λ c. c.id == id) chs ≡ some ch
    → find? (λ c. c.id == id) (map_if (λ c. c.id == j) f chs) ≡ some (if id == j then f ch else ch)
find?-change id j f [] same h = cc
find?-change id j f (c ∷ chs) {ch = d} same h =
    ground (arith, same c, find?-change id j f chs {ch = d} same)

remove-id : (ch : Channel) → (remove ch).id ≡ ch.id
unfolding remove
remove-id ch = ground arith

pop-id : (ch : Channel) → (pop ch).id ≡ ch.id
pop-id ch = ground arith

-- What a receive hands over stood in front of the buffer.
abbrev popped : Channel → List Event
popped ch = elim ch.buffer [ [] ↦ [] | ev ∷ rest ↦ ev ∷ [] ]

popped-append-pop : (ch : Channel) → popped ch ++ (pop ch).buffer ≡ ch.buffer
popped-append-pop ch = ground arith

pop-subscribed : (ch : Channel) → (pop ch).subscribed ≡ ch.subscribed
pop-subscribed ch = ground arith

append_comm_nil : (xs : List Event) → xs ≡ xs ++ []
append_comm_nil xs = sym (append-nil xs)

module _ (id : ℕ) (b : Broker) (ch : Channel) (stream : List Event)
    (found : channel_of b id ≡ some ch) (sound : All IsSound b.channels) (h : Holds ch stream) where
  publish-Advanced : (ev : Event) → Advanced id b (publishes ev) stream
  unfolding step publish
  publish-Advanced ev = record {
    channel = offer ev ch;
    found = find?-map-offer ev id b.channels found;
    rest = stream ++ ev ∷ [];
    holds = offer-Holds ev ch stream (All-find? IsSound _ b.channels sound found) h;
    balance = refl;
  }

  subscribe-Advanced : Advanced id b subscribes stream
  unfolding step subscribe
  subscribe-Advanced = record {
    channel = ch;
    found = rw (find?-append_none (λ c. c.id == id) b.channels _, found);
    rest = stream;
    holds = h;
    balance = append_comm_nil stream;
  }

  cancel-Advanced : (j : ℕ) → Advanced id b (cancels j) stream
  unfolding step cancel
  cancel-Advanced j = record {
    channel = if id == j then remove ch else ch;
    found = find?-change id j remove b.channels remove-id found;
    rest = stream;
    holds = either (id == j);
    balance = append_comm_nil stream;
  }
    where
      either : (t : Bool) → Holds (if t then remove ch else ch) stream
      either true = remove-Holds ch stream h
      either false = h

  received-popped : received id b ≡ popped ch
  unfolding received
  received-popped = ground arith

  receive-Advanced : (j : ℕ) → Advanced id b (receives j) stream
  unfolding step receive
  receive-Advanced j = elim (Bool-cases (id == j)) [
    | inl own ↦ record {
      channel = pop ch;
      found = find?-change id j pop b.channels pop-id found ∙ rw own;
      rest = (pop ch).buffer ++ h.missed;
      holds = record {
        missed = h.missed;
        whole = refl;
        live = λ live. h.live (sym (pop-subscribed ch) ∙ live);
      };
      balance =
          rw (own, received-popped)
            (sym (append_assoc (popped ch) (pop ch).buffer h.missed)
              ∙ (ap (λ l. l ++ h.missed) (popped-append-pop ch)
                  ∙ (h.whole ∙ append_comm_nil stream)));
    }
    | inr other ↦ record {
      channel = ch;
      found = find?-change id j pop b.channels pop-id found ∙ rw other;
      rest = stream;
      holds = h;
      balance = rw other (append_comm_nil stream);
    }
  ]

  step-Advanced : (c : Call) → Advanced id b c stream
  step-Advanced (publishes ev) = publish-Advanced ev
  step-Advanced subscribes = subscribe-Advanced
  step-Advanced (cancels j) = cancel-Advanced j
  step-Advanced (receives j) = receive-Advanced j

-- The channel at the end of some calls, with the events that it has not got.
pub record Ended (id : ℕ) (b : Broker) (cs : List Call) (stream : List Event) : Type 0 where
  pub channel : Channel
  pub found : channel_of (run b cs) id ≡ some channel
  pub missed : List Event
  pub whole : delivered id b cs ++ (channel.buffer ++ missed) ≡ stream ++ published cs
  pub live : channel.subscribed ≡ true → missed ≡ []

run-Ended :
    (id : ℕ) (b : Broker) (cs : List Call) (ch : Channel) (stream : List Event)
    → channel_of b id ≡ some ch
    → All IsSound b.channels
    → Holds ch stream
    → Ended id b cs stream
unfolding run published delivered
run-Ended id b [] ch stream found sound h = record {
  channel = ch;
  found = found;
  missed = h.missed;
  whole = h.whole ∙ append_comm_nil stream;
  live = h.live;
}
run-Ended id b (c ∷ cs) ch stream found sound h =
    let a = step-Advanced id b ch stream found sound h c in
    let end =
      run-Ended id (step b c) cs a.channel a.rest a.found (step-IsSound b c sound) a.holds in
    record {
      channel = end.channel;
      found = end.found;
      missed = end.missed;
      whole =
          append_assoc (handed id b c) (delivered id (step b c) cs)
            (end.channel.buffer ++ end.missed)
          ∙ (ap (λ l. handed id b c ++ l) end.whole
              ∙ (sym (append_assoc (handed id b c) a.rest (published cs))
                  ∙ (ap (λ l. l ++ published cs) a.balance
                      ∙ (append_assoc stream (sent c) (published cs)
                          ∙ ap (λ l. stream ++ l) (sym (published-cons c cs))))));
      live = end.live;
    }

-- The numbers of the channels are those that have been given out.
abbrev Numbered : Broker → Type 0
Numbered b = All (λ ch. ch.id < b.next) b.channels

publish-Numbered :
    (n : ℕ) (ev : Event) (chs : List Channel)
    → All (λ ch. ch.id < n) chs
    → All (λ ch. ch.id < n) (map (offer ev) chs)
unfolding offer
publish-Numbered n ev [] h = tt
publish-Numbered n ev (ch ∷ chs) (h, hs) = (ground arith, publish-Numbered n ev chs hs)

weaken-Numbered :
    (n : ℕ) (chs : List Channel) → All (λ ch. ch.id < n) chs → All (λ ch. ch.id < suc n) chs
weaken-Numbered n [] h = tt
weaken-Numbered n (ch ∷ chs) (h, hs) = (omega arith, weaken-Numbered n chs hs)

step-Numbered : (b : Broker) (c : Call) → Numbered b → Numbered (step b c)
unfolding step publish subscribe cancel receive
step-Numbered b (publishes ev) h = publish-Numbered b.next ev b.channels h
step-Numbered b subscribes h =
    All-append _ b.channels _ (weaken-Numbered b.next b.channels h) (omega arith, tt)
step-Numbered b (cancels id) h = All-map_if _ _ remove b.channels (λ ch k. rw (remove-id ch) k) h
step-Numbered b (receives id) h = All-map_if _ _ pop b.channels (λ ch k. rw (pop-id ch) k) h

run-Numbered : (b : Broker) (cs : List Call) → Numbered b → Numbered (run b cs)
unfolding run
run-Numbered b [] h = h
run-Numbered b (c ∷ cs) h = run-Numbered (step b c) cs (step-Numbered b c h)

fresh_number :
    (n : ℕ) (chs : List Channel) → All (λ ch. ch.id < n) chs → find? (λ ch. ch.id == n) chs ≡ none
fresh_number n [] h = refl
fresh_number n (ch ∷ chs) (h, hs) = ground (arith, fresh_number n chs hs)

-- Whatever calls precede and follow a subscription, what the subscriber has received, followed by
-- the channel's buffer and by the events missed, is what was published since, in order; and none
-- are missed while the channel is subscribed.
pub subscriber_no_gap :
    (before after : List Call)
    → let b = run new_broker before in Ended b.next (subscribe b).1 after []
unfolding new_broker subscribe run step
subscriber_no_gap before after =
    let b = run new_broker before in
    run-Ended b.next (subscribe b).1 after (new_channel b.next) []
      (rw (
        find?-append_none (λ ch. ch.id == b.next) b.channels _,
        fresh_number b.next b.channels (run-Numbered new_broker before tt),
        ==_refl b.next,
      ))
      (step-IsSound b subscribes (run-IsSound before))
      (record { missed = []; whole = refl; live = λ _. refl })
