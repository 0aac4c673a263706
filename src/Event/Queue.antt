-- ===== src/Event/Queue.antt =====
-- internal/event/event.go: the bus as its receivers see it, one queue for each channel.
pub mod Refinement
use go_p2p_messenger.Base.{
  ℕ, suc, ◌<◌, ◌≤◌, ◌≡◌, refl, sym, ◌∙◌, ap, subst, Text, text_eq, Bool, true, false, ◌&&◌, ◌||◌,
  Option, none, some, List, [], ◌∷◌, ◌++◌, arith, ltb, ◌==◌, if◌then◌else◌, length, Option-cases,
  inl, inr,
}
use go_p2p_messenger.Event.{
  Bus, Payload, capacity, publish, subscribe, receive, take_first, listens, subscribed, update,
}
use go_p2p_messenger.Event.Invariant.{IsValid, publish-IsValid, subscribe-IsValid, receive-IsValid}
use go_p2p_messenger.Event.Delivery.{publish-buffer, subscribe-listens}

-- What the program does with a bus.
pub data Operation : Type 0 where
  publishes : Text → Payload → Operation
  subscribes : Text → Operation
  receives : ℕ → Operation

-- The values that one channel has given to its receiver, and those that wait in it.
pub record Queue : Type 0 where
  pub taken : List Payload
  pub waiting : List Payload

-- The specification: a queue of at most `capacity` values of the topics that it hears.
unfoldable pub popped : Queue → Queue
popped q = elim q.waiting [
  | [] ↦ q
  | ◌∷◌ p rest ↦ record { taken = q.taken ++ p ∷ []; waiting = rest }
]

unfoldable pub pushed : Payload → Queue → Queue
pushed p q =
    if ltb (length q.waiting) capacity then record q { waiting = q.waiting ++ p ∷ [] } else q

unfoldable pub queue_step : (Text → Bool) → ℕ → Operation → Queue → Queue
unfolding popped pushed
queue_step hears ch (publishes topic p) q = if hears topic then pushed p q else q
queue_step hears ch (subscribes topic) q = q
queue_step hears ch (receives c) q = if c == ch then popped q else q

unfoldable pub queue_run : (Text → Bool) → ℕ → List Operation → Queue → Queue
unfolding queue_step
queue_run hears ch [] q = q
queue_run hears ch (o ∷ os) q = queue_run hears ch os (queue_step hears ch o q)

-- The bus, and what a channel has given so far.
abbrev given : ℕ → ℕ → List Payload → Option (Payload × Bus) → Bus → List Payload × Bus
given c ch taken none b = (taken, b)
given c ch taken (some (p, b')) b = ((if c == ch then taken ++ p ∷ [] else taken), b')

unfoldable pub bus_step : ℕ → Operation → List Payload × Bus → List Payload × Bus
bus_step ch (publishes topic p) (taken, b) = (taken, publish topic p b)
bus_step ch (subscribes topic) (taken, b) = (taken, (subscribe topic b).1)
bus_step ch (receives c) (taken, b) = given c ch taken (receive c b) b

unfoldable pub bus_run : ℕ → List Operation → List Payload × Bus → List Payload × Bus
unfolding bus_step
bus_run ch [] x = x
bus_run ch (o ∷ os) x = bus_run ch os (bus_step ch o x)

-- The queue that a bus has for a channel.
abbrev pub view : ℕ → List Payload × Bus → Queue
view ch (taken, b) = record { taken = taken; waiting = b.buffer ch }
