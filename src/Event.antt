-- ===== src/Event.antt =====
-- internal/event/event.go: the event bus. A channel is its number; its buffer stands in a heap of
-- channels, which the bus and the receivers share.
pub mod Invariant
pub mod Delivery
pub mod Queue
use go_p2p_messenger.Base.{
  ℕ, suc, ◌+◌, Text, codes, text_eq, ℤ, Bool, ◌||◌, false, ◌&&◌, Option, none, some, List, [], ◌∷◌,
  ◌++◌, ltb, ◌==◌, if◌then◌else◌, length,
}
use go_p2p_messenger.Transport.Reachability.{ReachabilityStatus}

abbrev pub topic_new_message : Text
topic_new_message = codes "chat.message.new"

abbrev pub topic_new_contact : Text
topic_new_contact = codes "chat.contact.new"

abbrev pub topic_sync_status : Text
topic_sync_status = codes "sync.status"

abbrev pub topic_node_reachability : Text
topic_node_reachability = codes "node.reachability"

pub record MessageEvent : Type 0 where
  pub id : Text
  pub chat_id : Text
  pub sender_id : Text
  pub text : Text
  pub timestamp : ℤ
  pub is_incoming : Bool
  pub status : Text

-- `Progress`, a float that no code sets or reads, is left out.
pub record SyncEvent : Type 0 where
  pub status : Text

-- The values that the program sends as `interface{}`, by their dynamic type.
pub data Payload : Type 0 where
  message : MessageEvent → Payload
  sync : SyncEvent → Payload
  reachability : ReachabilityStatus → Payload
  string : Text → Payload

pub record Bus : Type 0 where
  pub subscribers : List (Text × List ℕ)
  pub next : ℕ
  pub buffer : ℕ → List Payload

-- `make(chan interface{}, 100)`
abbrev pub capacity : ℕ
capacity = 100

unfoldable pub new_bus : Bus
new_bus = record { subscribers = []; next = 0; buffer = λ _. [] }

-- `b.subscribers[topic]`
unfoldable pub channels : Text → List (Text × List ℕ) → Option (List ℕ)
channels topic [] = none
channels topic ((t, chans) ∷ rest) = if text_eq t topic then some chans else channels topic rest

-- `b.subscribers[topic] = append(b.subscribers[topic], ch)`
unfoldable pub add_channel : Text → ℕ → List (Text × List ℕ) → List (Text × List ℕ)
add_channel topic ch [] = (topic, ch ∷ []) ∷ []
add_channel topic ch ((t, chans) ∷ rest) =
    if text_eq t topic then (t, chans ++ ch ∷ []) ∷ rest else (t, chans) ∷ add_channel topic ch rest

abbrev pub update : (ℕ → List Payload) → ℕ → List Payload → ℕ → List Payload
update f i v j = if i == j then v else f j

-- The `select` with a `default`: a full buffer drops the value.
unfoldable pub send : ℕ → Payload → (ℕ → List Payload) → ℕ → List Payload
send ch payload f = if ltb (length (f ch)) capacity then update f ch (f ch ++ payload ∷ []) else f

unfoldable pub send_all : List ℕ → Payload → (ℕ → List Payload) → ℕ → List Payload
send_all [] payload f = f
send_all (ch ∷ rest) payload f = send_all rest payload (send ch payload f)

unfoldable pub publish : Text → Payload → Bus → Bus
publish topic payload b = elim (channels topic b.subscribers) [
  | none ↦ b
  | some chans ↦ record b { buffer = send_all chans payload b.buffer }
]

unfoldable pub subscribe : Text → Bus → ℕ × Bus
subscribe topic b = (
  b.next,
  record {
    subscribers = add_channel topic b.next b.subscribers;
    next = suc b.next;
    buffer = update b.buffer b.next [];
  },
)

unfoldable pub take_first : ℕ → Bus → List Payload → Option (Payload × Bus)
take_first ch b [] = none
take_first ch b (payload ∷ rest) = some (payload, record b { buffer = update b.buffer ch rest })

-- `<-ch`; `none` while the receiver blocks.
unfoldable pub receive : ℕ → Bus → Option (Payload × Bus)
unfolding take_first
receive ch b = take_first ch b (b.buffer ch)

unfoldable pub contains : ℕ → List ℕ → Bool
contains ch [] = false
contains ch (c ∷ cs) = c == ch || contains ch cs

unfoldable pub subscribed : Text → ℕ → List (Text × List ℕ) → Bool
unfolding contains
subscribed topic ch subs = elim (channels topic subs) [
  | none ↦ false
  | some chans ↦ contains ch chans
]

-- Whether a channel is subscribed to a topic.
abbrev pub listens : Bus → Text → ℕ → Bool
listens b topic ch = subscribed topic ch b.subscribers
