-- ===== src/Program/Listening.antt =====
-- What the view models do leaves every channel subscribed.
use go_p2p_messenger.Base.{
  ℕ, ◌≡◌, refl, sym, ◌∙◌, ap, Text, true, Option, none, some, List, [], ◌∷◌, ◌++◌, map, arith, All,
  All-imp, Result, ok, err, pos, and_then, pure, wrapping, Exec, ◌>>=◌,
}
use go_p2p_messenger.Event.{
  Bus, Payload, subscribe, receive, take_first, listens, subscribed, topic_new_message,
}
use go_p2p_messenger.Event.Delivery.{subscribe-listens}
use go_p2p_messenger.Storage.Database.{Engine, Db}
use go_p2p_messenger.State.{State, on_db}
use go_p2p_messenger.Api.Chat.{
  MessageDto, get_messages, list_conversations, conversations, message_dto,
}
use go_p2p_messenger.Storage.Messages.{get_messages_by_chat, get_conversations}
use go_p2p_messenger.Storage.Contacts
use go_p2p_messenger.Ui.ChatList.{ChatListViewModel}
use go_p2p_messenger.Ui.ChatList
use go_p2p_messenger.Ui.DirectChat.{DirectChatViewModel}
use go_p2p_messenger.Ui.DirectChat

abbrev pub Listening : Bus → List (ℕ × DirectChatViewModel) → Type 0
Listening b chats = All (λ x. listens b topic_new_message x.0 ≡ true) chats

-- Who listens goes on listening.
abbrev pub Grows : Bus → Bus → Type 0
Grows b b' =
    (ch : ℕ) → listens b topic_new_message ch ≡ true → listens b' topic_new_message ch ≡ true

pub Grows-of_subscribers : (b b' : Bus) → b'.subscribers ≡ b.subscribers → Grows b b'
Grows-of_subscribers b b' e ch h = ap (λ subs. subscribed topic_new_message ch subs) e ∙ h

pub subscribe-Grows : (topic : Text) (b : Bus) → Grows b (subscribe topic b).1
subscribe-Grows topic b ch h = ground (arith, h, (subscribe-listens topic topic_new_message b ch).1)

pub Listening-Grows :
    (b b' : Bus) (chats : List (ℕ × DirectChatViewModel))
    → Grows b b'
    → Listening b chats
    → Listening b' chats
Listening-Grows b b' chats g =
    All-imp (λ x. listens b topic_new_message x.0 ≡ true)
      (λ x. listens b' topic_new_message x.0 ≡ true) (λ x. g x.0) chats

pub other-Listening :
    (b : Bus) (before after : List (ℕ × DirectChatViewModel)) (ch : ℕ)
    (vm vm' : DirectChatViewModel)
    → Listening b (before ++ (ch, vm) ∷ after)
    → Listening b (before ++ (ch, vm') ∷ after)
other-Listening b [] after ch vm vm' h = h
other-Listening b (x ∷ before) after ch vm vm' h =
    (h.0, other-Listening b before after ch vm vm' h.1)

take_first-subscribers :
    (ch : ℕ) (b b' : Bus) (l : List Payload) (p : Payload)
    → take_first ch b l ≡ some (p, b')
    → b'.subscribers ≡ b.subscribers
unfolding take_first
take_first-subscribers ch b b' [] p e = ground (arith, e)
take_first-subscribers ch b b' (x ∷ l) p e =
    ap (λ (o : Option (Payload × Bus)). elim o [ none ↦ b.subscribers | some q ↦ q.1.subscribers ])
      (sym e)

pub receive-subscribers :
    (ch : ℕ) (b b' : Bus) (p : Payload)
    → receive ch b ≡ some (p, b')
    → b'.subscribers ≡ b.subscribers
unfolding receive
receive-subscribers ch b b' p e = take_first-subscribers ch b b' (b.buffer ch) p e

shown-peer :
    (r : Result (List MessageDto)) (vm : DirectChatViewModel)
    → (DirectChat.show_messages r vm).peer_id ≡ vm.peer_id
unfolding DirectChat.show_messages
shown-peer (ok msgs) vm = refl
shown-peer (err e) vm = refl

module _ {T A B : Type 0} (f : A → Exec (State T) B)
    (keeps : (a : A) (s : State T) → (f a s).1.bus ≡ s.bus) where
  then-bus : (r : Result A) (s : State T) → (and_then f r s).1.bus ≡ s.bus
  then-bus (ok a) s = keeps a s
  then-bus (err e) s = refl

  -- A chain that begins with a query.
  query-bus : (m : Exec Db A) (s : State T) → ((on_db m >>= f) s).1.bus ≡ s.bus
  query-bus m s = let (r, db) = m s.db in then-bus r (record s { db = db })

module _ {T : Type 0} (engine : Engine) where
  pub load-bus :
      (x : DirectChatViewModel × State T) → (DirectChat.load_messages engine x).1.bus ≡ x.1.bus
  unfolding DirectChat.load_messages get_messages
  load-bus (vm, s) =
      query-bus (λ msgs. pure (map message_dto msgs)) (λ msgs s. refl)
        (get_messages_by_chat engine vm.peer_id (pos 50)) s

  pub refresh-bus : (x : ChatListViewModel × State T) → (ChatList.refresh engine x).1.bus ≡ x.1.bus
  unfolding ChatList.refresh list_conversations
  refresh-bus (vm, s) =
      query-bus
        (λ contacts. on_db (wrapping "get summaries" (get_conversations engine)) >>= λ summaries.
          pure (conversations contacts summaries))
        (λ contacts.
          query-bus (λ summaries. pure (conversations contacts summaries)) (λ summaries s. refl)
            (wrapping "get summaries" (get_conversations engine)))
        (wrapping "get contacts" (Contacts.get_contacts engine)) s

  pub load-peer :
      (x : DirectChatViewModel × State T)
      → (DirectChat.load_messages engine x).0.peer_id ≡ x.0.peer_id
  unfolding DirectChat.load_messages DirectChat.show_messages
  load-peer (vm, s) = shown-peer (get_messages engine vm.peer_id (pos 0) (pos 50) s).0 vm

  pub react-bus :
      (source : ChatList.Source) (p : Payload) (x : ChatListViewModel × State T)
      → (ChatList.react engine source p x).1.bus ≡ x.1.bus
  unfolding ChatList.react
  react-bus ChatList.new_message p (vm, s) = refresh-bus (vm, s)
  react-bus ChatList.new_contact p (vm, s) = refresh-bus (vm, s)
  react-bus ChatList.node_reachability p (vm, s) = refl
