-- ===== src/Program/Screens.antt =====
-- cmd/aether/main.go: which screens the program can show, and the view models that listen behind them.
pub mod Shown
use go_p2p_messenger.Base.{
  ℕ, zero, suc, ◌≡◌, refl, sym, ◌∙◌, ap, subst, inl, inr, ◌⊎◌, Text, text_eq, Bool, true, false,
  Option, none, some, List, [], ◌∷◌, ◌++◌, map, length, length-append, map-append, arith, All,
  All-append, All-append_left, All-append_right, All-imp, Result, ok, err, ◌+◌, pos, and_then, pure,
  wrapping, Exec, ◌>>=◌,
}
use go_p2p_messenger.Event.{
  Bus, Payload, publish, subscribe, receive, take_first, listens, subscribed, topic_new_message,
  topic_new_contact, topic_node_reachability,
}
use go_p2p_messenger.Event.Delivery.{subscribe-listens}
use go_p2p_messenger.Storage.Database.{Engine, Db}
use go_p2p_messenger.State.{State, on_db}
use go_p2p_messenger.Api.Chat.{
  MessageDto, get_messages, list_conversations, conversations, message_dto,
}
use go_p2p_messenger.Storage.Messages.{get_messages_by_chat, get_conversations}
use go_p2p_messenger.Storage.Contacts
use go_p2p_messenger.Ui.ChatList.{ChatListViewModel}
use go_p2p_messenger.Ui.ChatList
use go_p2p_messenger.Ui.DirectChat.{DirectChatViewModel}
use go_p2p_messenger.Ui.DirectChat
use go_p2p_messenger.Ui.Navigator.{
  split, full, AppNavigator, set_master, set_default_detail, set_split, set_detail, set_content,
  fill_detail, new_app_navigator,
}
use go_p2p_messenger.Ui.Screens.{on_selected}
use go_p2p_messenger.Program.{
  View, welcome, chat_list, direct_chat, identity, App, new_app, show_main_chat, show_direct_chat,
  back, show_initial,
}

-- The channel of a case of the `select` in `ChatListViewModel.Watch`.
abbrev pub channel_of : ChatList.Source → ℕ × ℕ × ℕ → ℕ
channel_of ChatList.new_message channels = channels.0
channel_of ChatList.new_contact channels = channels.1
channel_of ChatList.node_reachability channels = channels.2

module _ {T : Type 0} where
  -- A view model of a chat after its goroutine has received a value.
  abbrev pub reloaded :
      Engine
      → List (ℕ × DirectChatViewModel)
      → ℕ
      → DirectChatViewModel
      → List (ℕ × DirectChatViewModel)
      → Payload
      → Bus
      → App T
      → App T
  reloaded engine before ch vm after p bus a =
      let (vm', s) = DirectChat.react engine p (vm, record a.state { bus = bus }) in
      record a { state = s; chats = before ++ (ch, vm') ∷ after }

  -- The view model of the chat list after its goroutine has received a value.
  abbrev pub refreshed :
      Engine → ℕ × ℕ × ℕ → ChatListViewModel → ChatList.Source → Payload → Bus → App T → App T
  refreshed engine channels vm source p bus a =
      let (vm', s) = ChatList.react engine source p (vm, record a.state { bus = bus }) in
      record a { state = s; lists = (channels, vm') ∷ [] }

  -- What happens once a screen is shown. The rest of the program publishes events and changes the database
  -- at any time.
  pub data Step (engine : Engine) : ℕ → App T → App T → Type 0 where
    enters : (a : App T) → a.nav.content ≡ full identity → Step engine 0 a (show_main_chat engine a)
    selects :
        (a : App T) (row : ℕ) (channels : ℕ × ℕ × ℕ) (vm : ChatListViewModel) (peer : Text)
        → a.nav.content ≡ split
        → a.lists ≡ (channels, vm) ∷ []
        → on_selected vm row ≡ some peer
        → Step engine 1 a (show_direct_chat engine peer a)
    backs : (a : App T) → a.nav.content ≡ split → Step engine 0 a (back engine a)
    reloads :
        (a : App T) (before after : List (ℕ × DirectChatViewModel)) (ch : ℕ)
        (vm : DirectChatViewModel) (p : Payload) (bus : Bus)
        → a.chats ≡ before ++ (ch, vm) ∷ after
        → receive ch a.state.bus ≡ some (p, bus)
        → Step engine 0 a (reloaded engine before ch vm after p bus a)
    refreshes :
        (a : App T) (channels : ℕ × ℕ × ℕ) (vm : ChatListViewModel) (source : ChatList.Source)
        (p : Payload) (bus : Bus)
        → a.lists ≡ (channels, vm) ∷ []
        → receive (channel_of source channels) a.state.bus ≡ some (p, bus)
        → Step engine 0 a (refreshed engine channels vm source p bus a)
    publishes :
        (a : App T) (topic : Text) (p : Payload)
        → Step engine 0 a
            (record a { state = record a.state { bus = publish topic p a.state.bus } })
    stores :
        (a : App T) (db : Db) → Step engine 0 a (record a { state = record a.state { db = db } })

  -- The states after `n` selections of a chat.
  pub data Reachable (engine : Engine) : ℕ → App T → Type 0 where
    starts :
        (known : Bool) (s : State T) → Reachable engine 0 (show_initial engine known (new_app s))
    steps :
        (n k : ℕ) (a a' : App T)
        → Reachable engine n a
        → Step engine k a a'
        → Reachable engine (k + n) a'
