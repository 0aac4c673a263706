-- ===== src/Ui/ChatList.antt =====
-- internal/ui/viewmodel/chat_list_vm.go: `ChatListViewModel`.
pub mod Status
use go_p2p_messenger.Base.{Text, codes, List, [], ◌∷◌, Result, ok, err, Exec, ℕ}
use go_p2p_messenger.Event.{
  Bus, Payload, subscribe, topic_new_message, topic_new_contact, topic_node_reachability,
}
use go_p2p_messenger.Event
use go_p2p_messenger.Storage.Database.{Engine}
use go_p2p_messenger.State.{State}
use go_p2p_messenger.Api.Chat.{ConversationDto, list_conversations}

pub record ChatListViewModel : Type 0 where
  pub conversations : List ConversationDto
  pub node_status : Text

-- `NewChatListViewModel`
unfoldable pub new_view_model : ChatListViewModel
new_view_model = record { conversations = []; node_status = codes "Offline" }

-- The channels of `Watch`, in the order of its `select`.
pub data Source : Type 0 where
  new_message : Source
  new_contact : Source
  node_reachability : Source

-- `Watch`, up to its goroutine: the three channels.
unfoldable pub watch : Bus → (ℕ × ℕ × ℕ) × Bus
watch b =
    let (messages, b₁) = subscribe topic_new_message b in
    let (contacts, b₂) = subscribe topic_new_contact b₁ in
    let (reach, b₃) = subscribe topic_node_reachability b₂ in ((messages, contacts, reach), b₃)

-- `if status, ok := ev.(string); ok { … }`
unfoldable pub set_status : Payload → ChatListViewModel → ChatListViewModel
set_status (Event.string status) vm = record vm { node_status = status }
set_status (Event.message m) vm = vm
set_status (Event.sync m) vm = vm
set_status (Event.reachability r) vm = vm

-- After `vm.chatSvc.ListConversations(ctx)`: an error leaves the list as it is.
unfoldable pub show_list : Result (List ConversationDto) → ChatListViewModel → ChatListViewModel
show_list (ok convs) vm = record vm { conversations = convs }
show_list (err e) vm = vm

module _ {T : Type 0} (engine : Engine) where
  unfoldable pub refresh : ChatListViewModel × State T → ChatListViewModel × State T
  unfolding show_list
  refresh (vm, s) = let (r, s') = list_conversations engine s in (show_list r vm, s')

  -- A round of the `select` that has received a value.
  unfoldable pub react :
      Source → Payload → ChatListViewModel × State T → ChatListViewModel × State T
  unfolding refresh set_status
  react new_message p (vm, s) = refresh (vm, s)
  react new_contact p (vm, s) = refresh (vm, s)
  react node_reachability p (vm, s) = (set_status p vm, s)

  unfoldable pub react_all :
      List (Source × Payload) → ChatListViewModel × State T → ChatListViewModel × State T
  unfolding react
  react_all [] x = x
  react_all ((source, p) ∷ rest) x = react_all rest (react source p x)
