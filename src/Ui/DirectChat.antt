-- ===== src/Ui/DirectChat.antt =====
-- internal/ui/viewmodel/direct_chat_vm.go: `DirectChatViewModel`.
use go_p2p_messenger.Base.{Text, ℕ, pos, List, [], Result, ok, err}
use go_p2p_messenger.Event.{Bus, Payload, subscribe, topic_new_message}
use go_p2p_messenger.Storage.Database.{Engine}
use go_p2p_messenger.State.{State}
use go_p2p_messenger.Api.Chat.{MessageDto, get_messages}

pub record DirectChatViewModel : Type 0 where
  pub peer_id : Text
  pub messages : List MessageDto

-- `NewDirectChatViewModel`
unfoldable pub new_view_model : Text → DirectChatViewModel
new_view_model peer = record { peer_id = peer; messages = [] }

unfoldable pub show_messages : Result (List MessageDto) → DirectChatViewModel → DirectChatViewModel
show_messages (ok msgs) vm = record vm { messages = msgs }
show_messages (err e) vm = vm

-- `Watch`, up to its goroutine.
unfoldable pub watch : Bus → ℕ × Bus
watch b = subscribe topic_new_message b

module _ {T : Type 0} (engine : Engine) where
  unfoldable pub load_messages : DirectChatViewModel × State T → DirectChatViewModel × State T
  unfolding show_messages
  load_messages (vm, s) =
      let (r, s') = get_messages engine vm.peer_id (pos 0) (pos 50) s in (show_messages r vm, s')

  -- A round of the `select` that has received a value, of which it makes no use.
  unfoldable pub react : Payload → DirectChatViewModel × State T → DirectChatViewModel × State T
  unfolding load_messages
  react p x = load_messages x
