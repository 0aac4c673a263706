-- ===== src/Ui/ChatList/Status.antt =====
-- internal/ui/viewmodel/chat_list_vm.go: the status that the list shows.
use go_p2p_messenger.Base.{◌≡◌, refl, ◌∙◌, codes, List, [], ◌∷◌, All, Result, ok, err}
use go_p2p_messenger.Event.{Payload}
use go_p2p_messenger.Event
use go_p2p_messenger.Storage.Database.{Engine}
use go_p2p_messenger.State.{State}
use go_p2p_messenger.Api.Chat.{ConversationDto, list_conversations}
use go_p2p_messenger.Ui.ChatList.{
  ChatListViewModel, new_view_model, Source, new_message, new_contact, node_reachability,
  set_status, show_list, refresh, react, react_all,
}

-- What `SetupAutoNAT`, the only publisher on the topic of reachability, sends there.
abbrev pub IsPublished : Source × Payload → Type 0
IsPublished (node_reachability, Event.reachability r) = Unit
IsPublished (node_reachability, Event.message m) = ⊥
IsPublished (node_reachability, Event.sync m) = ⊥
IsPublished (node_reachability, Event.string m) = ⊥
IsPublished (new_message, p) = Unit
IsPublished (new_contact, p) = Unit

show_list-status :
    (r : Result (List ConversationDto)) (vm : ChatListViewModel)
    → (show_list r vm).node_status ≡ vm.node_status
unfolding show_list
show_list-status (ok convs) vm = refl
show_list-status (err e) vm = refl

module _ {T : Type 0} (engine : Engine) where
  react-status :
      (source : Source) (p : Payload) (vm : ChatListViewModel) (s : State T)
      → IsPublished (source, p)
      → (react engine source p (vm, s)).0.node_status ≡ vm.node_status
  unfolding react refresh set_status
  react-status new_message p vm s h = show_list-status (list_conversations engine s).0 vm
  react-status new_contact p vm s h = show_list-status (list_conversations engine s).0 vm
  react-status node_reachability (Event.reachability r) vm s h = refl
  react-status node_reachability (Event.message m) vm s h = absurd h
  react-status node_reachability (Event.sync m) vm s h = absurd h
  react-status node_reachability (Event.string m) vm s h = absurd h

  react_all-status :
      (events : List (Source × Payload)) (vm : ChatListViewModel) (s : State T)
      → All IsPublished events
      → (react_all engine events (vm, s)).0.node_status ≡ vm.node_status
  unfolding react_all
  react_all-status [] vm s h = refl
  react_all-status ((source, p) ∷ rest) vm s h =
      let (vm', s') = react engine source p (vm, s) in
      react_all-status rest vm' s' h.1 ∙ react-status source p vm s h.0

  -- Whatever events arrive, as long as those on the topic of reachability are the values that
  -- `SetupAutoNAT` publishes: a new list goes on showing the status `Offline`.
  pub react_all-Offline :
      (events : List (Source × Payload)) (s : State T)
      → All IsPublished events
      → (react_all engine events (new_view_model, s)).0.node_status ≡ codes "Offline"
  unfolding new_view_model
  react_all-Offline events s h = react_all-status events new_view_model s h
