-- ===== src/Program.antt =====
-- cmd/aether/main.go: how the program wires its parts together and moves between its screens.
pub mod Screens
pub mod Listening
pub mod Start
use go_p2p_messenger.Base.{
  ℕ, Text, Bytes, Bool, true, false, Option, none, some, List, [], ◌∷◌, ◌++◌, length, Result, ok,
  err, Exec,
}
use go_p2p_messenger.Event.{Bus}
use go_p2p_messenger.Storage.Database.{Engine}
use go_p2p_messenger.State.{State}
use go_p2p_messenger.Ui.ChatList.{ChatListViewModel}
use go_p2p_messenger.Ui.ChatList
use go_p2p_messenger.Ui.DirectChat.{DirectChatViewModel}
use go_p2p_messenger.Ui.DirectChat
use go_p2p_messenger.Ui.Navigator.{
  AppNavigator, new_app_navigator, set_default_detail, set_detail, set_master, set_content,
  set_split,
}

-- What the program puts into the window: the welcome label, the chat list and the chat of a view model, by
-- the number of the view model, and the identity screen.
pub data View : Type 0 where
  welcome : View
  chat_list : ℕ → View
  direct_chat : ℕ → View
  identity : View

-- The view models with the channels of their `Watch`, in the order of their making. Their goroutines run
-- as long as the program, since its context is never done.
pub record App (T : Type 0) : Type 0 where
  pub nav : AppNavigator View
  pub current_chat_id : Text
  pub state : State T
  pub lists : List ((ℕ × ℕ × ℕ) × ChatListViewModel)
  pub chats : List (ℕ × DirectChatViewModel)

module _ {T : Type 0} where
  -- Before the first screen is shown.
  unfoldable pub new_app : State T → App T
  unfolding new_app_navigator
  new_app s = record {
    nav = new_app_navigator welcome;
    current_chat_id = [];
    state = s;
    lists = [];
    chats = [];
  }

  module _ (engine : Engine) where
    unfoldable pub show_main_chat : App T → App T
    unfolding ChatList.new_view_model ChatList.refresh ChatList.watch set_master set_default_detail
        set_split
    show_main_chat a =
        let (vm, s) = ChatList.refresh engine (ChatList.new_view_model, a.state) in
        let (channels, bus) = ChatList.watch s.bus in
        record a {
          state = record s { bus = bus };
          lists = a.lists ++ (channels, vm) ∷ [];
          nav =
              set_split
                (set_default_detail welcome (set_master (chat_list (length a.lists)) a.nav));
        }

    unfoldable pub show_direct_chat : Text → App T → App T
    unfolding DirectChat.new_view_model DirectChat.load_messages DirectChat.watch set_detail
    show_direct_chat peer a =
        let (vm, s) = DirectChat.load_messages engine (DirectChat.new_view_model peer, a.state) in
        let (channel, bus) = DirectChat.watch s.bus in
        record a {
          current_chat_id = peer;
          state = record s { bus = bus };
          chats = a.chats ++ (channel, vm) ∷ [];
          nav = set_detail welcome (some (direct_chat (length a.chats))) a.nav;
        }

    -- The function that `NewDirectChatScreen` gets for its back button.
    unfoldable pub back : App T → App T
    unfolding set_detail
    back a = record a { nav = set_detail welcome none a.nav }

    -- `Initial screen logic`, from what `idMgr.HasKey()` says.
    unfoldable pub show_initial : Bool → App T → App T
    unfolding show_main_chat set_content
    show_initial true a = show_main_chat a
    show_initial false a = record a { nav = set_content identity a.nav }

-- The handler that `main` gives to `tPort.Subscribe`: an error is only printed.
unfoldable pub on_payload :
    {T : Type 0} → (Text → Bytes → Exec (State T) (Unit {0})) → Text → Bytes → State T → State T
on_payload process sender payload s = (process sender payload s).1

-- The handler that `main` gives to `StartMDNS`; `connect` is the host's `Connect`, of which an error is only
-- printed.
unfoldable pub on_peer_found : {T : Type 0} → (Text → Exec T (Unit {0})) → Text → T → T
on_peer_found connect peer t = (connect peer t).1
