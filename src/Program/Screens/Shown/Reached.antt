-- ===== src/Program/Screens/Shown/Reached.antt =====
-- cmd/aether/main.go: what the window shows in every state that the screens reach.
use go_p2p_messenger.Base.{
  ℕ, ◌≡◌, refl, sym, ◌∙◌, ap, subst, inl, inr, some, List, [], ◌∷◌, ◌++◌, map, length,
  length-append, map-append, arith, ◌+◌,
}
use go_p2p_messenger.Event.{Bus, Payload, publish, receive}
use go_p2p_messenger.Event.Invariant.{publish-subscribers}
use go_p2p_messenger.Storage.Database.{Engine}
use go_p2p_messenger.State.{State}
use go_p2p_messenger.Ui.ChatList.{ChatListViewModel}
use go_p2p_messenger.Ui.ChatList
use go_p2p_messenger.Ui.DirectChat.{DirectChatViewModel}
use go_p2p_messenger.Ui.DirectChat
use go_p2p_messenger.Program.{App, show_main_chat, show_direct_chat, back}
use go_p2p_messenger.Program.Listening.{
  Listening, Grows, Grows-of_subscribers, Listening-Grows, receive-subscribers, load-bus, load-peer,
  react-bus, other-Listening,
}
use go_p2p_messenger.Program.Screens.{
  Step, enters, selects, backs, reloads, refreshes, publishes, stores, Reachable, starts, steps,
  reloaded, refreshed, channel_of,
}
use go_p2p_messenger.Program.Screens.Shown.{
  peers, IsShown, main-IsShown, initial-IsShown, select-IsShown, back-IsShown,
}

module _ {T : Type 0} (engine : Engine) where
  -- A change of the bus by which every channel stays subscribed.
  bus-IsShown :
      (n : ℕ) (a : App T) (s : State T)
      → Grows a.state.bus s.bus
      → IsShown n a
      → IsShown n (record a { state = s })
  bus-IsShown n a s g i = record {
    content = i.content;
    detail = i.detail;
    selected = i.selected;
    listening = Listening-Grows a.state.bus s.bus a.chats g i.listening;
    single = i.single;
  }

  -- The chats with another view model of the same peer on the same channel.
  other_view :
      (before after : List (ℕ × DirectChatViewModel)) (ch : ℕ) (vm vm' : DirectChatViewModel)
      (a a' : App T)
      → a.chats ≡ before ++ (ch, vm) ∷ after
      → a'.chats ≡ before ++ (ch, vm') ∷ after
      → vm'.peer_id ≡ vm.peer_id
      → peers a' ≡ peers a
  other_view before after ch vm vm' a a' e e' p =
      ap (map (λ x. x.1.peer_id)) e'
      ∙ map-append (λ x. x.1.peer_id) before ((ch, vm') ∷ after)
      ∙ ap (λ q. map (λ x. x.1.peer_id) before ++ q ∷ map (λ x. x.1.peer_id) after) p
      ∙ sym (map-append (λ x. x.1.peer_id) before ((ch, vm) ∷ after))
      ∙ sym (ap (map (λ x. x.1.peer_id)) e)

  reload-IsShown :
      (n : ℕ) (a : App T) (before after : List (ℕ × DirectChatViewModel)) (ch : ℕ)
      (vm : DirectChatViewModel) (p : Payload) (bus : Bus)
      → a.chats ≡ before ++ (ch, vm) ∷ after
      → receive ch a.state.bus ≡ some (p, bus)
      → IsShown n a
      → IsShown n (reloaded engine before ch vm after p bus a)
  unfolding DirectChat.react
  reload-IsShown n a before after ch vm p bus e r i =
      let x : DirectChatViewModel × State T = (vm, record a.state { bus = bus }) in
      let (vm', s) = DirectChat.load_messages engine x in
      let a' = reloaded engine before ch vm after p bus a in
      let same = other_view before after ch vm vm' a a' e refl (load-peer engine x) in
      let kept : s.bus.subscribers ≡ a.state.bus.subscribers =
        ap (λ (b : Bus). b.subscribers) (load-bus engine x)
        ∙ receive-subscribers ch a.state.bus bus p r in
      record {
        content = i.content;
        detail = elim i.detail [ inl h ↦ inl h | inr (q, h, k) ↦ inr (q, same ∙ h, k) ];
        selected = omega (
          arith,
          i.selected,
          ap length e,
          length-append before ((ch, vm) ∷ after),
          length-append before ((ch, vm') ∷ after),
        );
        listening =
            Listening-Grows a.state.bus s.bus (before ++ (ch, vm') ∷ after)
              (Grows-of_subscribers a.state.bus s.bus kept)
              (other-Listening a.state.bus before after ch vm vm'
                (subst (Listening a.state.bus) e i.listening));
        single = i.single;
      }

  refresh-IsShown :
      (n : ℕ) (a : App T) (channels : ℕ × ℕ × ℕ) (vm : ChatListViewModel) (source : ChatList.Source)
      (p : Payload) (bus : Bus)
      → a.lists ≡ (channels, vm) ∷ []
      → receive (channel_of source channels) a.state.bus ≡ some (p, bus)
      → IsShown n a
      → IsShown n (refreshed engine channels vm source p bus a)
  refresh-IsShown n a channels vm source p bus e r i =
      let x : ChatListViewModel × State T = (vm, record a.state { bus = bus }) in
      let (vm', s) = ChatList.react engine source p x in
      let kept : s.bus.subscribers ≡ a.state.bus.subscribers =
        ap (λ (b : Bus). b.subscribers) (react-bus engine source p x)
        ∙ receive-subscribers (channel_of source channels) a.state.bus bus p r in
      record {
        content = i.content;
        detail = i.detail;
        selected = i.selected;
        listening =
            Listening-Grows a.state.bus s.bus a.chats (Grows-of_subscribers a.state.bus s.bus kept)
              i.listening;
        single = λ f. absurd (ground (arith, ap length (sym (i.single f) ∙ e)));
      }

  -- A step that is no selection.
  counted : (n : ℕ) (a : App T) → IsShown n a → IsShown (0 + n) a
  counted n a = subst (λ k. IsShown k a) (omega arith)

  Step-IsShown : (n k : ℕ) (a a' : App T) → Step engine k a a' → IsShown n a → IsShown (k + n) a'
  Step-IsShown n k x y (enters a e) i =
      counted n (show_main_chat engine a)
        (main-IsShown engine n a (i.single e) i.selected i.listening)
  Step-IsShown n k x y (selects a row channels vm peer e f g) i =
      subst (λ j. IsShown j (show_direct_chat engine peer a)) (omega arith)
        (select-IsShown engine n a peer e i)
  Step-IsShown n k x y (backs a e) i = counted n (back engine a) (back-IsShown engine n a i)
  Step-IsShown n k x y (reloads a before after ch vm p bus e r) i =
      counted n (reloaded engine before ch vm after p bus a)
        (reload-IsShown n a before after ch vm p bus e r i)
  Step-IsShown n k x y (refreshes a channels vm source p bus e r) i =
      counted n (refreshed engine channels vm source p bus a)
        (refresh-IsShown n a channels vm source p bus e r i)
  Step-IsShown n k x y (publishes a topic p) i =
      let s : State T = record a.state { bus = publish topic p a.state.bus } in
      counted n (record a { state = s })
        (bus-IsShown n a s
          (Grows-of_subscribers a.state.bus s.bus (publish-subscribers topic p a.state.bus)) i)
  Step-IsShown n k x y (stores a db) i =
      let s : State T = record a.state { db = db } in
      counted n (record a { state = s }) (bus-IsShown n a s (λ ch h. h) i)

  -- In every state that the program reaches by its screens, after `n` selections of a chat: the window
  -- shows the identity screen alone, or the chat list on the left; on the right stands the welcome label or
  -- the chat that was selected last; and there are `n` view models of chats, which all still listen for
  -- new messages.
  pub Reachable-IsShown : (n : ℕ) (a : App T) → Reachable engine n a → IsShown n a
  Reachable-IsShown n x (starts known s) = initial-IsShown engine known s
  Reachable-IsShown n x (steps m k a a' r s) = Step-IsShown m k a a' s (Reachable-IsShown m a r)
