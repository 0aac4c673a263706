-- ===== src/Program/Screens/Shown.antt =====
-- cmd/aether/main.go: what the window shows in every state.
pub mod Reached
use go_p2p_messenger.Base.{
  ℕ, suc, ◌≡◌, refl, sym, ◌∙◌, ap, subst, inl, inr, ◌⊎◌, Text, Bool, true, false, some, List, [],
  ◌∷◌, ◌++◌, map, length, length-append, map-append, length-map, text_eq_refl, arith, All-append,
  ◌+◌,
}
use go_p2p_messenger.Event.{
  Bus, Payload, publish, subscribe, receive, listens, topic_new_message, topic_new_contact,
  topic_node_reachability,
}
use go_p2p_messenger.Event.Invariant.{publish-subscribers}
use go_p2p_messenger.Event.Delivery.{subscribe-listens}
use go_p2p_messenger.Storage.Database.{Engine}
use go_p2p_messenger.State.{State}
use go_p2p_messenger.Api.Chat.{get_messages}
use go_p2p_messenger.Ui.ChatList.{ChatListViewModel}
use go_p2p_messenger.Ui.ChatList
use go_p2p_messenger.Ui.DirectChat.{DirectChatViewModel}
use go_p2p_messenger.Ui.DirectChat
use go_p2p_messenger.Ui.Navigator.{
  split, full, set_master, set_default_detail, set_split, set_detail, set_content, fill_detail,
  new_app_navigator,
}
use go_p2p_messenger.Program.{
  welcome, chat_list, direct_chat, identity, App, new_app, show_main_chat, show_direct_chat, back,
  show_initial,
}
use go_p2p_messenger.Program.Listening.{
  Listening, Grows, Grows-of_subscribers, subscribe-Grows, Listening-Grows, receive-subscribers,
  load-bus, load-peer, refresh-bus, react-bus, other-Listening,
}
use go_p2p_messenger.Program.Screens.{
  Step, enters, selects, backs, reloads, refreshes, publishes, stores, Reachable, starts, steps,
  reloaded, refreshed, channel_of,
}

module _ {T : Type 0} where
  abbrev pub peers : App T → List Text
  peers a = map (λ x. x.1.peer_id) a.chats

  -- The right pane: the welcome label, or the chat that was selected last.
  abbrev pub IsDetail : App T → Type 0
  IsDetail a =
      (a.nav.detail ≡ welcome ∷ [])
      ⊎ ((before : List Text) × (peers a ≡ before ++ a.current_chat_id ∷ [])
          × (a.nav.detail ≡ direct_chat (length before) ∷ []))

  -- What the window shows, and what listens, after `n` selections.
  pub record IsShown (n : ℕ) (a : App T) : Type 0 where
    pub content :
        (a.nav.content ≡ full identity)
        ⊎ ((a.nav.content ≡ split) × (a.nav.master ≡ chat_list 0 ∷ []))
    pub detail : IsDetail a
    pub selected : length a.chats ≡ n
    pub listening : Listening a.state.bus a.chats
    pub single : (a.nav.content ≡ full identity) → a.lists ≡ []

watch-Grows : (b : Bus) → Grows b (ChatList.watch b).1
unfolding ChatList.watch
watch-Grows b ch h =
    let b₁ = (subscribe topic_new_message b).1 in
    let b₂ = (subscribe topic_new_contact b₁).1 in
    subscribe-Grows topic_node_reachability b₂ ch
      (subscribe-Grows topic_new_contact b₁ ch (subscribe-Grows topic_new_message b ch h))

new-listens : (b : Bus) → listens (subscribe topic_new_message b).1 topic_new_message b.next ≡ true
new-listens b = ground (
  arith,
  (subscribe-listens topic_new_message topic_new_message b b.next).1,
  (subscribe-listens topic_new_message topic_new_message b b.next).0,
  text_eq_refl topic_new_message,
)

module _ {T : Type 0} (engine : Engine) where
  pub main-IsShown :
      (n : ℕ) (a : App T)
      → a.lists ≡ []
      → length a.chats ≡ n
      → Listening a.state.bus a.chats
      → IsShown n (show_main_chat engine a)
  unfolding show_main_chat set_master set_default_detail set_split fill_detail
  main-IsShown n a e h l =
      let (vm, s) = ChatList.refresh engine (ChatList.new_view_model, a.state) in
      record {
        content = inr (refl, ap (λ k. chat_list (length k) ∷ []) e);
        detail = inl refl;
        selected = h;
        listening = Listening-Grows s.bus (ChatList.watch s.bus).1 a.chats (watch-Grows s.bus) (
            subst (λ b. Listening b a.chats)
              (sym (refresh-bus engine (ChatList.new_view_model, a.state))) l);
        single = λ f. absurd (ground (arith, f));
      }

  pub initial-IsShown :
      (known : Bool) (s : State T) → IsShown 0 (show_initial engine known (new_app s))
  unfolding show_initial new_app new_app_navigator set_content set_default_detail fill_detail
  initial-IsShown true s = main-IsShown 0 (new_app s) refl refl tt
  initial-IsShown false s = record {
    content = inl refl;
    detail = inl refl;
    selected = refl;
    listening = tt;
    single = λ f. refl;
  }

  not_identity : (a : App T) → a.nav.content ≡ split → (a.nav.content ≡ full identity) → ⊥
  not_identity a e f = ground (arith, e, f)

  pub select-IsShown :
      (n : ℕ) (a : App T) (peer : Text)
      → a.nav.content ≡ split
      → IsShown n a
      → IsShown (suc n) (show_direct_chat engine peer a)
  unfolding show_direct_chat set_detail fill_detail DirectChat.watch subscribe get_messages
  select-IsShown n a peer e i =
      let (vm, s) = DirectChat.load_messages engine (DirectChat.new_view_model peer, a.state) in
      let same = load-bus engine (DirectChat.new_view_model peer, a.state) in
      record {
        content = i.content;
        detail = inr (
          peers a,
          map-append (λ x. x.1.peer_id) a.chats ((s.bus.next, vm) ∷ [])
              ∙ ap (λ p. peers a ++ p ∷ [])
                  (load-peer engine (DirectChat.new_view_model peer, a.state)),
          ap (λ k. direct_chat k ∷ []) (sym (length-map (λ x. x.1.peer_id) a.chats)),
        );
        selected = omega (arith, length-append a.chats ((s.bus.next, vm) ∷ []), i.selected);
        listening =
            All-append
              (λ x. listens (subscribe topic_new_message s.bus).1 topic_new_message x.0 ≡ true)
              a.chats ((s.bus.next, vm) ∷ [])
              (Listening-Grows s.bus (subscribe topic_new_message s.bus).1 a.chats
                (subscribe-Grows topic_new_message s.bus)
                (subst (λ b. Listening b a.chats) (sym same) i.listening))
              (new-listens s.bus, tt);
        single = λ f. absurd (not_identity a e f);
      }

  pub back-IsShown : (n : ℕ) (a : App T) → IsShown n a → IsShown n (back engine a)
  unfolding back set_detail set_default_detail fill_detail
  back-IsShown n a i = record {
    content = i.content;
    detail = inl refl;
    selected = i.selected;
    listening = i.listening;
    single = i.single;
  }
