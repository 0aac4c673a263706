-- ===== src/Tests/Screens.antt =====
-- The theorems on transports, on peer exchange and on what the screens show.
use go_p2p_messenger.Base.{
  ok, message, Text, Bytes, codes, text_eq, true, false, none, some, List, [], ◌∷◌, ◌⊎◌, ◌≡◌, refl,
}
use go_p2p_messenger.Event.{
  Bus, listens, subscribed, new_bus, publish, subscribe, topic_node_reachability,
}
use go_p2p_messenger.Event
use go_p2p_messenger.Storage.Database.{with_tables}
use go_p2p_messenger.State.{State}
use go_p2p_messenger.Transport.Reachability.{public}
use go_p2p_messenger.Transport.Libp2p.{Libp2pTransport, handle_incoming_stream}
use go_p2p_messenger.Transport.Libp2p
use go_p2p_messenger.Transport.Libp2p.Delivery.{IsTransmitted, handled, send-IsTransmitted}
use go_p2p_messenger.Transport.Pex.{AddrInfo, handle_stream}
use go_p2p_messenger.Transport.Pex.Laws.{IsExchange, handle_stream-IsExchange}
use go_p2p_messenger.Api.Node.{NodeService}
use go_p2p_messenger.Ui.ChatList.{new_message, node_reachability, new_view_model, react_all}
use go_p2p_messenger.Ui.ChatList.Status.{react_all-Offline}
use go_p2p_messenger.Tests.{toy, alice, in_order, two_messages}

abbrev addresses : Text → List Bytes
addresses p = p ∷ []

abbrev peers : List Text
peers = codes "a" ∷ codes "b" ∷ codes "a" ∷ []

handle_stream-IsExchange_example :
    ((text_eq (codes "b") (codes "b") ≡ false)
      × (handle_stream (text_eq (codes "b")) addresses peers (codes "b") ≡ none))
    ⊎ ((text_eq (codes "b") (codes "b") ≡ true)
        × ((told : List AddrInfo) × (handle_stream (text_eq (codes "b")) addresses peers (codes "b")
              ≡ some told)
            × IsExchange addresses (codes "b") peers told))
handle_stream-IsExchange_example =
    handle_stream-IsExchange addresses (codes "b") peers (text_eq (codes "b"))

-- The first call of the host works and the second fails.
abbrev flaky : Libp2pTransport (List Bytes)
flaky = record {
  handler = none;
  written = [];
  outcomes = none ∷ some (message "stream reset") ∷ [];
}

abbrev keep_payload : Text → Bytes → List Bytes → List Bytes
keep_payload sender payload s = payload ∷ s

send-IsTransmitted_example :
    IsTransmitted
      (codes "b")
      (codes "ENC:hi")
      flaky
      (Libp2p.send (codes "b") (codes "ENC:hi") flaky)
    × (handle_incoming_stream
          (Libp2p.subscribe keep_payload flaky)
          (codes "a")
          (ok (codes "ENC:hi"))
          []
        ≡ handled keep_payload (codes "a") (codes "ENC:hi") [])
send-IsTransmitted_example =
    send-IsTransmitted (codes "b") (codes "a") (codes "ENC:hi") flaky flaky keep_payload []

abbrev watched : Bus
watched = (subscribe topic_node_reachability new_bus).1

abbrev service : NodeService toy
service = record { ident = alice; reachability = public }

listening : listens watched topic_node_reachability 0 ≡ true
unfolding subscribe new_bus subscribed Event.channels Event.add_channel text_eq
listening = refl

waiting : watched.buffer 0 ≡ []
unfolding subscribe new_bus
waiting = refl

abbrev start : State (Unit {0})
start = record { db = with_tables two_messages; bus = new_bus; tp = tt }

react_all-Offline_example :
    (react_all in_order
      ((node_reachability, Event.reachability public) ∷ (new_message, Event.string []) ∷ [])
      (new_view_model, start)).0.node_status
    ≡ codes "Offline"
react_all-Offline_example =
    react_all-Offline in_order
      ((node_reachability, Event.reachability public) ∷ (new_message, Event.string []) ∷ []) start
      (tt, (tt, tt))
