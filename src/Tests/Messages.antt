-- ===== src/Tests/Messages.antt =====
-- The theorems on internal/logic and internal/api at concrete messages.
use go_p2p_messenger.Base.{
  pos, Text, Bytes, codes, decimal, false, [], ◌∷◌, ◌++◌, inl, All, AllPairs, ◌≡◌, ◌≢◌, refl, arith,
  Result, ok,
}
use go_p2p_messenger.Event.{new_bus, publish, topic_new_message}
use go_p2p_messenger.Event
use go_p2p_messenger.Storage.{ConversationSummary}
use go_p2p_messenger.Storage.Database.{with_tables, write_transaction, exec}
use go_p2p_messenger.Storage.Messages.{row_of, chat_message_of, save}
use go_p2p_messenger.State.{State, faultless}
use go_p2p_messenger.Transport.Mock.{MockTransport, mock_transport, new_mock}
use go_p2p_messenger.Logic.{
  enc_prefix, seal_message, process_incoming, incoming_message, incoming_event,
}
use go_p2p_messenger.Storage.{Tables}
use go_p2p_messenger.Storage.Messages.Save.{IsStored}
use go_p2p_messenger.Logic.Incoming.{
  arrived_row, arrived_event, IsProcessed, process_incoming-IsProcessed, process_incoming_drops,
}
use go_p2p_messenger.Api.Chat.{
  add_contact, outgoing_message, sent_dto, message_dto, conversations, send_message,
}
use go_p2p_messenger.Storage.Contacts
use go_p2p_messenger.Storage.Contacts.Laws
use go_p2p_messenger.Api.Chat.Adding.{IsContactAdded, add_contact-IsContactAdded}
use go_p2p_messenger.Api.Chat.Sending.{IsSent, send_message-IsSent, send_message-process_incoming}
use go_p2p_messenger.Api.Chat.Listing.{IsListing, conversations-IsListing}
use go_p2p_messenger.Api.Chat.History.{sent_message-shown}
use go_p2p_messenger.Tests.{two_contacts, bob, second_row, two_messages, carol, dave, failing}

abbrev hi : Text
hi = codes "hi"

abbrev fresh : State (MockTransport (Unit {0}))
fresh = record { db = with_tables two_messages; bus = new_bus; tp = new_mock }

abbrev signed : Bytes → Result Bytes
signed content = ok (1 ∷ content)

two_peers : AllPairs (λ a b. a.peer_id ≢ b.peer_id) (carol ∷ dave ∷ [])
two_peers = (((λ e. ground arith), tt), (tt, tt))

sealing : seal_message (ok tt) signed hi ≡ ok (codes "ENC:hi", 1 ∷ codes "ENC:hi")
unfolding seal_message
sealing = refl

process_incoming-IsProcessed_example :
    IsProcessed bob
      (codes "ENC:hi")
      9
      (pos 40)
      (record fresh { db = failing two_messages })
      (process_incoming bob
        (codes "ENC:hi")
        9
        (pos 40)
        (record fresh { db = failing two_messages }))
process_incoming-IsProcessed_example =
    process_incoming-IsProcessed bob (codes "ENC:hi") 9 (pos 40)
      (record fresh { db = failing two_messages })

new_id : All (λ r. r.id ≢ codes "in_" ++ decimal 9) two_messages.messages
unfolding decimal
new_id = ((λ e. ground arith), ((λ e. ground arith), tt))

same_id : codes "in_2" ≡ codes "in_" ++ decimal 2
unfolding decimal
same_id = refl

process_incoming_drops_example :
    process_incoming bob (enc_prefix ++ hi) 2 (pos 40) (faultless fresh) ≡ (
      ok tt,
      record (faultless fresh) {
        bus =
            publish topic_new_message
              (Event.message (incoming_event (incoming_message bob hi 2 (pos 40))))
              new_bus;
      },
    )
process_incoming_drops_example =
    process_incoming_drops bob hi 2 (pos 40) fresh second_row (inl refl) same_id

send_message-IsSent_example :
    IsSent mock_transport
      (codes "b")
      bob
      hi
      9
      (pos 40)
      fresh
      (send_message mock_transport (codes "b") bob hi 9 (pos 40) (ok tt) signed fresh)
send_message-IsSent_example =
    send_message-IsSent mock_transport (codes "b") bob hi 9 (pos 40) (ok tt) signed fresh

sent :
    (send_message mock_transport (codes "b") bob hi 9 (pos 40) (ok tt) signed fresh).0
    ≡ ok (sent_dto (outgoing_message bob (codes "ENC:hi") (1 ∷ codes "ENC:hi") 9 (pos 40)) hi)
unfolding send_message save write_transaction exec
sent = refl

send_message-process_incoming_example :
    (sealed : Bytes) × ((send_message mock_transport
        (codes "b")
        bob
        hi
        9
        (pos 40)
        (ok tt)
        signed
        fresh).1.tp.sent_messages
      ≡ [] ++ record { to = codes "b"; payload = sealed } ∷ [])
    × ((t : Tables) × IsStored (arrived_row (codes "alice") hi 11 (pos 41)) two_messages t
        × (process_incoming (codes "alice") sealed 11 (pos 41) (faultless fresh) ≡ (
          ok tt,
          record (faultless fresh) {
            db = with_tables t;
            bus =
                publish topic_new_message
                  (Event.message (arrived_event (codes "alice") hi 11 (pos 41)))
                  new_bus;
          },
        )))
unfolding new_mock
send_message-process_incoming_example =
    send_message-process_incoming (codes "b") bob hi 9 (pos 40) (codes "alice") 11 (pos 41) (ok tt)
      signed fresh fresh
      (sent_dto (outgoing_message bob (codes "ENC:hi") (1 ∷ codes "ENC:hi") 9 (pos 40)) hi) sent

abbrev summary : ConversationSummary
summary = record {
  conversation_id = bob;
  last_content = codes "ENC:hi";
  last_sent_at = pos 10;
  unread_count = 2;
}

conversations-IsListing_example :
    IsListing (carol ∷ dave ∷ []) (summary ∷ []) (conversations (carol ∷ dave ∷ []) (summary ∷ []))
conversations-IsListing_example =
    conversations-IsListing (carol ∷ dave ∷ []) (summary ∷ []) two_peers

sent_message-shown_example :
    message_dto (
      chat_message_of
        (row_of (outgoing_message bob (codes "ENC:hi") (1 ∷ codes "ENC:hi") 9 (pos 40))))
    ≡ record (sent_dto (outgoing_message bob (codes "ENC:hi") (1 ∷ codes "ENC:hi") 9 (pos 40)) hi) {
      is_own = false;
    }
sent_message-shown_example =
    sent_message-shown bob hi (codes "ENC:hi") (1 ∷ codes "ENC:hi") 9 (pos 40) (ok tt) signed
      sealing

contacts-IsKeyed : Laws.IsKeyed two_contacts.contacts
unfolding Contacts.row_of
contacts-IsKeyed = (((λ e. ground arith), tt), (tt, tt))

-- The driver fails at the second call.
abbrev unlucky : State (MockTransport (Unit {0}))
unlucky = record fresh { db = failing two_contacts }

add_contact-IsContactAdded_example :
    IsContactAdded mock_transport
      (λ id. id)
      (pos 8)
      (ok (codes "carol"))
      unlucky
      (add_contact mock_transport (λ id. id) (ok (codes "carol")) (pos 8) unlucky)
add_contact-IsContactAdded_example =
    add_contact-IsContactAdded mock_transport (λ id. id) (pos 8) (ok (codes "carol")) unlucky
      contacts-IsKeyed
