-- ===== src/Api/Chat/Sending.antt =====
-- internal/api/chat.go: what `SendMessage` leaves behind, and what its recipient makes of it.
use go_p2p_messenger.Base.{
  ◌≡◌, refl, sym, ap, subst, none, some, true, false, codes, decimal, ℕ, ℤ, Text, Bytes, [], ◌∷◌,
  ◌++◌, arith, Result, ok, err,
}
use go_p2p_messenger.Event.{topic_new_message, publish}
use go_p2p_messenger.Event
use go_p2p_messenger.Storage.{MessageRow, Tables, bytes_of}
use go_p2p_messenger.Storage.Database.{Db, with_tables}
use go_p2p_messenger.Storage.Database.Atomicity.{Changes}
use go_p2p_messenger.Storage.Messages.{save, row_of, is_null}
use go_p2p_messenger.Storage.Messages.Save.{IsStored, inserted-IsStored, saved, save-Changes}
use go_p2p_messenger.State.{State, faultless}
use go_p2p_messenger.Transport.{MessageTransport}
use go_p2p_messenger.Transport.Mock.{MockTransport, mock_transport, simulate_incoming}
use go_p2p_messenger.Transport.Mock
use go_p2p_messenger.Logic.{enc_prefix, decrypt, seal_message, process_incoming, incoming_message}
use go_p2p_messenger.Logic.Envelope.{decrypt_iff, seal_message-opens}
use go_p2p_messenger.Logic.Incoming.{
  incoming_run, incoming-IsStored, incoming-arrived_event, arrived_row, arrived_event,
}
use go_p2p_messenger.Api.Chat.{
  MessageDto, outgoing_message, sent_dto, sent_event, deliver, after_save, send_sealed,
  send_message,
}

-- The row, the answer and the event of a message that is sent, by the columns and fields.
abbrev pub sent_row : Text → Bytes → Bytes → ℕ → ℤ → MessageRow
sent_row conversation sealed sig nano now = record {
  id = codes "msg_" ++ decimal nano;
  conversation_id = conversation;
  sender_id = codes "self";
  content = some sealed;
  global_seq = none;
  sender_signature = sig;
  sent_at = now;
  is_incoming = false;
  status = [];
  chat_id = conversation;
  timestamp = now;
  delivered_at = none;
  read_at = none;
}

abbrev pub sent_answer : Text → Text → ℕ → ℤ → MessageDto
sent_answer conversation content nano now = record {
  id = codes "msg_" ++ decimal nano;
  conversation_id = conversation;
  sender_id = codes "self";
  content = content;
  sent_at = now;
  is_own = true;
  status = codes "sent";
}

abbrev pub sent_announcement : Text → Text → ℕ → ℤ → Event.MessageEvent
sent_announcement conversation content nano now = record {
  id = codes "msg_" ++ decimal nano;
  chat_id = conversation;
  sender_id = codes "self";
  text = content;
  timestamp = now;
  is_incoming = false;
  status = codes "sent";
}

outgoing-IsStored :
    (conversation : Text) (sealed sig : Bytes) (nano : ℕ) (now : ℤ) (t : Tables)
    → IsStored
        (sent_row conversation sealed sig nano now)
        t
        (saved (outgoing_message conversation sealed sig nano now) t)
unfolding row_of outgoing_message is_null
outgoing-IsStored conversation sealed sig nano now t =
    inserted-IsStored (sent_row conversation sealed sig nano now) t refl refl

module _ {T : Type 0} (transport : MessageTransport T) (recipient conversation content : Text)
    (nano : ℕ) (now : ℤ) where
  -- How a call of `SendMessage` may end: with an error, and nothing stored, sent or announced; or with a
  -- row of the sealed bytes, unless its id was taken, those bytes handed to the transport, whatever that
  -- returns, and the content announced and returned.
  abbrev pub IsSent : State T → Result MessageDto × State T → Type 0
  IsSent s (err e, s') = (s'.db.tables ≡ s.db.tables) × (s'.bus ≡ s.bus) × (s'.tp ≡ s.tp)
  IsSent s (ok dto, s') =
      (sealed : Bytes) × (sig : Bytes) × (sealed ≡ codes "ENC:" ++ content)
      × (dto ≡ sent_answer conversation content nano now)
      × IsStored (sent_row conversation sealed sig nano now) s.db.tables s'.db.tables
      × (s'.tp ≡ (transport.send recipient sealed s.tp).1)
      × (s'.bus
          ≡ publish topic_new_message
              (Event.message (sent_announcement conversation content nano now)) s.bus)

  after_save-IsSent :
      (s : State T) (sealed sig : Bytes) (r : Result (Unit {0})) (db : Db)
      → decrypt sealed ≡ ok content
      → Changes (saved (outgoing_message conversation sealed sig nano now)) s.db.tables (r, db)
      → IsSent s (
          after_save transport recipient content
            (outgoing_message conversation sealed sig nano now)
            r
            (record s { db = db }))
  unfolding after_save deliver outgoing_message sent_dto sent_event bytes_of
  after_save-IsSent s sealed sig (err e) db d c = (c, refl, refl)
  after_save-IsSent s sealed sig (ok u) db d c = (
    sealed,
    sig,
    (decrypt_iff sealed content).0 d,
    refl,
    subst (IsStored (sent_row conversation sealed sig nano now) s.db.tables) (sym c)
        (outgoing-IsStored conversation sealed sig nano now s.db.tables),
    refl,
    refl,
  )

  send_sealed-IsSent :
      (s : State T) (sealing : Result (Bytes × Bytes))
      → ((sealed sig : Bytes) → sealing ≡ ok (sealed, sig) → decrypt sealed ≡ ok content)
      → IsSent s (send_sealed transport recipient conversation content nano now sealing s)
  unfolding send_sealed
  send_sealed-IsSent s (err e) h = (refl, refl, refl)
  send_sealed-IsSent s (ok (sealed, sig)) h =
      let m = outgoing_message conversation sealed sig nano now in
      after_save-IsSent s sealed sig (save m s.db).0 (save m s.db).1 (h sealed sig refl)
        (save-Changes m s.db)

  -- Whatever fails, a call of `SendMessage` ends with an error and nothing stored, sent or announced; or
  -- a row with the content behind `ENC:`, of the conversation, is now at the end of the messages, or these
  -- are as before and one of them has its id; the same sealed bytes are handed to the transport once; and
  -- the content is returned, and announced once for the conversation, also where the transport fails.
  pub send_message-IsSent :
      (key_pair : Result (Unit {0})) (sign : Bytes → Result Bytes) (s : State T)
      → IsSent s (send_message transport recipient conversation content nano now key_pair sign s)
  unfolding send_message
  send_message-IsSent key_pair sign s =
      send_sealed-IsSent s (seal_message key_pair sign content)
        (λ sealed sig e. (seal_message-opens key_pair sign content sealed sig e).0)

module _ {S : Type 0} (recipient conversation content : Text) (nano : ℕ) (now : ℤ) where
  sealed_of_IsSent :
      (s : State (MockTransport S)) (r : Result MessageDto) (s' : State (MockTransport S))
      (dto : MessageDto)
      → IsSent mock_transport recipient conversation content nano now s (r, s')
      → r ≡ ok dto
      → (sealed : Bytes) × (sealed ≡ enc_prefix ++ content)
        × (s'.tp ≡ (Mock.send recipient sealed s.tp).1)
  sealed_of_IsSent s (err e) s' dto h q = ground arith
  sealed_of_IsSent s (ok d) s' dto h q = let (sealed, sig, o, d', t, p, b) = h in (sealed, o, p)

  -- Over `MockTransport`: when `SendMessage` succeeds, one payload more has been sent, to the recipient;
  -- and `ProcessIncoming` of that payload, by a receiver whose driver works, succeeds: a row with the
  -- content that the sender gave is now at the end of its messages, or these are as before and one of them
  -- has the row's id; and one event with that content is published.
  pub send_message-process_incoming :
      {T : Type 0} (sender : Text) (nano' : ℕ) (now' : ℤ) (key_pair : Result (Unit {0}))
      (sign : Bytes → Result Bytes) (s : State (MockTransport S)) (r : State T) (dto : MessageDto)
      → (send_message mock_transport recipient conversation content nano now key_pair sign s).0
        ≡ ok dto
      → (sealed : Bytes) × ((send_message mock_transport recipient conversation content nano now
            key_pair sign s).1.tp.sent_messages
          ≡ s.tp.sent_messages ++ record { to = recipient; payload = sealed } ∷ [])
        × ((t : Tables) × IsStored (arrived_row sender content nano' now') r.db.tables t
            × (process_incoming sender sealed nano' now' (faultless r) ≡ (
              ok tt,
              record (faultless r) {
                db = with_tables t;
                bus =
                    publish topic_new_message
                      (Event.message (arrived_event sender content nano' now'))
                      r.bus;
              },
            )))
  unfolding Mock.send
  send_message-process_incoming sender nano' now' key_pair sign s r dto h =
      let (out, s') =
        send_message mock_transport recipient conversation content nano now key_pair sign s in
      let (sealed, e, p) =
        sealed_of_IsSent s out s' dto
          (send_message-IsSent mock_transport recipient conversation content nano now key_pair sign
            s)
          h in
      (
        sealed,
        ap (λ (t : MockTransport S). t.sent_messages) p,
        (
          saved (incoming_message sender content nano' now') r.db.tables,
          incoming-IsStored sender content nano' now' r.db.tables,
          rw e (
              subst
                (λ x. process_incoming sender (enc_prefix ++ content) nano' now' (faultless r) ≡ (
                  ok tt,
                  record (faultless r) {
                    db =
                        with_tables
                          (saved (incoming_message sender content nano' now') r.db.tables);
                    bus = publish topic_new_message (Event.message x) r.bus;
                  },
                ))
                (incoming-arrived_event sender content nano' now')
                (incoming_run sender content nano' now' r)),
        ),
      )
