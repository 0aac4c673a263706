-- ===== src/Api/Chat.antt =====
-- internal/api/chat.go: `ChatService`. Times are in seconds, as `time.Unix` reads them.
pub mod Entries
pub mod Listing
pub mod Sending
pub mod History
pub mod Adding
use go_p2p_messenger.Base.{
  ℕ, ℤ, pos, Text, Bytes, codes, text_eq, Bool, true, false, Option, none, some, List, [], ◌∷◌,
  ◌++◌, map, any, if◌then◌else◌, decimal, Error, wrap, Result, ok, err, Exec, pure, fail, wrapping,
  ◌>>=◌, ◌>>◌,
}
use go_p2p_messenger.Event.{topic_new_message, topic_new_contact}
use go_p2p_messenger.Event
use go_p2p_messenger.Storage.{Message, bytes_of, Contact, ConversationSummary}
use go_p2p_messenger.Storage.Database.{Engine}
use go_p2p_messenger.Storage.Messages.{save, get_messages_by_chat, get_conversations}
use go_p2p_messenger.Storage.Contacts
use go_p2p_messenger.State.{State, on_db, on_tp, notify}
use go_p2p_messenger.Transport.{MessageTransport}
use go_p2p_messenger.Logic.{decrypt, seal_message}

pub record MessageDto : Type 0 where
  pub id : Text
  pub conversation_id : Text
  pub sender_id : Text
  pub content : Text
  pub sent_at : ℤ
  pub is_own : Bool
  pub status : Text

pub record ConversationDto : Type 0 where
  pub id : Text
  pub last_message : Text
  pub last_sent_at : ℤ
  pub unread_count : ℕ

-- `string(content)`, or the decrypted text where `Decrypt` succeeds.
unfoldable pub shown : Bytes → Text
unfolding decrypt
shown content = elim (decrypt content) [ err e ↦ content | ok text ↦ text ]

-- `summaryMap[id]`, where the last summary of a conversation wins.
unfoldable pub find_summary : Text → List ConversationSummary → Option ConversationSummary
find_summary id [] = none
find_summary id (s ∷ rest) = elim (find_summary id rest) [
  | some later ↦ some later
  | none ↦ if text_eq s.conversation_id id then some s else none
]

unfoldable pub summary_dto : ConversationSummary → ConversationDto
unfolding shown
summary_dto s = record {
  id = s.conversation_id;
  last_message = shown s.last_content;
  last_sent_at = s.last_sent_at;
  unread_count = s.unread_count;
}

-- `lastMsg` of a contact without a summary.
unfoldable pub no_messages : Option Text → Text
no_messages none = []
no_messages (some alias) = codes "No messages yet."

-- The entry of a contact, from `summaryMap[contact.PeerID]`.
unfoldable pub contact_dto : Contact → Option ConversationSummary → ConversationDto
unfolding shown no_messages
contact_dto contact none = record {
  id = contact.peer_id;
  last_message = no_messages contact.alias;
  last_sent_at = contact.created_at;
  unread_count = 0;
}
contact_dto contact (some s) = record {
  id = contact.peer_id;
  last_message = shown s.last_content;
  last_sent_at = s.last_sent_at;
  unread_count = s.unread_count;
}

-- Whether an entry for a conversation is in the list.
unfoldable pub is_listed : Text → List ConversationDto → Bool
is_listed id dtos = any (λ d. text_eq d.id id) dtos

-- The loop over the summaries that appends what is not listed.
unfoldable pub add_unlisted : List ConversationDto → List ConversationSummary → List ConversationDto
unfolding is_listed summary_dto
add_unlisted dtos [] = dtos
add_unlisted dtos (s ∷ rest) =
    add_unlisted (if is_listed s.conversation_id dtos then dtos else dtos ++ summary_dto s ∷ [])
      rest

-- What `ListConversations` makes of the contacts and the summaries.
unfoldable pub conversations : List Contact → List ConversationSummary → List ConversationDto
unfolding add_unlisted contact_dto find_summary
conversations contacts summaries =
    add_unlisted (map (λ c. contact_dto c (find_summary c.peer_id summaries)) contacts) summaries

unfoldable pub message_dto : Message → MessageDto
unfolding shown bytes_of
message_dto m = record {
  id = m.id;
  conversation_id = m.conversation_id;
  sender_id = m.sender_id;
  content = shown (bytes_of m.content);
  sent_at = m.sent_at;
  is_own = false;
  status = codes "sent";
}

-- The message that `SendMessage` saves; `nano` and `now` are its readings of the clock.
unfoldable pub outgoing_message : Text → Bytes → Bytes → ℕ → ℤ → Message
outgoing_message conversation content sig nano now = record {
  id = codes "msg_" ++ decimal nano;
  conversation_id = conversation;
  sender_id = codes "self";
  content = some content;
  global_seq = pos 0;
  sender_signature = sig;
  sent_at = now;
  is_incoming = false;
  status = [];
  delivered_at = none;
  read_at = none;
}

unfoldable pub sent_dto : Message → Text → MessageDto
sent_dto m content = record {
  id = m.id;
  conversation_id = m.conversation_id;
  sender_id = m.sender_id;
  content = content;
  sent_at = m.sent_at;
  is_own = true;
  status = codes "sent";
}

unfoldable pub sent_event : MessageDto → Event.MessageEvent
sent_event d = record {
  id = d.id;
  chat_id = d.conversation_id;
  sender_id = d.sender_id;
  text = d.content;
  timestamp = d.sent_at;
  is_incoming = false;
  status = d.status;
}

module _ {T : Type 0} where
  unfoldable pub list_conversations : Engine → Exec (State T) (List ConversationDto)
  unfolding conversations
  list_conversations engine =
      on_db (wrapping "get contacts" (Contacts.get_contacts engine)) >>= λ contacts.
      on_db (wrapping "get summaries" (get_conversations engine)) >>= λ summaries.
      pure (conversations contacts summaries)

  -- `GetMessages`; it does not use `afterSeq`.
  unfoldable pub get_messages : Engine → Text → ℤ → ℤ → Exec (State T) (List MessageDto)
  unfolding message_dto
  get_messages engine conversation after_seq limit =
      on_db (get_messages_by_chat engine conversation limit) >>= λ msgs. pure (map message_dto msgs)

-- The contact that `AddContact` saves.
abbrev pub contact_of : Text → ℤ → Contact
contact_of shown_id now = record {
  peer_id = shown_id;
  public_key = [];
  multiaddr = none;
  alias = none;
  trusted = true;
  last_seen = pos 0;
  created_at = now;
}

module _ {T : Type 0} (transport : MessageTransport T) where
  -- `_ = s.tp.Connect(context.Background(), pID)`, which a goroutine of `AddContact` runs at any time after
  -- it has been started, also before the event is published.
  unfoldable pub connect_ignored : Text → State T → State T
  connect_ignored peer s = record s { tp = (transport.connect peer s.tp).1 }

  -- `AddContact`, from what `peer.Decode` returns; `show` is `pID.String()`. Where it returns no error, the
  -- value is what its goroutine does, which has been started and may run whenever it likes.
  unfoldable pub add_contact : (Text → Text) → Result Text → ℤ → Exec (State T) (State T → State T)
  unfolding connect_ignored
  add_contact show (err e) now = fail (wrap "invalid peer id" e)
  add_contact show (ok peer) now =
      on_db (wrapping "save contact" (Contacts.add (contact_of (show peer) now)))
      >> (notify topic_new_contact (Event.string (show peer)) >> pure (connect_ignored peer))

  -- After the message is saved: the transport's error is only printed.
  unfoldable pub deliver : Text → Text → Message → Exec (State T) MessageDto
  unfolding sent_dto sent_event bytes_of
  deliver recipient content m s =
      let dto = sent_dto m content in
      let (r, tp') = transport.send recipient (bytes_of m.content) s.tp in
      (notify topic_new_message (Event.message (sent_event dto)) >> pure dto)
        (record s { tp = tp' })

  -- After `s.msgRepo.Save(ctx, msg)`.
  unfoldable pub after_save : Text → Text → Message → Result (Unit {0}) → Exec (State T) MessageDto
  unfolding deliver
  after_save recipient content m (err e) s = (err (wrap "save message" e), s)
  after_save recipient content m (ok u) s = deliver recipient content m s

  -- After `s.processor.SealMessage(…)`; `conversation` is `recipientID.String()`.
  unfoldable pub send_sealed :
      Text → Text → Text → ℕ → ℤ → Result (Bytes × Bytes) → Exec (State T) MessageDto
  unfolding outgoing_message after_save
  send_sealed recipient conversation content nano now (err e) s = (err (wrap "seal message" e), s)
  send_sealed recipient conversation content nano now (ok (enc, sig)) s =
      let m = outgoing_message conversation enc sig nano now in
      let (r, db') = save m s.db in after_save recipient content m r (record s { db = db' })

  unfoldable pub send_message :
      Text
      → Text
      → Text
      → ℕ
      → ℤ
      → Result (Unit {0})
      → (Bytes → Result Bytes)
      → Exec (State T) MessageDto
  unfolding send_sealed seal_message
  send_message recipient conversation content nano now key_pair sign =
      send_sealed recipient conversation content nano now (seal_message key_pair sign content)
