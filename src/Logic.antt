-- ===== src/Logic.antt =====
-- internal/logic/processor.go: `MessageProcessor`. Its encryption is the placeholder that puts `ENC:` in
-- front.
pub mod Envelope
pub mod Incoming
use go_p2p_messenger.Base.{
  ℕ, ℤ, pos, Text, Bytes, codes, text_eq, Bool, true, not, ◌||◌, Option, none, some, List, [], ◌++◌,
  ltb, length, take, drop, decimal, if◌then◌else◌, Error, message, wrap, Result, ok, err, Exec,
}
use go_p2p_messenger.Event.{topic_new_message}
use go_p2p_messenger.Event
use go_p2p_messenger.Storage.{Message, bytes_of}
use go_p2p_messenger.Storage.Messages.{save}
use go_p2p_messenger.State.{State, notify}

abbrev pub enc_prefix : Bytes
enc_prefix = codes "ENC:"

-- `EncryptFor`: the ephemeral key pair, which may fail, is not used; nor is the recipient's key.
unfoldable pub encrypt_for : Result (Unit {0}) → Bytes → Result Bytes
encrypt_for (err e) payload = err e
encrypt_for (ok u) payload = ok (enc_prefix ++ payload)

unfoldable pub decrypt : Bytes → Result Bytes
decrypt payload =
    if ltb (length payload) 4 || not (text_eq (take 4 payload) enc_prefix)
    then err (message "invalid encrypted payload")
    else ok (drop 4 payload)

-- `SealMessage`: the sealed payload and its signature.
unfoldable pub seal_message :
    Result (Unit {0}) → (Bytes → Result Bytes) → Bytes → Result (Bytes × Bytes)
unfolding encrypt_for
seal_message key_pair sign payload = elim (encrypt_for key_pair payload) [
  | err e ↦ err e
  | ok enc ↦ elim (sign enc) [ err e ↦ err e | ok sig ↦ ok (enc, sig) ]
]

abbrev pub delivered : Text
delivered = codes "delivered"

-- The message of `ProcessIncoming`: `nano` and `now` are its two readings of the clock, and `sender` is
-- `from.String()`.
unfoldable pub incoming_message : Text → Bytes → ℕ → ℤ → Message
incoming_message sender content nano now = record {
  id = codes "in_" ++ decimal nano;
  conversation_id = sender;
  sender_id = sender;
  content = some content;
  global_seq = pos 0;
  sender_signature = [];
  sent_at = now;
  is_incoming = true;
  status = delivered;
  delivered_at = none;
  read_at = none;
}

unfoldable pub incoming_event : Message → Event.MessageEvent
unfolding bytes_of
incoming_event m = record {
  id = m.id;
  chat_id = m.conversation_id;
  sender_id = m.sender_id;
  text = bytes_of m.content;
  timestamp = m.sent_at;
  is_incoming = true;
  status = m.status;
}

module _ {T : Type 0} where
  -- After `p.msgRepo.Save(ctx, msg)`.
  unfoldable pub announce : Message → Result (Unit {0}) → Exec (State T) (Unit {0})
  unfolding incoming_event
  announce m (err e) s = (err (wrap "failed to save incoming message" e), s)
  announce m (ok u) s = notify topic_new_message (Event.message (incoming_event m)) s

  -- After `p.Decrypt(payload)`.
  unfoldable pub store_incoming : Text → ℕ → ℤ → Result Bytes → Exec (State T) (Unit {0})
  unfolding incoming_message announce
  store_incoming sender nano now (err e) s = (err (wrap "decrypt failed" e), s)
  store_incoming sender nano now (ok decrypted) s =
      let m = incoming_message sender decrypted nano now in
      let (r, db') = save m s.db in announce m r (record s { db = db' })

  unfoldable pub process_incoming : Text → Bytes → ℕ → ℤ → Exec (State T) (Unit {0})
  unfolding decrypt store_incoming
  process_incoming sender payload nano now = store_incoming sender nano now (decrypt payload)
