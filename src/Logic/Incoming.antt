-- ===== src/Logic/Incoming.antt =====
-- internal/logic/processor.go: `ProcessIncoming` on every branch.
use go_p2p_messenger.Base.{
  ℕ, ℤ, ◌≡◌, ◌≢◌, refl, sym, ap, subst, none, some, Text, Bytes, codes, text_eq_iff, true, false,
  List, [], ◌∷◌, ◌++◌, arith, any, All, In, decimal, Result, ok, err, inl, inr,
}
use go_p2p_messenger.Event.{topic_new_message, publish}
use go_p2p_messenger.Event
use go_p2p_messenger.Storage.{Message, MessageRow, Tables, bytes_of}
use go_p2p_messenger.Storage.Database.{Db, with_tables}
use go_p2p_messenger.Storage.Database.Atomicity.{Changes}
use go_p2p_messenger.Storage.Messages.{row_of, same_seq, clash, is_null, insert_or_ignore, save}
use go_p2p_messenger.Storage.Messages.Save.{
  IsStored, inserted-IsStored, saved, save-Changes, save_faultless,
}
use go_p2p_messenger.State.{State, faultless}
use go_p2p_messenger.Logic.{
  enc_prefix, decrypt, incoming_message, incoming_event, announce, store_incoming, process_incoming,
}
use go_p2p_messenger.Logic.Envelope.{decrypt_iff}

-- The row and the event of a message that arrives with some content, by the columns and fields.
abbrev pub arrived_row : Text → Bytes → ℕ → ℤ → MessageRow
arrived_row sender content nano now = record {
  id = codes "in_" ++ decimal nano;
  conversation_id = sender;
  sender_id = sender;
  content = some content;
  global_seq = none;
  sender_signature = [];
  sent_at = now;
  is_incoming = true;
  status = codes "delivered";
  chat_id = sender;
  timestamp = now;
  delivered_at = none;
  read_at = none;
}

abbrev pub arrived_event : Text → Bytes → ℕ → ℤ → Event.MessageEvent
arrived_event sender content nano now = record {
  id = codes "in_" ++ decimal nano;
  chat_id = sender;
  sender_id = sender;
  text = content;
  timestamp = now;
  is_incoming = true;
  status = codes "delivered";
}

pub incoming-arrived_event :
    (sender : Text) (content : Bytes) (nano : ℕ) (now : ℤ)
    → incoming_event (incoming_message sender content nano now)
      ≡ arrived_event sender content nano now
unfolding incoming_event incoming_message bytes_of
incoming-arrived_event sender content nano now = refl

pub incoming-IsStored :
    (sender : Text) (content : Bytes) (nano : ℕ) (now : ℤ) (t : Tables)
    → IsStored
        (arrived_row sender content nano now)
        t
        (saved (incoming_message sender content nano now) t)
unfolding row_of incoming_message is_null
incoming-IsStored sender content nano now t =
    inserted-IsStored (arrived_row sender content nano now) t refl refl

module _ {T : Type 0} (sender : Text) (payload : Bytes) (nano : ℕ) (now : ℤ) where
  -- How `ProcessIncoming` may end: with an error, and nothing stored or announced; or with the content as
  -- a row, unless its id was taken, and announced once.
  abbrev pub IsProcessed : State T → Result (Unit {0}) × State T → Type 0
  IsProcessed s (err e, s') = (s'.db.tables ≡ s.db.tables) × (s'.bus ≡ s.bus) × (s'.tp ≡ s.tp)
  IsProcessed s (ok u, s') =
      (content : Bytes) × (payload ≡ codes "ENC:" ++ content)
      × IsStored (arrived_row sender content nano now) s.db.tables s'.db.tables
      × (s'.bus
          ≡ publish topic_new_message (Event.message (arrived_event sender content nano now)) s.bus)
      × (s'.tp ≡ s.tp)

  announce-IsProcessed :
      (s : State T) (content : Bytes) (r : Result (Unit {0})) (db : Db)
      → decrypt payload ≡ ok content
      → Changes (saved (incoming_message sender content nano now)) s.db.tables (r, db)
      → IsProcessed s (announce (incoming_message sender content nano now) r (record s { db = db }))
  unfolding announce
  announce-IsProcessed s content (ok u) db d h = (
    content,
    (decrypt_iff payload content).0 d,
    subst (IsStored (arrived_row sender content nano now) s.db.tables) (sym h)
        (incoming-IsStored sender content nano now s.db.tables),
    ap (λ x. publish topic_new_message (Event.message x) s.bus)
        (incoming-arrived_event sender content nano now),
    refl,
  )
  announce-IsProcessed s content (err x) db d h = (h, refl, refl)

  store_incoming-IsProcessed :
      (s : State T) (d : Result Bytes)
      → decrypt payload ≡ d
      → IsProcessed s (store_incoming sender nano now d s)
  unfolding store_incoming
  store_incoming-IsProcessed s (err e) d = (refl, refl, refl)
  store_incoming-IsProcessed s (ok content) d =
      let m = incoming_message sender content nano now in
      announce-IsProcessed s content (save m s.db).0 (save m s.db).1 d (save-Changes m s.db)

  -- Whatever calls of the driver fail, `ProcessIncoming` ends with an error and changes no table, bus or
  -- transport; or the payload is `ENC:` and a content: a row with that content, of the sender's
  -- conversation, is now at the end of the messages, or they are as before and one of them has its id; and
  -- one event with that content, for the sender's chat, is published.
  pub process_incoming-IsProcessed :
      (s : State T) → IsProcessed s (process_incoming sender payload nano now s)
  unfolding process_incoming
  process_incoming-IsProcessed s = store_incoming-IsProcessed s (decrypt payload) refl

module _ {T : Type 0} (sender : Text) (content : Bytes) (nano : ℕ) (now : ℤ) (s : State T) where
  abbrev pub incoming : Message
  incoming = incoming_message sender content nano now

  fresh-no_clash :
      (rows : List MessageRow)
      → All (λ r. r.id ≢ codes "in_" ++ decimal nano) rows
      → any (clash (row_of incoming)) rows ≡ false
  unfolding any clash same_seq row_of incoming_message
  fresh-no_clash [] h = refl
  fresh-no_clash (r ∷ rows) h =
      ground (arith, fresh-no_clash rows h.1, text_eq_iff (codes "in_" ++ decimal nano) r.id)

  pub incoming_run : process_incoming sender (enc_prefix ++ content) nano now (faultless s) ≡ (
    ok tt,
    record (faultless s) {
      db = with_tables (saved incoming s.db.tables);
      bus = publish topic_new_message (Event.message (incoming_event incoming)) s.bus;
    },
  )
  unfolding process_incoming store_incoming announce
  incoming_run =
      rw ((decrypt_iff (enc_prefix ++ content) content).1 refl, store_incoming)
        (rw (save_faultless incoming s.db.tables, announce) refl)

  -- With a working driver, an enveloped payload whose clock reading gives a new id is stored, as a row of
  -- the sender's conversation, and announced.
  pub process_incoming_stores :
      All (λ r. r.id ≢ codes "in_" ++ decimal nano) s.db.tables.messages
      → let (r, s') = process_incoming sender (enc_prefix ++ content) nano now (faultless s) in
        (r ≡ ok tt)
        × (s'.db.tables.messages ≡ s.db.tables.messages ++ row_of incoming ∷ [])
        × (s'.bus ≡ publish topic_new_message (Event.message (incoming_event incoming)) s.bus)
  unfolding insert_or_ignore row_of incoming_message is_null
  process_incoming_stores h = rw incoming_run (refl, stored, refl)
    where
      stored :
          insert_or_ignore (row_of incoming) s.db.tables.messages
          ≡ s.db.tables.messages ++ row_of incoming ∷ []
      stored = rw (fresh-no_clash s.db.tables.messages h, insert_or_ignore) refl

  taken-clash :
      (rows : List MessageRow) (r : MessageRow)
      → In r rows
      → r.id ≡ codes "in_" ++ decimal nano
      → any (clash (row_of incoming)) rows ≡ true
  unfolding any clash row_of incoming_message
  taken-clash [] r i e = absurd i
  taken-clash (x ∷ rows) r (inl i) e =
      ground
        (arith, text_eq_iff (codes "in_" ++ decimal nano) x.id, ap (λ (y : MessageRow). y.id) i)
  taken-clash (x ∷ rows) r (inr i) e = ground (arith, taken-clash rows r i e)

  -- With a working driver, a payload that arrives when the clock gives the id of a stored message is
  -- announced and reported as processed, and is not stored.
  pub process_incoming_drops :
      (r : MessageRow)
      → In r s.db.tables.messages
      → r.id ≡ codes "in_" ++ decimal nano
      → process_incoming sender (enc_prefix ++ content) nano now (faultless s) ≡ (
        ok tt,
        record (faultless s) {
          bus = publish topic_new_message (Event.message (incoming_event incoming)) s.bus;
        },
      )
  unfolding insert_or_ignore row_of incoming_message is_null
  process_incoming_drops r i e = rw incoming_run (rw dropped refl)
    where
      dropped : saved incoming s.db.tables ≡ s.db.tables
      dropped = rw (taken-clash s.db.tables.messages r i e, insert_or_ignore) refl
