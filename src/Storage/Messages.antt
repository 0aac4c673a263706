-- ===== src/Storage/Messages.antt =====
-- internal/storage/repository.go: `MessageRepository`. Each SQL text is a function on the tables.
pub mod Save
pub mod Since
pub mod Chat
pub mod Greatest
pub mod Summary
use go_p2p_messenger.Base.{
  ℕ, suc, Bytes, ℤ, pos, ltb_ℤ, leb_ℤ, eqb_ℤ, Text, text_eq, text_lt, Bool, true, false, not, ◌&&◌,
  ◌||◌, Option, none, some, List, [], ◌∷◌, ◌++◌, map, if◌then◌else◌, select, any, order_by, length,
  Result, Error, wrap, Exec, ◌>>=◌, ◌>>◌, wrapping,
}
use go_p2p_messenger.Storage.{Message, MessageRow, ConversationSummary, Tables, bytes_of}
use go_p2p_messenger.Storage.Database.{Engine, Db, exec, write_transaction, run_query, limit_rows}

-- The values bound to the INSERT of `Save`.
unfoldable pub row_of : Message → MessageRow
row_of m = record {
  id = m.id;
  conversation_id = m.conversation_id;
  sender_id = m.sender_id;
  content = m.content;
  global_seq = if ltb_ℤ (pos 0) m.global_seq then some m.global_seq else none;
  sender_signature = m.sender_signature;
  sent_at = m.sent_at;
  is_incoming = m.is_incoming;
  status = m.status;
  chat_id = m.conversation_id;
  timestamp = m.sent_at;
  delivered_at = m.delivered_at;
  read_at = m.read_at;
}

-- NULLs never clash under UNIQUE.
unfoldable pub same_seq : Option ℤ → Option ℤ → Bool
same_seq (some m) (some n) = eqb_ℤ m n
same_seq _ _ = false

-- Two rows that `id TEXT PRIMARY KEY` or `global_seq INTEGER UNIQUE` keeps apart.
unfoldable pub clash : MessageRow → MessageRow → Bool
unfolding same_seq
clash r s = text_eq r.id s.id || same_seq r.global_seq s.global_seq

-- A value that `content BLOB NOT NULL` refuses.
unfoldable pub is_null : Option Bytes → Bool
is_null none = true
is_null (some b) = false

-- `INSERT OR IGNORE INTO messages`: a row that breaks a constraint, NOT NULL among them, is skipped
-- without an error.
unfoldable pub insert_or_ignore : MessageRow → List MessageRow → List MessageRow
unfolding is_null
insert_or_ignore row rows =
    if is_null row.content || any (clash row) rows then rows else rows ++ row ∷ []

unfoldable pub save : Message → Exec Db (Unit {0})
unfolding insert_or_ignore
save m =
    write_transaction (exec (λ t. record t { messages = insert_or_ignore (row_of m) t.messages }))

-- `WHERE global_seq > ?`, with `conversation_id = ? AND` in front where an id is given.
unfoldable pub eligible : Text → ℤ → MessageRow → Bool
eligible conversation after row =
    elim row.global_seq [ none ↦ false | some n ↦ ltb_ℤ after n ]
    && (text_eq conversation [] || text_eq row.conversation_id conversation)

-- `m.GlobalSeq` after a scan: 0 for a NULL.
unfoldable pub seq_of : MessageRow → ℤ
seq_of row = elim row.global_seq [ none ↦ pos 0 | some n ↦ n ]

unfoldable pub message_of : MessageRow → Message
unfolding seq_of
message_of row = record {
  id = row.id;
  conversation_id = row.conversation_id;
  sender_id = row.sender_id;
  content = row.content;
  global_seq = seq_of row;
  sender_signature = row.sender_signature;
  sent_at = row.sent_at;
  is_incoming = row.is_incoming;
  status = row.status;
  delivered_at = row.delivered_at;
  read_at = row.read_at;
}

-- The scan of `GetMessagesByChat` reads `chat_id` and `timestamp` into the fields that it filled from
-- `conversation_id` and `sent_at`.
unfoldable pub chat_message_of : MessageRow → Message
unfolding message_of
chat_message_of row = record (message_of row) {
  conversation_id = row.chat_id;
  sent_at = row.timestamp;
}

abbrev pub by_seq : MessageRow → MessageRow → Bool
by_seq r s = leb_ℤ (seq_of r) (seq_of s)

abbrev pub by_timestamp : MessageRow → MessageRow → Bool
by_timestamp r s = leb_ℤ r.timestamp s.timestamp

abbrev pub latest_first : MessageRow → MessageRow → Bool
latest_first r s = leb_ℤ s.sent_at r.sent_at

module _ (engine : Engine) where
  unfoldable pub since_rows : Text → ℤ → ℤ → List MessageRow → List MessageRow
  since_rows conversation after limit rows =
      limit_rows limit
        (order_by by_seq (engine.scan MessageRow (select (eligible conversation after) rows)))

  unfoldable pub get_since : Text → ℤ → ℤ → Exec Db (List Message)
  unfolding since_rows
  get_since conversation after limit db =
      run_query (wrap "query messages") (wrap "scan message") message_of
        (since_rows conversation after limit db.tables.messages) db

  unfoldable pub chat_rows : Text → ℤ → List MessageRow → List MessageRow
  chat_rows chat limit rows =
      limit_rows limit
        (order_by by_timestamp (engine.scan MessageRow (select (λ r. text_eq r.chat_id chat) rows)))

  unfoldable pub get_messages_by_chat : Text → ℤ → Exec Db (List Message)
  unfolding chat_rows
  get_messages_by_chat chat limit db =
      run_query (wrap "query messages by chat") (wrap "scan message") chat_message_of
        (chat_rows chat limit db.tables.messages) db

unfoldable pub greater : Option Text → Text → Text
greater none id = id
greater (some m) id = if text_lt id m then m else id

-- `MAX(id)` of the rows of one conversation.
unfoldable pub max_id : Text → List MessageRow → Option Text
unfolding greater
max_id conversation [] = none
max_id conversation (r ∷ rest) =
    let below = max_id conversation rest in
    if text_eq r.conversation_id conversation then some (greater below r.id) else below

unfoldable pub is_max : MessageRow → MessageRow → List MessageRow → Bool
is_max r s rows = elim (max_id s.conversation_id rows) [ none ↦ false | some m ↦ text_eq r.id m ]

-- `id IN (SELECT MAX(id) FROM messages GROUP BY conversation_id)`
unfoldable pub is_last : List MessageRow → MessageRow → Bool
unfolding is_max
is_last rows r = any (λ s. is_max r s rows) rows

-- `conversation_id = ? AND read_at IS NULL`
unfoldable pub is_unread : Text → MessageRow → Bool
is_unread conversation r =
    text_eq r.conversation_id conversation && (elim r.read_at [ none ↦ true | some t ↦ false ])

unfoldable pub summary_of : List MessageRow → MessageRow → ConversationSummary
unfolding is_unread bytes_of
summary_of rows r = record {
  conversation_id = r.conversation_id;
  last_content = bytes_of r.content;
  last_sent_at = r.sent_at;
  unread_count = length (select (is_unread r.conversation_id) rows);
}

unfoldable pub summary_rows : Engine → List MessageRow → List MessageRow
unfolding is_last
summary_rows engine rows =
    order_by latest_first (engine.scan MessageRow (select (is_last rows) rows))

unfoldable pub get_conversations : Engine → Exec Db (List ConversationSummary)
unfolding summary_rows summary_of
get_conversations engine db =
    run_query (λ e. e) (λ e. e) (summary_of db.tables.messages)
      (summary_rows engine db.tables.messages) db
