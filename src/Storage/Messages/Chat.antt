-- ===== src/Storage/Messages/Chat.antt =====
-- internal/storage/repository.go: what `GetMessagesByChat` returns.
use go_p2p_messenger.Base.{
  ℕ, ◌≤◌, ◌≡◌, inl, inr, ◌⊎◌, ℤ, pos, leb_ℤ_total, leb_ℤ_trans, ◌≤ℤ◌, Text, text_eq, text_eq_iff,
  true, List, ◌++◌, map, arith, select, All, AllPairs, In, In-select, In-select_inv, All-of_In,
  All-In, AllPairs-take, AllPairs-append_inv, AllPairs-imp, In-take, In-take_cases, In-positive,
  take, drop, take-append-drop, length, length-take, length-drop, order_by, order_by-perm,
  order_by-AllPairs, perm-In, ok, wrap, Permᴰ,
}
use mathlib.Core.List.Permᴰ
use go_p2p_messenger.Storage.{Message, MessageRow, Tables}
use go_p2p_messenger.Storage.Database.{Engine, Db, with_tables}
use go_p2p_messenger.Storage.Database.Queries.{run_query_ok, run_query_faultless}
use go_p2p_messenger.Storage.Messages.{
  by_timestamp, chat_message_of, chat_rows, get_messages_by_chat,
}

-- At most `n` rows of a chat, from the oldest on: those left out are no older than any of them.
pub record IsHistory (chat : Text) (n : ℕ) (rows result : List MessageRow) : Type 0 where
  pub ascending : AllPairs (λ r s. r.timestamp ≤ℤ s.timestamp) result
  pub sound : (r : MessageRow) → In r result → In r rows × (r.chat_id ≡ chat)
  pub short : length result ≤ n
  pub complete :
      (r : MessageRow)
      → In r rows
      → r.chat_id ≡ chat
      → In r result ⊎ ((length result ≡ n) × All (λ s. s.timestamp ≤ℤ r.timestamp) result)

module _ (engine : Engine) (chat : Text) (rows : List MessageRow) where
  abbrev asked : List MessageRow
  asked = select (λ (r : MessageRow). text_eq r.chat_id chat) rows

  abbrev ordered : List MessageRow
  ordered = order_by by_timestamp (engine.scan MessageRow asked)

  ordered-perm : Permᴰ ordered asked
  ordered-perm =
      Permᴰ.trans (order_by-perm by_timestamp (engine.scan MessageRow asked))
        (engine.scan-perm MessageRow asked)

  ordered-ascending : AllPairs (λ r s. r.timestamp ≤ℤ s.timestamp) ordered
  ordered-ascending =
      AllPairs-imp (λ r s. by_timestamp r s ≡ true) (λ r s. r.timestamp ≤ℤ s.timestamp)
        (λ r s h. ground (arith, h)) ordered
        (order_by-AllPairs by_timestamp (λ r s. leb_ℤ_total r.timestamp s.timestamp)
          (λ r s t. leb_ℤ_trans r.timestamp s.timestamp t.timestamp) (engine.scan MessageRow asked))

  cut_ascending :
      (n : ℕ) → AllPairs (λ r s. r.timestamp ≤ℤ s.timestamp) (take n ordered ++ drop n ordered)
  cut_ascending n = rw (take-append-drop n ordered) ordered-ascending

  cut_complete :
      (n : ℕ) (r : MessageRow)
      → In r ordered
      → In r (take n ordered)
        ⊎ ((length (take n ordered) ≡ n) × All (λ s. s.timestamp ≤ℤ r.timestamp) (take n ordered))
  cut_complete n r h = elim (In-take_cases r n ordered h) [
    | inl i ↦ inl i
    | inr i ↦ inr (
      omega (arith, In-positive r (drop n ordered) i, length-drop n ordered, length-take n ordered),
      All-of_In (λ s. s.timestamp ≤ℤ r.timestamp) (take n ordered)
          (λ s j.
            All-In (λ x. s.timestamp ≤ℤ x.timestamp) r (drop n ordered)
              (All-In (λ s. All (λ x. s.timestamp ≤ℤ x.timestamp) (drop n ordered)) s
                (take n ordered)
                (AllPairs-append_inv (λ r s. r.timestamp ≤ℤ s.timestamp) (take n ordered)
                  (drop n ordered) (cut_ascending n)).2
                j)
              i),
    )
  ]

  chat_rows-IsHistory : (n : ℕ) → IsHistory chat n rows (chat_rows engine chat (pos n) rows)
  unfolding chat_rows
  chat_rows-IsHistory n = record {
    ascending = AllPairs-take (λ r s. r.timestamp ≤ℤ s.timestamp) n ordered ordered-ascending;
    sound = λ r h.
        let (i, e) =
          In-select_inv (λ (r : MessageRow). text_eq r.chat_id chat) r rows
            (perm-In r ordered-perm (In-take r n ordered h)) in
        (i, ground (arith, e, text_eq_iff r.chat_id chat));
    short = omega (arith, length-take n ordered);
    complete = λ r h e. cut_complete n r (
        perm-In r (Permᴰ.symm ordered-perm) (
          In-select (λ (r : MessageRow). text_eq r.chat_id chat) r rows h
            (ground (arith, e, text_eq_iff r.chat_id chat))));
  }

-- Whatever calls of the driver fail: what `GetMessagesByChat` returns without an error are at most `n`
-- messages of the chat in the order of their times, from the oldest on. A stored message of the chat that
-- is left out is no older than any of them, and then there are `n`.
pub get_messages_by_chat-IsHistory :
    (engine : Engine) (chat : Text) (n : ℕ) (db : Db) (msgs : List Message)
    → (get_messages_by_chat engine chat (pos n) db).0 ≡ ok msgs
    → (batch : List MessageRow) × (msgs ≡ map chat_message_of batch)
      × IsHistory chat n db.tables.messages batch
unfolding get_messages_by_chat
get_messages_by_chat-IsHistory engine chat n db msgs e = (
  chat_rows engine chat (pos n) db.tables.messages,
  run_query_ok (wrap "query messages by chat") (wrap "scan message") chat_message_of
      (chat_rows engine chat (pos n) db.tables.messages) db msgs e,
  chat_rows-IsHistory engine chat db.tables.messages n,
)

pub get_messages_by_chat_faultless :
    (engine : Engine) (chat : Text) (limit : ℤ) (t : Tables)
    → get_messages_by_chat engine chat limit (with_tables t)
      ≡ (ok (map chat_message_of (chat_rows engine chat limit t.messages)), with_tables t)
unfolding get_messages_by_chat
get_messages_by_chat_faultless engine chat limit t =
    run_query_faultless (wrap "query messages by chat") (wrap "scan message") chat_message_of
      (chat_rows engine chat limit t.messages) t
