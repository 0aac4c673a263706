-- ===== src/Tests/Storage.antt =====
-- The theorems on internal/storage and internal/identity at concrete tables and files.
use go_p2p_messenger.Base.{
  pos, codes, none, some, List, [], ◌∷◌, map, take, In, ◌↔◌, inl, inr, ◌≡◌, refl, ap, arith,
  message, ok,
}
use go_p2p_messenger.Storage.{MessageRow}
use go_p2p_messenger.Storage.Database.{with_tables, exec, write_transaction}
use go_p2p_messenger.Storage.Database.Atomicity.{IsAtomic, write_transaction-IsAtomic}
use go_p2p_messenger.Storage.Messages.{chat_message_of, chat_rows, summary_rows}
use go_p2p_messenger.Storage.Messages.Chat.{
  IsHistory, get_messages_by_chat-IsHistory, get_messages_by_chat_faultless,
}
use go_p2p_messenger.Storage.Messages.Summary.{IsGreatest, summary_rows_iff, summary_hides_incoming}
use go_p2p_messenger.Storage.Contacts.{add, get_contacts, contact_of}
use go_p2p_messenger.Storage.Contacts
use go_p2p_messenger.Storage.Contacts.Laws
use go_p2p_messenger.Storage.Contacts.Laws.{
  IsAdded, add-IsAdded, get_contacts_truncates, after_rows,
}
use go_p2p_messenger.Storage.Devices.{update_last_seq}
use go_p2p_messenger.Storage.Devices.Laws.{Reads, update_last_seq-Reads}
use go_p2p_messenger.Identity.{start_identity, Disk}
use go_p2p_messenger.Identity.Laws.{start_identity_twice}
use go_p2p_messenger.Tests.{
  toy, toy_laws, in_order, bob, first_row, second_row, two_rows, two_rows-IsKeyed, empty_tables,
  two_messages, two_contacts, failing,
}

contacts-IsKeyed : Laws.IsKeyed two_contacts.contacts
unfolding Contacts.row_of
contacts-IsKeyed = (((λ e. ground arith), tt), (tt, tt))

first_start : start_identity toy (5 ∷ 6 ∷ []) (record { file = none; outcomes = [] }) ≡ (
  ok (record { private_key = 2; public_key = 2; peer_id = 2 ∷ [] }),
  record { file = some (2 ∷ []); outcomes = [] },
)
unfolding start_identity
first_start = refl

write_transaction-IsAtomic_example :
    IsAtomic
      (exec (λ t. two_messages))
      empty_tables
      (write_transaction (exec (λ t. two_messages)) (failing empty_tables))
write_transaction-IsAtomic_example =
    write_transaction-IsAtomic (exec (λ t. two_messages)) (failing empty_tables)

get_messages_by_chat-IsHistory_example :
    (batch : List MessageRow) × (map chat_message_of (chat_rows in_order bob (pos 1) two_rows)
      ≡ map chat_message_of batch)
    × IsHistory bob 1 two_rows batch
get_messages_by_chat-IsHistory_example =
    get_messages_by_chat-IsHistory in_order bob 1 (with_tables two_messages)
      (map chat_message_of (chat_rows in_order bob (pos 1) two_rows))
      (ap (λ p. p.0) (get_messages_by_chat_faultless in_order bob (pos 1) two_messages))

summary_rows_iff_example :
    In first_row (summary_rows in_order two_rows)
    ↔ (In first_row two_rows × IsGreatest two_rows first_row)
summary_rows_iff_example = summary_rows_iff in_order two_rows first_row two_rows-IsKeyed

summary_hides_incoming_example : ¬ In second_row (summary_rows in_order two_rows)
summary_hides_incoming_example =
    summary_hides_incoming in_order two_rows second_row first_row (codes "2") (codes "1")
      two_rows-IsKeyed (inr (inl refl)) refl refl refl

get_contacts_truncates_example :
    (get_contacts in_order (record {
      tables = two_contacts;
      outcomes = none ∷ after_rows 1 (some (message "interrupted") ∷ []);
    })).0
    ≡ ok (map contact_of (take 1 two_contacts.contacts))
get_contacts_truncates_example =
    get_contacts_truncates in_order two_contacts 1 (message "interrupted") []

update_last_seq-Reads_example :
    Reads
      (codes "phone")
      (pos 4)
      two_messages
      (update_last_seq (codes "phone") (pos 4) (pos 9) (with_tables two_messages))
update_last_seq-Reads_example =
    update_last_seq-Reads (codes "phone") (pos 4) (pos 9) (with_tables two_messages)

abbrev blank : Disk
blank = record { file = none; outcomes = [] }

start_identity_twice_example :
    (start_identity toy (8 ∷ []) (record { file = some (2 ∷ []); outcomes = [] })).0
    ≡ ok (record { private_key = 2; public_key = 2; peer_id = 2 ∷ [] })
start_identity_twice_example =
    start_identity_twice toy toy_laws (5 ∷ 6 ∷ []) (8 ∷ []) blank
      (record { private_key = 2; public_key = 2; peer_id = 2 ∷ [] })
      (record { file = some (2 ∷ []); outcomes = [] }) first_start
