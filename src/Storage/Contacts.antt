-- ===== src/Storage/Contacts.antt =====
-- internal/storage/repository.go: `ContactRepository`.
pub mod Laws
use go_p2p_messenger.Base.{
  Text, text_eq, Bytes, Option, none, some, List, [], ◌∷◌, ◌++◌, not, select, Result, ok, err, wrap,
  Exec, map_error, Error,
}
use go_p2p_messenger.Storage.{Contact, ContactRow, Tables}
use go_p2p_messenger.Storage.Database.{Engine, Db, call, exec, write_transaction, read_rows}

-- An empty key is stored as NULL.
abbrev key_value : Bytes → Option Bytes
key_value [] = none
key_value (◌∷◌ b bs) = some (b ∷ bs)

-- The values bound to the INSERT of `Add`.
unfoldable pub row_of : Contact → ContactRow
row_of c = record {
  peer_id = c.peer_id;
  public_key = key_value c.public_key;
  multiaddr = c.multiaddr;
  alias = c.alias;
  trusted = c.trusted;
  last_seen = c.last_seen;
  created_at = c.created_at;
}

-- `INSERT OR REPLACE INTO contacts`: rows with the same primary key go.
unfoldable pub insert_or_replace : ContactRow → List ContactRow → List ContactRow
insert_or_replace row rows = select (λ r. not (text_eq r.peer_id row.peer_id)) rows ++ row ∷ []

unfoldable pub add : Contact → Exec Db (Unit {0})
unfolding insert_or_replace row_of
add c =
    write_transaction (exec (λ t. record t { contacts = insert_or_replace (row_of c) t.contacts }))

abbrev key_bytes : Option Bytes → Bytes
key_bytes none = []
key_bytes (some key) = key

unfoldable pub contact_of : ContactRow → Contact
contact_of r = record {
  peer_id = r.peer_id;
  public_key = key_bytes r.public_key;
  multiaddr = r.multiaddr;
  alias = r.alias;
  trusted = r.trusted;
  last_seen = r.last_seen;
  created_at = r.created_at;
}

-- `return contacts, nil`: what `rows.Err()` would say is not asked.
abbrev pub without_stop : Result (List Contact × Option Error) → Result (List Contact)
without_stop (ok (contacts, stop)) = ok contacts
without_stop (err e) = err e

unfoldable pub get_contacts : Engine → Exec Db (List Contact)
unfolding call read_rows contact_of
get_contacts engine db =
    let (queried, db₁) = call db in
    let (r, db₂) =
      read_rows (wrap "scan contact") contact_of (engine.scan ContactRow db₁.tables.contacts) db₁ in
    elim queried [ ok _ ↦ (without_stop r, db₂) | err e ↦ (err e, db₁) ]
