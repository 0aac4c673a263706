-- ===== src/Storage/Contacts/Laws.antt =====
-- internal/storage/repository.go: what `Add` and `GetContacts` do.
use go_p2p_messenger.Base.{
  ◌≡◌, ◌≢◌, refl, inl, inr, ◌⊎◌, ◌↔◌, text_eq, text_eq_iff, Bool, true, not, Option, none, some,
  List, [], ◌∷◌, map, arith, select, In, In-select, In-select_inv, In-append_left, In-append_right,
  In-append_cases, All, AllPairs, AllPairs-append, AllPairs-select, All-of_In, Result, ok, err,
  Error, wrap, ℕ, zero, suc, take,
}
use go_p2p_messenger.Storage.{Contact, ContactRow, Tables}
use go_p2p_messenger.Storage.Database.{Engine, Db, read_rows, with_tables}
use go_p2p_messenger.Storage.Database.Atomicity.{Changes, exec-Changes}
use go_p2p_messenger.Storage.Database.Queries.{read_rows_faultless}
use go_p2p_messenger.Storage.Contacts.{
  row_of, insert_or_replace, add, contact_of, without_stop, get_contacts,
}

-- The primary key.
abbrev pub IsKeyed : List ContactRow → Type 0
IsKeyed rows = AllPairs (λ r s. r.peer_id ≢ s.peer_id) rows

abbrev other : ContactRow → ContactRow → Bool
other row r = not (text_eq r.peer_id row.peer_id)

other-ne : (row r : ContactRow) → other row r ≡ true → r.peer_id ≢ row.peer_id
other-ne row r h e = ground (arith, text_eq_iff r.peer_id row.peer_id)

ne-other : (row r : ContactRow) → r.peer_id ≢ row.peer_id → other row r ≡ true
ne-other row r h = ground (arith, text_eq_iff r.peer_id row.peer_id)

pub insert_or_replace-IsKeyed :
    (row : ContactRow) (rows : List ContactRow)
    → IsKeyed rows
    → IsKeyed (insert_or_replace row rows)
unfolding insert_or_replace
insert_or_replace-IsKeyed row rows k =
    AllPairs-append (λ r s. r.peer_id ≢ s.peer_id) (select (other row) rows) (row ∷ [])
      (AllPairs-select (λ r s. r.peer_id ≢ s.peer_id) (other row) rows k) (tt, tt)
      (All-of_In (λ r. All (λ s. r.peer_id ≢ s.peer_id) (row ∷ [])) (select (other row) rows)
        (λ r h. (other-ne row r (In-select_inv (other row) r rows h).1, tt)))

In-insert_or_replace :
    (row r : ContactRow) (rows : List ContactRow)
    → In r (insert_or_replace row rows) ↔ ((r ≡ row) ⊎ (In r rows × (r.peer_id ≢ row.peer_id)))
unfolding insert_or_replace
In-insert_or_replace row r rows = (
  λ h. elim (In-append_cases r (select (other row) rows) (row ∷ []) h) [
    | inl i ↦ (let p = In-select_inv (other row) r rows i in inr (p.0, other-ne row r p.1))
    | inr (inl e) ↦ inl e
    | inr (inr n) ↦ absurd n
  ],
  λ h. elim h [
    | inl e ↦ In-append_right r (select (other row) rows) (row ∷ []) (inl e)
    | inr (i, n) ↦
        In-append_left r (select (other row) rows) (row ∷ [])
          (In-select (other row) r rows i (ne-other row r n))
  ],
)

abbrev pub added : Contact → Tables → Tables
added c t = record t { contacts = insert_or_replace (row_of c) t.contacts }

add-Changes : (c : Contact) (db : Db) → Changes (added c) db.tables (add c db)
unfolding add
add-Changes c db = exec-Changes (added c) db

-- What the table of contacts holds after `Add`: as before if it returns an error; the new row and the
-- rows of all other peers if it returns none. Peers stay unique.
abbrev pub IsAdded : Contact → Tables → Result (Unit {0}) × Db → Type 0
IsAdded c before (err e, db) = db.tables ≡ before
IsAdded c before (ok u, db) =
    ((r : ContactRow)
      → In r db.tables.contacts
        ↔ ((r ≡ row_of c) ⊎ (In r before.contacts × (r.peer_id ≢ c.peer_id))))
    × IsKeyed db.tables.contacts

IsAdded-of_Changes :
    (c : Contact) (before : Tables) (r : Result (Unit {0})) (db : Db)
    → IsKeyed before.contacts
    → Changes (added c) before (r, db)
    → IsAdded c before (r, db)
unfolding row_of
IsAdded-of_Changes c before (err e) db k h = h
IsAdded-of_Changes c before (ok u) db k h = (
  λ r. rw h (In-insert_or_replace (row_of c) r before.contacts),
  rw h (insert_or_replace-IsKeyed (row_of c) before.contacts k),
)

-- On a table with unique peers `Add` replaces exactly the contact of its peer, or returns an error and
-- changes nothing.
pub add-IsAdded :
    (c : Contact) (db : Db) → IsKeyed db.tables.contacts → IsAdded c db.tables (add c db)
add-IsAdded c db k = IsAdded-of_Changes c db.tables (add c db).0 (add c db).1 k (add-Changes c db)

pub get_contacts_faultless :
    (engine : Engine) (t : Tables)
    → get_contacts engine (with_tables t)
      ≡ (ok (map contact_of (engine.scan ContactRow t.contacts)), with_tables t)
unfolding get_contacts
get_contacts_faultless engine t = ground (
  arith,
  read_rows_faultless (wrap "scan contact") contact_of (engine.scan ContactRow t.contacts) t,
)

-- Outcomes that let `k` rows be read and then go on as `rest` says.
abbrev pub after_rows : ℕ → List (Option Error) → List (Option Error)
after_rows zero rest = rest
after_rows (suc k) rest = none ∷ none ∷ after_rows k rest

read_rows_stops :
    (k : ℕ) (rows : List ContactRow) (t : Tables) (e : Error) (rest : List (Option Error))
    → without_stop
        (read_rows
          (wrap "scan contact")
          contact_of
          rows
          (record { tables = t; outcomes = after_rows k (some e ∷ rest) })).0
      ≡ ok (map contact_of (take k rows))
unfolding read_rows
read_rows_stops zero [] t e rest = refl
read_rows_stops (suc k) [] t e rest = refl
read_rows_stops zero (r ∷ rows) t e rest = refl
read_rows_stops (suc k) (r ∷ rows) t e rest = ground (arith, read_rows_stops k rows t e rest)

-- If the query breaks off with an error after `k` rows then `GetContacts` returns these `k` contacts and
-- no error.
pub get_contacts_truncates :
    (engine : Engine) (t : Tables) (k : ℕ) (e : Error) (rest : List (Option Error))
    → (get_contacts engine
        (record { tables = t; outcomes = none ∷ after_rows k (some e ∷ rest) })).0
      ≡ ok (map contact_of (take k (engine.scan ContactRow t.contacts)))
unfolding get_contacts
get_contacts_truncates engine t k e rest =
    read_rows_stops k (engine.scan ContactRow t.contacts) t e rest
