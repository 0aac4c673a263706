-- ===== src/Api/Chat/Adding.antt =====
-- internal/api/chat.go: what `AddContact` leaves behind.
use go_p2p_messenger.Base.{
  ◌≡◌, ◌≢◌, ◌↔◌, ◌⊎◌, refl, ℤ, pos, true, none, In, pure, Text, Result, ok, err, wrap, map_error,
  and_then, ◌>>◌,
}
use go_p2p_messenger.Event.{topic_new_contact, publish}
use go_p2p_messenger.Event
use go_p2p_messenger.Storage.{ContactRow, Tables}
use go_p2p_messenger.Storage.Database.{Db}
use go_p2p_messenger.Storage.Contacts.{add, row_of}
use go_p2p_messenger.Storage.Contacts.Laws.{IsKeyed, IsAdded, add-IsAdded}
use go_p2p_messenger.State.{State, notify}
use go_p2p_messenger.Transport.{MessageTransport}
use go_p2p_messenger.Api.Chat.{contact_of, connect_ignored, add_contact}

-- The row of a contact that is added, by the columns.
abbrev pub new_row : Text → ℤ → ContactRow
new_row id now = record {
  peer_id = id;
  public_key = none;
  multiaddr = none;
  alias = none;
  trusted = true;
  last_seen = pos 0;
  created_at = now;
}

-- The contacts afterwards: the new row, and those of all other peers.
abbrev pub HasContact : Text → ℤ → Tables → Tables → Type 0
HasContact id now before after =
    ((r : ContactRow)
      → In r after.contacts ↔ ((r ≡ new_row id now) ⊎ (In r before.contacts × (r.peer_id ≢ id))))
    × IsKeyed after.contacts

added-HasContact :
    (id : Text) (now : ℤ) (before : Tables) (db : Db)
    → IsAdded (contact_of id now) before (ok tt, db)
    → HasContact id now before db.tables
unfolding row_of
added-HasContact id now before db h = h

module _ {T : Type 0} (transport : MessageTransport T) (show : Text → Text) (now : ℤ) where
  -- How `AddContact` may end: with an error, and nothing changed or started; or with the contact of the
  -- decoded id added and its id announced, and the transport as before; the goroutine that has been
  -- started then attempts a connection to that peer and does nothing else, in whatever state it runs.
  abbrev pub IsContactAdded : Result Text → State T → Result (State T → State T) × State T → Type 0
  IsContactAdded decoded s (err e, s') =
      (s'.db.tables ≡ s.db.tables) × (s'.bus ≡ s.bus) × (s'.tp ≡ s.tp)
  IsContactAdded decoded s (ok started, s') =
      (peer : Text) × (decoded ≡ ok peer)
      × HasContact (show peer) now s.db.tables s'.db.tables
      × (s'.bus ≡ publish topic_new_contact (Event.string (show peer)) s.bus)
      × (s'.tp ≡ s.tp)
      × ((x : State T) → started x ≡ record x { tp = (transport.connect peer x.tp).1 })

  -- After `s.contactRepo.Add(ctx, contact)`.
  stored-IsContactAdded :
      (peer : Text) (s : State T) (r : Result (Unit {0})) (db : Db)
      → IsAdded (contact_of (show peer) now) s.db.tables (r, db)
      → IsContactAdded (ok peer) s (
          and_then
            (λ u.
              notify topic_new_contact (Event.string (show peer))
              >> pure (connect_ignored transport peer))
            (map_error (wrap "save contact") r)
            (record s { db = db }))
  unfolding connect_ignored
  stored-IsContactAdded peer s (err e) db h = (h, refl, refl)
  stored-IsContactAdded peer s (ok u) db h =
      (peer, refl, added-HasContact (show peer) now s.db.tables db h, refl, refl, λ x. refl)

  -- Over a table with unique peers, whatever fails: `AddContact` returns an error and changes nothing; or
  -- the id was valid, the contacts are a trusted one of that id and those of all other peers, and the id
  -- was announced once. Then the transport is as before, and a goroutine has been started that, in
  -- whatever state it runs, attempts a connection to the peer and does nothing else.
  pub add_contact-IsContactAdded :
      (decoded : Result Text) (s : State T)
      → IsKeyed s.db.tables.contacts
      → IsContactAdded decoded s (add_contact transport show decoded now s)
  unfolding add_contact
  add_contact-IsContactAdded (err e) s k = (refl, refl, refl)
  add_contact-IsContactAdded (ok peer) s k =
      let c = contact_of (show peer) now in
      stored-IsContactAdded peer s (add c s.db).0 (add c s.db).1 (add-IsAdded c s.db k)
