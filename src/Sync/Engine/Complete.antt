-- ===== src/Sync/Engine/Complete.antt =====
-- internal/sync/engine.go: what a cycle that returns without an error has fetched.
use go_p2p_messenger.Base.{
  List, length, ◌⊎◌, ℕ, ◌≡◌, refl, sym, subst, ℤ, pos, Text, true, Option, none, some, [], arith,
  In, Result, ok, err, suc, codes,
}
use go_p2p_messenger.Storage.{MessageRow, bytes_of}
use go_p2p_messenger.Storage.Database.{Db, Engine}
use go_p2p_messenger.Storage.Messages.{eligible, seq_of, message_of}
use go_p2p_messenger.Storage.Messages.Save.{IsKeyed}
use go_p2p_messenger.State.{State}
use go_p2p_messenger.Sync.Wire.{Codec, CodecLaws}
use go_p2p_messenger.Sync.Client.{fetch_loop, Session, authenticate}
use go_p2p_messenger.Sync.Server.{sync_message_of, serve, Link}
use go_p2p_messenger.Sync.Dialogue.Refinement.{fetch_loop-serve-Dialogue, Connected}
use go_p2p_messenger.Sync.Dialogue.Complete.{Dialogue-complete, sent_as}
use go_p2p_messenger.Sync.Engine.{save_batch, sync_status, concluded, authenticated, sync_cycle}
use go_p2p_messenger.Sync.Engine.Held.{IsHeld, IsKnown}
use go_p2p_messenger.Identity.{Crypto, Identity, device_id}
use go_p2p_messenger.Sync.Stream.{Stream}
use go_p2p_messenger.Sync.Engine.Faults.{Has, save_batch-Keeps}

-- What a device is to have of a row of the node: a row with its id or its sequence number. Of a row with
-- empty content it has none: its content arrives as a nil slice.
abbrev pub HasRow : List MessageRow → MessageRow → Type 0
HasRow rows r = (bytes_of r.content ≡ []) ⊎ IsKnown rows r.id (seq_of r)

pub IsHeld-HasRow :
    (rows : List MessageRow) (r : MessageRow) → IsHeld rows (sent_as r) → HasRow rows r
unfolding sync_message_of message_of
IsHeld-HasRow rows r h = h

module _ {T : Type 0} where
  -- The device's loop with the callback that `syncCycle` gives it.
  fetched-Has :
      (engine : Engine) (codec : Codec) (id : Text) (now : ℤ) (rounds fuel : ℕ) (node : Link)
      (device : Session (State T)) (row : MessageRow)
      → let done = fetch_loop codec (save_batch id now) fuel device in
        CodecLaws codec
        → IsKeyed node.db.tables.messages
        → Connected device done.1 node (serve engine codec rounds node).1
        → done.0 ≡ some (ok tt)
        → In row node.db.tables.messages
        → eligible [] (pos 0) row ≡ true
        → Has done.1.store (sent_as row)
  fetched-Has engine codec id now rounds fuel node device row laws keyed connected returned i e =
      let done = fetch_loop codec (save_batch id now) fuel device in
      let rows = node.db.tables.messages in
      let (n, d, same) =
        fetch_loop-serve-Dialogue engine codec (save_batch id now) rounds fuel node device laws
          keyed connected returned in
      Dialogue-complete (save_batch id now) Has (save_batch-Keeps id now) rows [] n device.store
        done.1.store d tt row i e

  -- The loop of a cycle, as it begins once the device is authenticated.
  abbrev pub begun : Stream → State T → Session (State T)
  begun rest s = record { store = (sync_status (codes "started") s).1; stream = rest }

  module _ (c : Crypto) (codec : Codec) (ident : Identity c) (now stamp : ℤ) where
    abbrev pub fetched : Stream → State T → Option (Result (Unit {0})) × Session (State T)
    fetched rest s =
        fetch_loop codec (save_batch (device_id c ident) now) (suc (length rest.inbox))
          (begun rest s)

    concluded-ok :
        (o : Option (Result (Unit {0}))) (s : State T)
        → (concluded o s).0 ≡ some (ok tt)
        → (o ≡ some (ok tt)) × ((concluded o s).1.db ≡ s.db)
    unfolding concluded
    concluded-ok none s h = absurd (ground (arith, h))
    concluded-ok (some (ok u)) s h = (refl, refl)
    concluded-ok (some (err e)) s h = absurd (ground (arith, h))

    authenticated-ok :
        (rest : Stream) (r : Result (Unit {0})) (s : State T)
        → (authenticated c codec ident now stamp rest r s).0 ≡ some (ok tt)
        → ((fetched rest s).0 ≡ some (ok tt))
          × ((authenticated c codec ident now stamp rest r s).1.db ≡ (fetched rest s).1.store.db)
    unfolding authenticated
    authenticated-ok rest (err e) s h = absurd (ground (arith, h))
    authenticated-ok rest (ok u) s h = concluded-ok (fetched rest s).0 (fetched rest s).1.store h

    -- A cycle on an open stream, and the node's loop over a table with unique ids and sequence numbers:
    -- after the handshake each finds in the stream what the other sends, and calls of the drivers and of the
    -- stream fail in any way. When the cycle returns without an error, then for every message of the node
    -- with a positive sequence number and a content that is not empty, the device has a stored row with its
    -- id or its sequence number.
    pub sync_cycle_complete :
        (engine : Engine) (rounds : ℕ) (node : Link) (stream : Stream) (s : State T)
        (row : MessageRow)
        → let rest = (authenticate c codec ident now stamp stream).1 in
          let cycle = sync_cycle c codec ident now stamp (ok stream) s in
          CodecLaws codec
          → IsKeyed node.db.tables.messages
          → Connected (begun rest s) (fetched rest s).1 node (serve engine codec rounds node).1
          → cycle.0 ≡ some (ok tt)
          → In row node.db.tables.messages
          → eligible [] (pos 0) row ≡ true
          → HasRow cycle.1.db.tables.messages row
    unfolding sync_cycle
    sync_cycle_complete engine rounds node stream s row laws keyed connected returned i e =
        let (r, rest) = authenticate c codec ident now stamp stream in
        let (h, same) = authenticated-ok rest r s returned in
        subst (λ (db : Db). HasRow db.tables.messages row) (sym same)
          (IsHeld-HasRow (fetched rest s).1.store.db.tables.messages row (
            fetched-Has engine codec (device_id c ident) now rounds (suc (length rest.inbox)) node
              (begun rest s) row laws keyed connected h i e))
