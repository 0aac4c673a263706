-- ===== src/Sync/Engine/Faults.antt =====
-- internal/sync/engine.go: what a batch that is saved without an error leaves, whatever calls fail.
use go_p2p_messenger.Base.{
  ◌≡◌, refl, sym, subst, ◌∙◌, ap, ℤ, Text, Option, none, some, List, [], ◌∷◌, arith, All, Result,
  ok, err, and_then, ◌>>◌,
}
use go_p2p_messenger.Event.{publish, topic_new_message}
use go_p2p_messenger.Event
use go_p2p_messenger.Storage.{Tables}
use go_p2p_messenger.Storage.Database.{Db}
use go_p2p_messenger.Storage.Messages.{row_of, save}
use go_p2p_messenger.Storage.Messages.Save.{saved, save-ok}
use go_p2p_messenger.Storage.Devices.{update_last_seq}
use go_p2p_messenger.Storage.Devices.Laws.{IsUpdated, update_last_seq-IsUpdated}
use go_p2p_messenger.State.{State, notify}
use go_p2p_messenger.Sync.Wire.{SyncMessage}
use go_p2p_messenger.Sync.Dialogue.Complete.{Keeps}
use go_p2p_messenger.Sync.Engine.{
  received_message, received_event, save_each, record_progress, save_batch, last_global_seq,
}
use go_p2p_messenger.Sync.Engine.Held.{IsHeld, insert-IsHeld, insert-keeps_IsHeld}

updated-messages :
    (device : Text) (seq now : ℤ) (before : Tables) (r : Result (Unit {0})) (db : Db)
    → IsUpdated device seq now before (r, db)
    → db.tables.messages ≡ before.messages
updated-messages device seq now before (ok u) db h = ap (λ (t : Tables). t.messages) h
updated-messages device seq now before (err e) db h = ap (λ (t : Tables). t.messages) h

module _ {T : Type 0} where
  abbrev pub Has : State T → SyncMessage → Type 0
  Has s m = IsHeld s.db.tables.messages m

  -- The messages of the tables: none lost, and those of a batch there.
  abbrev Covers : List SyncMessage → State T → State T → Type 0
  Covers ms s s' = All (Has s') ms × ((m : SyncMessage) → Has s m → Has s' m)

  abbrev announced : SyncMessage → Db → State T → State T
  announced m db s = record s {
    db = db;
    bus = publish topic_new_message (Event.message (received_event m)) s.bus;
  }

  -- After the save of a message.
  goes_on :
      (m : SyncMessage) (ms : List SyncMessage) (s s' : State T) (r : Result (Unit {0})) (db : Db)
      → and_then
          (λ u. notify topic_new_message (Event.message (received_event m)) >> save_each ms)
          r
          (record s { db = db })
        ≡ (ok tt, s')
      → (r ≡ ok tt) × (save_each ms (announced m db s) ≡ (ok tt, s'))
  goes_on m ms s s' (ok u) db h = (refl, h)
  goes_on m ms s s' (err e) db h = absurd (ground (arith, ap (λ p. p.0) h))

  announced-Covers :
      (m : SyncMessage) (db : Db) (s : State T)
      → db.tables ≡ saved (received_message m) s.db.tables
      → Covers (m ∷ []) s (announced m db s)
  announced-Covers m db s e = (
    (
      subst (λ (t : Tables). IsHeld t.messages m) (sym e) (insert-IsHeld m s.db.tables.messages),
      tt,
    ),
    λ x k.
        subst (λ (t : Tables). IsHeld t.messages x) (sym e)
          (insert-keeps_IsHeld (row_of (received_message m)) x s.db.tables.messages k),
  )

  save_each-Covers :
      (ms : List SyncMessage) (s s' : State T) → save_each ms s ≡ (ok tt, s') → Covers ms s s'
  unfolding save_each
  save_each-Covers [] s s' h = (tt, λ m k. subst (λ x. Has x m) (ap (λ p. p.1) h) k)
  save_each-Covers (m ∷ ms) s s' h =
      let (r, db) = save (received_message m) s.db in
      let (e, g) = goes_on m ms s s' r db h in
      let a = announced-Covers m db s (save-ok (received_message m) s.db e) in
      let b = save_each-Covers ms (announced m db s) s' g in
      ((b.1 m a.0.0, b.0), λ x k. b.1 x (a.1 x k))

  record_progress-messages :
      (device : Text) (now : ℤ) (last : Option ℤ) (s : State T)
      → (record_progress device now last s).1.db.tables.messages ≡ s.db.tables.messages
  unfolding record_progress
  record_progress-messages device now none s = refl
  record_progress-messages device now (some seq) s =
      let (r, db) = update_last_seq device seq now s.db in
      updated-messages device seq now s.db.tables r db
        (update_last_seq-IsUpdated device seq now s.db)

  -- After the saves.
  recorded :
      (device : Text) (now : ℤ) (last : Option ℤ) (s s' : State T) (r : Result (Unit {0}))
      → and_then (λ u. record_progress device now last) r s ≡ (ok tt, s')
      → (r ≡ ok tt) × (s'.db.tables.messages ≡ s.db.tables.messages)
  recorded device now last s s' (ok u) h =
      (refl, sym (ap (λ p. p.1.db.tables.messages) h) ∙ record_progress-messages device now last s)
  recorded device now last s s' (err e) h = absurd (ground (arith, ap (λ p. p.0) h))

  save_batch-Covers :
      (device : Text) (now : ℤ) (ms : List SyncMessage) (s s' : State T)
      → save_batch device now ms s ≡ (ok tt, s')
      → Covers ms s s'
  unfolding save_batch
  save_batch-Covers device now ms s s' h =
      let (r, mid) = save_each ms s in
      let (e, same) = recorded device now (last_global_seq ms) mid s' r h in
      let (a, b) = save_each-Covers ms s mid (ap (λ x. (x, mid)) e) in
      (
        subst (λ rows. All (IsHeld rows) ms) (sym same) a,
        λ m k. subst (λ rows. IsHeld rows m) (sym same) (b m k),
      )

  pub save_batch-Keeps : (device : Text) (now : ℤ) → Keeps (save_batch {T = T} device now) Has
  save_batch-Keeps device now = record {
    adds = λ ms s s' h. (save_batch-Covers device now ms s s' h).0;
    loses_none = λ ms m s s' h k. (save_batch-Covers device now ms s s' h).1 m k;
  }
