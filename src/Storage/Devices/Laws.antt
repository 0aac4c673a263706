-- ===== src/Storage/Devices/Laws.antt =====
-- internal/storage/repository.go: the progress that `UpdateLastSeq` records is what `GetLastSeq` reads.
use go_p2p_messenger.Base.{
  ◌≡◌, refl, sym, ◌∙◌, ap, inl, inr, ℤ, Text, text_eq, text_eq_iff, text_eq_refl, true, ◌||◌, some,
  List, [], ◌∷◌, ◌++◌, arith, any, if◌then◌else◌, All, All-imp, Result, ok, err, Bool-cases,
}
use go_p2p_messenger.Storage.{DeviceRow, DeviceSyncState, Tables}
use go_p2p_messenger.Storage.Database.{Db, call, answer, exec, with_tables}
use go_p2p_messenger.Storage.Database.Atomicity.{IsAtomic, write_transaction-IsAtomic}
use go_p2p_messenger.Storage.Devices.{
  device_row, knows_device, add_device, upsert, upsert_checked, update_body, update_last_seq,
  last_seq, get_last_seq, or_zero,
}

pub last_seq-upsert :
    (device other : Text) (seq now : ℤ) (rows : List DeviceSyncState)
    → last_seq other (upsert device seq now rows)
      ≡ (if text_eq device other then some seq else last_seq other rows)
unfolding last_seq upsert
last_seq-upsert device other seq now [] = refl
last_seq-upsert device other seq now (s ∷ rest) = ground (
  arith,
  last_seq-upsert device other seq now rest,
  text_eq_iff s.device_id device,
  text_eq_iff s.device_id other,
  text_eq_iff device other,
)

knows-append_last :
    (device : Text) (xs : List DeviceRow) (x : DeviceRow)
    → knows_device device (xs ++ x ∷ []) ≡ (knows_device device xs || text_eq x.device_id device)
unfolding knows_device any
knows-append_last device [] x = ground arith
knows-append_last device (y ∷ ys) x = ground (arith, knows-append_last device ys x)

knows-add_device :
    (row : DeviceRow) (device : Text) (rows : List DeviceRow)
    → knows_device device (add_device row rows)
      ≡ (knows_device device rows || text_eq row.device_id device)
unfolding add_device
knows-add_device row device rows =
    ground (arith, knows-append_last device rows row, text_eq_iff row.device_id device)

-- Every recorded progress is that of a known device.
abbrev pub IsReferential : Tables → Type 0
IsReferential t = All (λ s. knows_device s.device_id t.devices ≡ true) t.device_sync_state

-- The tables after a successful `UpdateLastSeq`.
abbrev pub updated : Text → ℤ → ℤ → Tables → Tables
updated device seq now t = record t {
  devices = add_device (device_row device now) t.devices;
  device_sync_state = upsert device seq now t.device_sync_state;
}

update_body_ok :
    (device : Text) (seq now : ℤ) (db : Db)
    → (update_body device seq now db).0 ≡ ok tt
    → (update_body device seq now db).1.tables ≡ updated device seq now db.tables
unfolding update_body exec call answer upsert_checked
update_body_ok device seq now db h = ground arith

-- The outcome of `UpdateLastSeq`: an error and the tables as before, or both rows written.
abbrev pub IsUpdated : Text → ℤ → ℤ → Tables → Result (Unit {0}) × Db → Type 0
IsUpdated device seq now before (err e, db) = db.tables ≡ before
IsUpdated device seq now before (ok u, db) = db.tables ≡ updated device seq now before

IsUpdated-of_IsAtomic :
    (device : Text) (seq now : ℤ) (before : Tables) (r : Result (Unit {0})) (db : Db)
    → IsAtomic (update_body device seq now) before (r, db)
    → IsUpdated device seq now before (r, db)
IsUpdated-of_IsAtomic device seq now before (err e) db h = h
IsUpdated-of_IsAtomic device seq now before (ok u) db h =
    sym h.2 ∙ update_body_ok device seq now (record { tables = before; outcomes = h.0 }) h.1

pub update_last_seq-IsUpdated :
    (device : Text) (seq now : ℤ) (db : Db)
    → IsUpdated device seq now db.tables (update_last_seq device seq now db)
unfolding update_last_seq
update_last_seq-IsUpdated device seq now db =
    IsUpdated-of_IsAtomic device seq now db.tables (update_last_seq device seq now db).0
      (update_last_seq device seq now db).1
      (write_transaction-IsAtomic (update_body device seq now) db)

pub update_last_seq_faultless :
    (device : Text) (seq now : ℤ) (t : Tables)
    → update_last_seq device seq now (with_tables t)
      ≡ (ok tt, with_tables (updated device seq now t))
unfolding update_last_seq update_body exec upsert_checked
update_last_seq_faultless device seq now t =
    ground (arith, knows-add_device (device_row device now) device t.devices, text_eq_refl device)

-- The progress that a device reads afterwards.
abbrev pub Reads : Text → ℤ → Tables → Result (Unit {0}) × Db → Type 0
Reads device seq before (err e, db) = db.tables ≡ before
Reads device seq before (ok u, db) =
    (other : Text)
    → last_seq other db.tables.device_sync_state
      ≡ (if text_eq device other then some seq else last_seq other before.device_sync_state)

Reads-of_IsUpdated :
    (device : Text) (seq now : ℤ) (before : Tables) (r : Result (Unit {0})) (db : Db)
    → IsUpdated device seq now before (r, db)
    → Reads device seq before (r, db)
Reads-of_IsUpdated device seq now before (err e) db h = h
Reads-of_IsUpdated device seq now before (ok u) db h = λ other.
    ap (λ (t : Tables). last_seq other t.device_sync_state) h
    ∙ last_seq-upsert device other seq now before.device_sync_state

-- After a successful `UpdateLastSeq` the device has the given sequence number, also where it is below
-- the old one, and every other device the one it had; after a failed one no table
-- has changed.
pub update_last_seq-Reads :
    (device : Text) (seq now : ℤ) (db : Db)
    → Reads device seq db.tables (update_last_seq device seq now db)
update_last_seq-Reads device seq now db =
    Reads-of_IsUpdated device seq now db.tables (update_last_seq device seq now db).0
      (update_last_seq device seq now db).1 (update_last_seq-IsUpdated device seq now db)

pub get_last_seq_faultless :
    (device : Text) (t : Tables)
    → get_last_seq device (with_tables t)
      ≡ (ok (or_zero (last_seq device t.device_sync_state)), with_tables t)
unfolding get_last_seq
get_last_seq_faultless device t = refl

All-upsert :
    (device : Text) (seq now : ℤ) (P : Text → Type 0) (rows : List DeviceSyncState)
    → P device
    → All (λ s. P s.device_id) rows
    → All (λ s. P s.device_id) (upsert device seq now rows)
unfolding upsert
All-upsert device seq now P [] p h = (p, tt)
All-upsert device seq now P (s ∷ rest) p h = elim (Bool-cases (text_eq s.device_id device)) [
  | inl t ↦ rw (t, upsert) (h.0, h.1)
  | inr f ↦ rw (f, upsert) (h.0, All-upsert device seq now P rest p h.1)
]

updated-IsReferential :
    (device : Text) (seq now : ℤ) (t : Tables)
    → IsReferential t
    → IsReferential (updated device seq now t)
updated-IsReferential device seq now t h =
    All-upsert device seq now
      (λ d. knows_device d (add_device (device_row device now) t.devices) ≡ true)
      t.device_sync_state
      (ground
        (arith, knows-add_device (device_row device now) device t.devices, text_eq_refl device))
      (All-imp (λ s. knows_device s.device_id t.devices ≡ true)
        (λ s. knows_device s.device_id (add_device (device_row device now) t.devices) ≡ true)
        (λ s k. ground (arith, knows-add_device (device_row device now) s.device_id t.devices))
        t.device_sync_state h)

IsReferential-of_IsUpdated :
    (device : Text) (seq now : ℤ) (before : Tables) (r : Result (Unit {0})) (db : Db)
    → IsUpdated device seq now before (r, db)
    → IsReferential before
    → IsReferential db.tables
IsReferential-of_IsUpdated device seq now before (err e) db u h = rw u h
IsReferential-of_IsUpdated device seq now before (ok v) db u h =
    rw u (updated-IsReferential device seq now before h)

-- `UpdateLastSeq` records progress of known devices only, whatever fails on the way.
pub update_last_seq-IsReferential :
    (device : Text) (seq now : ℤ) (db : Db)
    → IsReferential db.tables
    → IsReferential (update_last_seq device seq now db).1.tables
update_last_seq-IsReferential device seq now db =
    IsReferential-of_IsUpdated device seq now db.tables (update_last_seq device seq now db).0
      (update_last_seq device seq now db).1 (update_last_seq-IsUpdated device seq now db)
