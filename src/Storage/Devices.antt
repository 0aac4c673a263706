-- ===== src/Storage/Devices.antt =====
-- internal/storage/repository.go: `DeviceSyncRepository`.
pub mod Laws
use go_p2p_messenger.Base.{
  ℤ, pos, Text, text_eq, Bool, true, false, Option, none, some, List, [], ◌∷◌, ◌++◌, any,
  if◌then◌else◌, Result, ok, err, message, Exec, ◌>>=◌, ◌>>◌,
}
use go_p2p_messenger.Storage.{DeviceRow, DeviceSyncState, Tables}
use go_p2p_messenger.Storage.Database.{Db, call, exec, write_transaction}

-- The row of `INSERT OR IGNORE INTO devices`.
abbrev pub device_row : Text → ℤ → DeviceRow
device_row device now = record {
  device_id = device;
  public_key = [];
  is_personal_node = false;
  created_at = now;
}

unfoldable pub knows_device : Text → List DeviceRow → Bool
knows_device device rows = any (λ d. text_eq d.device_id device) rows

unfoldable pub add_device : DeviceRow → List DeviceRow → List DeviceRow
unfolding knows_device
add_device row rows = if knows_device row.device_id rows then rows else rows ++ row ∷ []

-- `INSERT INTO device_sync_state … ON CONFLICT(device_id) DO UPDATE SET …`
unfoldable pub upsert : Text → ℤ → ℤ → List DeviceSyncState → List DeviceSyncState
upsert device seq now [] =
    record { device_id = device; last_synced_seq = seq; updated_at = now } ∷ []
upsert device seq now (s ∷ rest) =
    if text_eq s.device_id device
    then record s { last_synced_seq = seq; updated_at = now } ∷ rest
    else s ∷ upsert device seq now rest

-- The same behind its foreign key, which `foreign_keys(1)` turns on.
unfoldable pub upsert_checked : Text → ℤ → ℤ → Exec Db (Unit {0})
unfolding call knows_device upsert
upsert_checked device seq now = call >> λ db.
    if knows_device device db.tables.devices
    then (
      ok tt,
      record db {
        tables = record db.tables {
          device_sync_state = upsert device seq now db.tables.device_sync_state;
        };
      },
    )
    else (err (message "FOREIGN KEY constraint failed"), db)

unfoldable pub update_body : Text → ℤ → ℤ → Exec Db (Unit {0})
unfolding exec add_device upsert_checked
update_body device seq now =
    exec (λ t. record t { devices = add_device (device_row device now) t.devices })
    >> upsert_checked device seq now

unfoldable pub update_last_seq : Text → ℤ → ℤ → Exec Db (Unit {0})
unfolding write_transaction update_body
update_last_seq device seq now = write_transaction (update_body device seq now)

-- `SELECT last_synced_seq FROM device_sync_state WHERE device_id = ?`; `none` is `sql.ErrNoRows`.
unfoldable pub last_seq : Text → List DeviceSyncState → Option ℤ
last_seq device [] = none
last_seq device (s ∷ rest) =
    if text_eq s.device_id device then some s.last_synced_seq else last_seq device rest

abbrev pub or_zero : Option ℤ → ℤ
or_zero none = pos 0
or_zero (some seq) = seq

unfoldable pub get_last_seq : Text → Exec Db ℤ
unfolding call last_seq
get_last_seq device = call >> λ db. (ok (or_zero (last_seq device db.tables.device_sync_state)), db)
