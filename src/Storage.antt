-- ===== src/Storage.antt =====
-- internal/storage: the SQLite database and its repositories. Here: the rows of each table, after
-- all of internal/storage/migrations, and the values that the repositories take and return.
pub mod Database
pub mod Messages
pub mod Contacts
pub mod Devices
use go_p2p_messenger.Base.{Text, Bytes, ℕ, ℤ, Bool, Option, none, some, List, []}

-- The bytes of a Go slice, which is `none` where it is nil.
unfoldable pub bytes_of : Option Bytes → Bytes
bytes_of none = []
bytes_of (some b) = b

-- `storage.Message`
pub record Message : Type 0 where
  pub id : Text
  pub conversation_id : Text
  pub sender_id : Text
  pub content : Option Bytes
  pub global_seq : ℤ
  pub sender_signature : Bytes
  pub sent_at : ℤ
  pub is_incoming : Bool
  pub status : Text
  pub delivered_at : Option ℤ
  pub read_at : Option ℤ

-- A row of `messages`, or the values bound to one. `id` is its primary key, `global_seq` is UNIQUE where
-- it is not NULL, and `content` is NOT NULL. A nil slice is bound as NULL.
pub record MessageRow : Type 0 where
  pub id : Text
  pub conversation_id : Text
  pub sender_id : Text
  pub content : Option Bytes
  pub global_seq : Option ℤ
  pub sender_signature : Bytes
  pub sent_at : ℤ
  pub is_incoming : Bool
  pub status : Text
  pub chat_id : Text
  pub timestamp : ℤ
  pub delivered_at : Option ℤ
  pub read_at : Option ℤ

-- `storage.ConversationSummary`
pub record ConversationSummary : Type 0 where
  pub conversation_id : Text
  pub last_content : Bytes
  pub last_sent_at : ℤ
  pub unread_count : ℕ

-- `storage.Contact`
pub record Contact : Type 0 where
  pub peer_id : Text
  pub public_key : Bytes
  pub multiaddr : Option Text
  pub alias : Option Text
  pub trusted : Bool
  pub last_seen : ℤ
  pub created_at : ℤ

-- A row of `contacts`, whose primary key is `peer_id`.
pub record ContactRow : Type 0 where
  pub peer_id : Text
  pub public_key : Option Bytes
  pub multiaddr : Option Text
  pub alias : Option Text
  pub trusted : Bool
  pub last_seen : ℤ
  pub created_at : ℤ

-- A row of `devices`; its primary key is `device_id`.
pub record DeviceRow : Type 0 where
  pub device_id : Text
  pub public_key : Bytes
  pub is_personal_node : Bool
  pub created_at : ℤ

-- A row of `device_sync_state`, whose primary key `device_id` refers to `devices`.
pub record DeviceSyncState : Type 0 where
  pub device_id : Text
  pub last_synced_seq : ℤ
  pub updated_at : ℤ

pub record Tables : Type 0 where
  pub messages : List MessageRow
  pub contacts : List ContactRow
  pub devices : List DeviceRow
  pub device_sync_state : List DeviceSyncState
