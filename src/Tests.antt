-- ===== src/Tests.antt =====
-- Concrete data on which the theorems are applied: an engine that keeps the order of rows, toy keys, a
-- toy codec, and small tables.
mod Crypto
mod Codec
mod Tables
mod Carrier
mod Dialogue
mod Program
mod Hundred
mod Push
mod Success
mod Storage
mod Events
mod Messages
mod Sync
mod Screens
pub use Crypto.*
pub use Codec.*
pub use Tables.*
unfoldable pub use Carrier.*
