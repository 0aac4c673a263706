-- ===== src/Sync.antt =====
-- internal/sync: the synchronisation of a device with its Personal Node.
pub mod Wire
pub mod Stream
pub mod Server
pub mod Client
pub mod Engine
pub mod Dialogue
