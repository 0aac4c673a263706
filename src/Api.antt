-- ===== src/Api.antt =====
-- internal/api: the services behind the user interface.
pub mod Chat
pub mod Node
