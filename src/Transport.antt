-- ===== src/Transport.antt =====
-- internal/transport: the interface of transports, and its implementations.
pub mod Reachability
pub mod Mock
pub mod Libp2p
pub mod Host
pub mod Pex
pub mod Discovery
use go_p2p_messenger.Base.{Text, Bytes, Exec}

-- `MessageTransport`, of the operations that the services call, on a transport's state. `Subscribe` sets
-- the handler, of which each implementation makes its own use.
pub record MessageTransport (T : Type 0) : Type 0 where
  pub send : Text → Bytes → Exec T (Unit {0})
  pub connect : Text → Exec T (Unit {0})
