-- ===== src/Transport/Reachability.antt =====
-- internal/transport/transport.go: the NAT status of the node.
pub data ReachabilityStatus : Type 0 where
  unknown public private : ReachabilityStatus
