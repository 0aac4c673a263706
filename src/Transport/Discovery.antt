-- ===== src/Transport/Discovery.antt =====
-- internal/transport/discovery.go: what the handlers do with the events of mDNS and of AutoNAT.
use go_p2p_messenger.Base.{
  Text, text_eq, if◌then◌else◌, Result, ok, err, wrap, Exec, wrapping, pure, ◌>>=◌, ◌>>◌,
}
use go_p2p_messenger.Transport.Reachability.{ReachabilityStatus, unknown, public, private}
use go_p2p_messenger.Transport.Pex.{AddrInfo}
use go_p2p_messenger.Event.{Bus, publish, topic_node_reachability}
use go_p2p_messenger.Event

-- `HandlePeerFound`: whether the peer is handed to the callback.
unfoldable pub handle_peer_found : {S : Type 0} → Text → (AddrInfo → S → S) → AddrInfo → S → S
handle_peer_found own handler pi s = if text_eq pi.id own then s else handler pi s

-- `network.Reachability` of go-libp2p.
pub data NetworkReachability : Type 0 where
  net_unknown : NetworkReachability
  net_public : NetworkReachability
  net_private : NetworkReachability

unfoldable pub status_of : NetworkReachability → ReachabilityStatus
status_of net_public = public
status_of net_private = private
status_of net_unknown = unknown

-- What arrives on the host's event bus: a change of reachability or another event.
pub data HostEvent : Type 0 where
  changed : NetworkReachability → HostEvent
  other : HostEvent

-- The goroutine of `SetupAutoNAT` on one event; `on_changed` is its callback, which may change the bus's
-- owner's own state.
unfoldable pub handle_host_event :
    {S : Type 0} → (ReachabilityStatus → S → S) → HostEvent → S × Bus → S × Bus
unfolding status_of publish
handle_host_event on_changed other (s, b) = (s, b)
handle_host_event on_changed (changed r) (s, b) = (
  on_changed (status_of r) s,
  publish topic_node_reachability (Event.reachability (status_of r)) b,
)

-- `StartMDNS`, with the host's own id; `start` is `svc.Start()` of a service that calls the notifee. The
-- service is its notifee.
unfoldable pub start_mdns :
    {S : Type 0}
    → Text
    → (AddrInfo → S → S)
    → ((AddrInfo → S → S) → Result (Unit {0}))
    → Result (AddrInfo → S → S)
unfolding handle_peer_found
start_mdns own on_found start = elim (start (handle_peer_found own on_found)) [
  | err e ↦ err (wrap "start mdns" e)
  | ok u ↦ ok (handle_peer_found own on_found)
]

-- go-libp2p-kad-dht on the state of a network.
pub record Dht (W : Type 0) : Type 1 where
  pub Handle : Type 0
  pub new_dual : Exec W Handle
  pub bootstrap : Handle → Exec W (Unit {0})
  pub find_peer : Handle → Text → Exec W AddrInfo

module _ {W : Type 0} (d : Dht W) where
  -- `NewDHTDiscovery`
  unfoldable pub new_dht_discovery : Exec W d.Handle
  new_dht_discovery = wrapping "create dual dht" d.new_dual >>= λ dht.
      wrapping "bootstrap dht" (d.bootstrap dht) >> pure dht

  -- `FindPeer`
  unfoldable pub find_peer : d.Handle → Text → Exec W AddrInfo
  find_peer dht id = d.find_peer dht id

  -- `Provide`
  unfoldable pub provide : d.Handle → Exec W (Unit {0})
  provide dht w = (ok tt, w)
