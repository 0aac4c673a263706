-- ===== src/Api/Node.antt =====
-- internal/api/node.go: `NodeService`.
pub mod Watching
use go_p2p_messenger.Base.{
  ℕ, Text, Bytes, Bool, Option, none, some, List, [], ◌∷◌, Error, message, Result, ok, err, Exec,
}
use go_p2p_messenger.Transport.Reachability.{ReachabilityStatus, unknown}
use go_p2p_messenger.Event.{Bus, Payload, topic_node_reachability, subscribe, receive}
use go_p2p_messenger.Event
use go_p2p_messenger.Identity.{Crypto, Identity, Disk, device_id, generate}

module _ (c : Crypto) where
  pub record NodeService : Type 0 where
    pub ident : Identity c
    pub reachability : ReachabilityStatus

  pub record NodeStatus : Type 0 where
    pub device_id : Text
    pub reachability : ReachabilityStatus
    pub peer_count : ℕ

  -- `NewNodeService`, with the subscription that its goroutine makes first.
  unfoldable pub new_node_service : Identity c → Bus → NodeService × (ℕ × Bus)
  new_node_service ident b =
      (record { ident = ident; reachability = unknown }, subscribe topic_node_reachability b)

  -- The body of the loop of `watchReachability`.
  unfoldable pub observe : Payload → NodeService → NodeService
  observe (Event.reachability status) s = record s { reachability = status }
  observe (Event.message m) s = s
  observe (Event.sync m) s = s
  observe (Event.string m) s = s

  abbrev observed : Option (Payload × Bus) → NodeService × Bus → NodeService × Bus
  observed none s = s
  observed (some (payload, b)) (s, old) = (observe payload s, b)

  -- A round of `watchReachability` on its channel; nothing happens while the channel is empty.
  unfoldable pub watch_reachability : ℕ → NodeService × Bus → NodeService × Bus
  unfolding observe
  watch_reachability ch (s, b) = observed (receive ch b) (s, b)

  unfoldable pub get_status : NodeService → NodeStatus
  get_status s = record {
    device_id = device_id c s.ident;
    reachability = s.reachability;
    peer_count = 0;
  }

  unfoldable pub export_identity : NodeService → Result Bytes
  export_identity s = c.marshal s.ident.private_key

  unfoldable pub import_identity : Bytes → NodeService → Result (Unit {0}) × NodeService
  import_identity key s = (err (message "not implemented natively in NodeService yet"), s)

  -- After `s.idMgr.Generate()`.
  unfoldable pub adopt : Result (Identity c) → NodeService → Result NodeStatus × NodeService
  unfolding get_status
  adopt (err e) s = (err e, s)
  adopt (ok ident) s = let s' = record s { ident = ident } in (ok (get_status s'), s')

  unfoldable pub generate_new_identity :
      Bytes → NodeService × Disk → Result NodeStatus × (NodeService × Disk)
  unfolding adopt generate
  generate_new_identity entropy (s, d) =
      let (r, d') = generate c entropy d in let (status, s') = adopt r s in (status, (s', d'))
