-- ===== src/Api/Node/Watching.antt =====
-- internal/api/node.go and internal/transport/discovery.go: how a change of reachability gets to the
-- status.
use go_p2p_messenger.Base.{ℕ, ◌≡◌, ◌∙◌, refl, true, some, [], ◌∷◌}
use go_p2p_messenger.Event.{
  Bus, capacity, publish, receive, take_first, listens, topic_node_reachability,
}
use go_p2p_messenger.Event
use go_p2p_messenger.Event.Invariant.{IsValid}
use go_p2p_messenger.Event.Delivery.{publish-buffer}
use go_p2p_messenger.Identity.{Crypto}
use go_p2p_messenger.Transport.Discovery.{
  NetworkReachability, changed, status_of, handle_host_event,
}
use go_p2p_messenger.Api.Node.{NodeService, observe, watch_reachability, get_status}

module _ (c : Crypto) where
  receive-published :
      (b : Bus) (ch : ℕ) (payload : Event.Payload)
      → b.buffer ch ≡ payload ∷ []
      → (receive ch b ≡ some (payload, record b { buffer = Event.update b.buffer ch [] }))
  unfolding receive take_first
  receive-published b ch payload h = rw (h, take_first) refl

  -- On a valid bus where the service's channel listens and is empty: once AutoNAT has announced a change
  -- and the service has run a round of its loop, its status shows the new reachability.
  pub watch_reachability-shows :
      (s : NodeService c) (b : Bus) (ch : ℕ) (r : NetworkReachability)
      → IsValid b
      → listens b topic_node_reachability ch ≡ true
      → b.buffer ch ≡ []
      → (get_status c
          (watch_reachability c ch (
            s,
            (handle_host_event {S = Unit {0}} (λ x u. u) (changed r) (tt, b)).1,
          )).0).reachability
        ≡ status_of r
  unfolding handle_host_event watch_reachability observe get_status
  watch_reachability-shows s b ch r v l e =
      rw
        (receive-published (publish topic_node_reachability (Event.reachability (status_of r)) b) ch
          (Event.reachability (status_of r))
          (publish-buffer topic_node_reachability (Event.reachability (status_of r)) b ch v
            ∙ rw (l, e) refl))
        refl
