-- ===== src/Sync/Engine/Schedule.antt =====
-- internal/sync/engine.go: when `run` stops.
use go_p2p_messenger.Base.{
  ◌≡◌, ◌≢◌, ◌↔◌, refl, ℤ, Text, Bool, true, false, Option, none, some, [], ◌∷◌, arith, Result, ok,
  err,
}
use go_p2p_messenger.State.{State}
use go_p2p_messenger.Identity.{Crypto, Identity}
use go_p2p_messenger.Sync.Wire.{Codec}
use go_p2p_messenger.Sync.Stream.{Stream}
use go_p2p_messenger.Sync.Engine.{returns, pause, sync_cycle, run_round}

pause-ne-returns : (o : Option (Result (Unit {0}))) → pause o ≢ some returns
unfolding pause
pause-ne-returns none h = ground (arith, h)
pause-ne-returns (some (ok u)) h = ground (arith, h)
pause-ne-returns (some (err e)) h = ground (arith, h)

module _ {T : Type 0} (c : Crypto) (codec : Codec) (ident : Identity c) (now stamp : ℤ) where
  -- The loop of `run` returns in a round exactly when a node is set and the context is done: with no node
  -- it goes on although the context is done, and after a cycle, however that ended, it goes on as well.
  pub run_round-returns_iff :
      (node : Text) (done : Bool) (opened : Result Stream) (s : State T)
      → ((run_round c codec ident now stamp node done opened s).0 ≡ some returns)
        ↔ ((node ≢ []) × (done ≡ true))
  unfolding run_round
  run_round-returns_iff [] done opened s =
      ((λ e. absurd (ground (arith, e))), (λ h. absurd (h.0 refl)))
  run_round-returns_iff (n ∷ node) true opened s = ((λ e. ((λ x. ground arith), refl)), (λ h. refl))
  run_round-returns_iff (n ∷ node) false opened s = (
    (λ x. absurd (pause-ne-returns (sync_cycle c codec ident now stamp opened s).0 x)),
    (λ h. absurd (ground (arith, h.1))),
  )
