-- ===== src/Sync/Engine/Cycle.antt =====
-- internal/sync/engine.go: how `syncCycle` ends, and what it says of it.
use go_p2p_messenger.Base.{
  inl, inr, ◌⊎◌, Error, ◌≡◌, refl, suc, ℤ, codes, Option, none, some, arith, length, Result, ok,
  err,
}
use go_p2p_messenger.Event.{publish, topic_sync_status}
use go_p2p_messenger.Event
use go_p2p_messenger.State.{State}
use go_p2p_messenger.Identity.{Crypto, Identity, device_id}
use go_p2p_messenger.Sync.Wire.{Codec}
use go_p2p_messenger.Sync.Stream.{Stream, End, closed, silent, waiting, unless_waiting}
use go_p2p_messenger.Sync.Client.{Session, authenticate, fetch_loop}
use go_p2p_messenger.Sync.Client.Loop.{IsOver, fetch_loop-ends}
use go_p2p_messenger.Sync.Engine.{save_batch, concluded, authenticated, sync_cycle}

module _ {T : Type 0} (c : Crypto) (codec : Codec) (ident : Identity c) (now stamp : ℤ) where
  -- The end of a cycle after the loop on a stream, which has left `l`: it returns, and the status that it
  -- published last tells whether it failed; or the loop waits in a read, and nothing more is published.
  abbrev pub Concludes : Session (State T) → Option (Result (Unit {0})) × State T → Type 0
  Concludes l (none, s) = (l.stream.ending ≡ waiting) × (s ≡ l.store)
  Concludes l (some (ok u), s) = s ≡ record l.store {
    bus =
        publish topic_sync_status (Event.sync (record { status = codes "completed" })) l.store.bus;
  }
  Concludes l (some (err e), s) = s ≡ record l.store {
    bus = publish topic_sync_status (Event.sync (record { status = codes "failed" })) l.store.bus;
  }

  concluded-Concludes :
      (o : Option (Result (Unit {0}))) (l : Session (State T))
      → IsOver codec (save_batch (device_id c ident) now) (o, l)
      → Concludes l (concluded o l.store)
  unfolding concluded
  concluded-Concludes none l (inl (r, h)) = absurd (ground (arith, h))
  concluded-Concludes none l (inr h) = (h, refl)
  concluded-Concludes (some (ok u)) l h = refl
  concluded-Concludes (some (err e)) l h = refl

  -- The loop's state and stream as it begins: `started` has been published.
  abbrev pub started : Stream → State T → Session (State T)
  started stream s = record {
    store = record s {
      bus = publish topic_sync_status (Event.sync (record { status = codes "started" })) s.bus;
    };
    stream = stream;
  }

  -- What fetching the messages leaves behind.
  abbrev pub fetching : Stream → State T → Session (State T)
  fetching stream s =
      (fetch_loop codec (save_batch (device_id c ident) now) (suc (length stream.inbox))
        (started stream s)).1

  -- How a cycle may go from an open stream: authentication fails, and so does the cycle, and nothing is
  -- changed or published, or it waits in a read; or it succeeds, and the cycle concludes what was fetched.
  abbrev pub IsCycle :
      Stream → Result (Unit {0}) → State T → Option (Result (Unit {0})) × State T → Type 0
  IsCycle stream (err e) s out =
      (out ≡ (some (err e), s)) ⊎ ((stream.ending ≡ waiting) × (out ≡ (none, s)))
  IsCycle stream (ok u) s out = Concludes (fetching stream s) out

  failed-IsCycle :
      (stream : Stream) (e : Error) (s : State T) (x : End)
      → stream.ending ≡ x
      → ◌≡◌ {A = Option (Result (Unit {0})) × State T}
          (unless_waiting x (err e), s)
          (some (err e), s)
        ⊎ ((x ≡ waiting)
            × ◌≡◌ {A = Option (Result (Unit {0})) × State T}
                (unless_waiting x (err e), s)
                (none, s))
  unfolding unless_waiting
  failed-IsCycle stream e s closed h = inl refl
  failed-IsCycle stream e s silent h = inl refl
  failed-IsCycle stream e s waiting h = inr (refl, refl)

  authenticated-IsCycle :
      (stream : Stream) (r : Result (Unit {0})) (s : State T)
      → IsCycle stream r s (authenticated c codec ident now stamp stream r s)
  unfolding authenticated
  authenticated-IsCycle stream (err e) s = failed-IsCycle stream e s stream.ending refl
  authenticated-IsCycle stream (ok u) s =
      let (o, l) =
        fetch_loop codec (save_batch (device_id c ident) now) (suc (length stream.inbox))
          (started stream s) in
      concluded-Concludes o l (
        fetch_loop-ends codec (save_batch (device_id c ident) now) (suc (length stream.inbox))
          (started stream s) (omega arith))

  -- A cycle on an open stream returns, unless one of its reads waits for a frame that the node does not
  -- send. When authentication fails it returns that error, and no state has changed. Otherwise it has
  -- published `started`, and at the end `completed` where it returns no error and `failed` where it does.
  -- Where a read waits it has published no such end, and its state is the one after the batches before.
  pub sync_cycle-IsCycle :
      (stream : Stream) (s : State T)
      → let (r, rest) = authenticate c codec ident now stamp stream in
        IsCycle rest r s (sync_cycle c codec ident now stamp (ok stream) s)
  unfolding sync_cycle
  sync_cycle-IsCycle stream s =
      let (r, rest) = authenticate c codec ident now stamp stream in authenticated-IsCycle rest r s
