-- ===== src/Sync/Engine/Working.antt =====
-- internal/sync/engine.go: the loop of a cycle where the driver and the stream work and one response is
-- enough.
use go_p2p_messenger.Base.{
  ℕ, suc, ◌≡◌, refl, sym, ap, ℤ, Text, Bytes, false, some, List, [], ◌∷◌, ◌++◌, All, ok, append-nil,
  ◌∙◌,
}
use go_p2p_messenger.Event.{Bus}
use go_p2p_messenger.Storage.{Tables}
use go_p2p_messenger.Sync.Wire.{FetchResponse, SyncMessage, Codec}
use go_p2p_messenger.Sync.Stream.Exchange.{connected, write_msg-connected, read_msg-connected}
use go_p2p_messenger.Sync.Client.{Session, fetch_all, keep, received, round, looped, fetch_loop}
use go_p2p_messenger.Sync.Engine.{save_batch, save_each, record_progress, last_global_seq}
use go_p2p_messenger.Sync.Engine.Held.{IsCovered}
use go_p2p_messenger.Sync.Engine.Batch.{working, announced_all, save_batch_again}
use go_p2p_messenger.State.{State}

module _ {T : Type 0} (codec : Codec) (device : Text) (now : ℤ) where
  abbrev at : State T → List Bytes → List Bytes → Session (State T)
  at s inbox outbox = record { store = s; stream = connected inbox outbox }

  save_nothing : (s s' : State T) → save_batch device now [] s ≡ (ok tt, s') → s ≡ s'
  unfolding save_batch save_each record_progress last_global_seq
  save_nothing s s' e = ap (λ p. p.1) e

  keep-works :
      (ms : List SyncMessage) (max : ℤ) (acked : Bytes) (s s' : State T) (inbox outbox : List Bytes)
      → codec.ack.encode (record { acked_seq = max }) ≡ ok acked
      → save_batch device now ms s ≡ (ok tt, s')
      → (acks : List Bytes) × (keep codec (save_batch device now) max ms (at s inbox outbox)
          ≡ (ok tt, at s' inbox (outbox ++ acks)))
  unfolding keep
  keep-works [] max acked s s' inbox outbox e saves = (
    [],
    ap (λ o. (ok tt, at s inbox o)) (sym (append-nil outbox))
        ∙ ap (λ x. (ok tt, at x inbox (outbox ++ []))) (save_nothing s s' saves),
  )
  keep-works (m ∷ ms) max acked s s' inbox outbox e saves = (
    acked ∷ [],
    rw saves
        (rw (write_msg-connected codec.ack (record { acked_seq = max }) acked inbox outbox e) refl),
  )

  module _ (fuel : ℕ) (resp : FetchResponse) (asked answer acked : Bytes)
      (inbox outbox : List Bytes) (asks : codec.fetch.encode fetch_all ≡ ok asked)
      (answers : codec.fetched.decode answer ≡ ok resp)
      (acks_it : codec.ack.encode (record { acked_seq = resp.max_seq }) ≡ ok acked)
      (last : resp.has_more ≡ false) where
    -- One response without more: the loop reads it, keeps its messages and returns.
    pub fetch_loop-connected :
        (s s' : State T)
        → save_batch device now resp.messages s ≡ (ok tt, s')
        → (acks : List Bytes) × (fetch_loop codec
              (save_batch device now)
              (suc fuel)
              (at s (answer ∷ inbox) outbox)
            ≡ (some (ok tt), at s' inbox ((outbox ++ asked ∷ []) ++ acks)))
    unfolding fetch_loop round received looped
    fetch_loop-connected s s' saves =
        let (acks, kept) =
          keep-works resp.messages resp.max_seq acked s s' inbox (outbox ++ asked ∷ []) acks_it
            saves in
        (
          acks,
          rw (write_msg-connected codec.fetch fetch_all asked (answer ∷ inbox) outbox asks) (
              rw (read_msg-connected codec.fetched resp answer inbox (outbox ++ asked ∷ []) answers)
                (rw (kept, last) refl)),
        )

    -- With a driver and a stream that work, and a response without more, of which the device has every
    -- message: the loop returns without an error, it stores no message and changes none, and it announces
    -- every one of the messages again.
    pub fetch_loop_again :
        (t : Tables) (b : Bus) (tp : T)
        → All (IsCovered t.messages) resp.messages
        → (t' : Tables) × (acks : List Bytes) × (fetch_loop codec
              (save_batch device now)
              (suc fuel)
              (at (working t b tp) (answer ∷ inbox) outbox)
            ≡ (
              some (ok tt),
              at
                  (working t' (announced_all resp.messages b) tp)
                  inbox
                  ((outbox ++ asked ∷ []) ++ acks),
            ))
          × (t'.messages ≡ t.messages)
    fetch_loop_again t b tp h =
        let (t', saves, same) = save_batch_again device now resp.messages t b tp h in
        let (acks, runs) =
          fetch_loop-connected (working t b tp) (working t' (announced_all resp.messages b) tp)
            saves in
        (t', acks, runs, same)
