-- ===== src/Sync/Dialogue/Push.antt =====
-- internal/sync/server.go and internal/sync/client.go: a push on the stream of a device that is in
-- `FetchLoop`, which reads each frame as a response.
use go_p2p_messenger.Base.{
  ℕ, suc, ◌≡◌, refl, sym, ◌∙◌, ap, subst, inl, inr, Bool-cases, Text, Bytes, false, some, List, [],
  ◌∷◌, ◌++◌, All, All-append, append_assoc, append-nil, Result, ok, err, Exec, arith, ◌==◌, pos,
}
use mathlib.Core.List.{append_cancel_left}
use go_p2p_messenger.Storage.{Message}
use go_p2p_messenger.Storage.Database.{Engine}
use go_p2p_messenger.Identity.{Crypto}
use go_p2p_messenger.Sync.Wire.{SyncMessage, Codec, IsPushedByNumber}
use go_p2p_messenger.Sync.Stream.{Stream, write_msg}
use go_p2p_messenger.Sync.Stream.Exchange.{
  connected, IsWritten, write_msg-IsWritten, write_msg-connected, read_msg-connected,
}
use go_p2p_messenger.Sync.Server.{sync_message_of}
use go_p2p_messenger.Sync.Server.Sessions.{PersonalNode, set_stream, push_all, push_new_message}
use go_p2p_messenger.Sync.Client.{fetch_all, keep, received, round, looped, fetch_loop}

module _ (codec : Codec) where
  abbrev IsPush : Message → Bytes → Type 0
  IsPush m frame = codec.push.encode (sync_message_of m) ≡ ok frame

  -- What is written to a stream from one state of it to another.
  abbrev Pushed : Message → Stream → Stream → Type 0
  Pushed m s s' = (frames : List Bytes) × (s'.outbox ≡ s.outbox ++ frames) × All (IsPush m) frames

  Pushed-trans :
      (m : Message) (s s' s'' : Stream) → Pushed m s s' → Pushed m s' s'' → Pushed m s s''
  Pushed-trans m s s' s'' (fs, e, h) (gs, e', h') = (
    fs ++ gs,
    e' ∙ ap (λ x. x ++ gs) e ∙ append_assoc s.outbox fs gs,
    All-append (IsPush m) fs gs h h',
  )

  Pushed-refl : (m : Message) (s : Stream) → Pushed m s s
  Pushed-refl m s = ([], sym (append-nil s.outbox), tt)

  Pushed-of_write :
      (m : Message) (s s' : Stream) (r : Result (Unit {0}))
      → IsWritten codec.push (sync_message_of m) s (r, s')
      → Pushed m s s'
  Pushed-of_write m s s' (ok u) (frame, e, o, i) = (frame ∷ [], o, (e, tt))
  Pushed-of_write m s s' (err e) (o, i) = ([], o ∙ sym (append-nil s.outbox), tt)

  Pushed-set_stream :
      (m : Message) (k j : ℕ) (s : Stream) (streams : ℕ → Stream)
      → Pushed m (streams k) s
      → Pushed m (streams j) (set_stream k s streams j)
  Pushed-set_stream m k j s streams h = elim (Bool-cases (k == j)) [
    | inl e ↦
        let same : k ≡ j = ground (arith, e) in rw e (subst (λ i. Pushed m (streams i) s) same h)
    | inr e ↦ rw e (Pushed-refl m (streams j))
  ]

  module _ (engine : Engine) (c : Crypto) (trusted : List Text) where
    push_all-Pushed :
        (m : Message) (sessions : List (Text × ℕ)) (streams : ℕ → Stream) (j : ℕ)
        → Pushed m (streams j) (push_all engine c codec trusted m sessions streams j)
    unfolding push_all
    push_all-Pushed m [] streams j = Pushed-refl m (streams j)
    push_all-Pushed m ((peer, k) ∷ rest) streams j =
        let (r, s) = write_msg codec.push (sync_message_of m) (streams k) in
        let next = set_stream k s streams in
        Pushed-trans m (streams j) (next j) (push_all engine c codec trusted m rest next j)
          (Pushed-set_stream m k j s streams (
            Pushed-of_write m (streams k) s r
              (write_msg-IsWritten codec.push (sync_message_of m) (streams k))))
          (push_all-Pushed m rest next j)

    -- The first frame of a push on a stream is the message's.
    first-IsPush :
        (m : Message) (node : PersonalNode) (j : ℕ) (frame : Bytes) (rest : List Bytes)
        → ((push_new_message engine c codec trusted m node).streams j).outbox
          ≡ (node.streams j).outbox ++ frame ∷ rest
        → IsPush m frame
    unfolding push_new_message
    first-IsPush m node j frame rest e =
        let (frames, o, h) = push_all-Pushed m node.sessions node.streams j in
        (subst (All (IsPush m))
          (append_cancel_left (node.streams j).outbox frames (frame ∷ rest) (sym o ∙ e)) h).0

module _ {S : Type 0} (codec : Codec) (save_batch : List SyncMessage → Exec S (Unit {0})) where
  -- The loop of a device on a stream that works: it reads a push and takes it for a last response.
  push_read :
      (fuel : ℕ) (m : SyncMessage) (frame asked acked : Bytes) (later sent : List Bytes) (s s' : S)
      → codec.fetched.decode frame
        ≡ ok (record { messages = m ∷ []; max_seq = pos 0; has_more = false })
      → codec.fetch.encode fetch_all ≡ ok asked
      → codec.ack.encode (record { acked_seq = pos 0 }) ≡ ok acked
      → save_batch (m ∷ []) s ≡ (ok tt, s')
      → fetch_loop codec save_batch
          (suc fuel)
          (record { store = s; stream = connected (frame ∷ later) sent })
        ≡ (
          some (ok tt),
          record { store = s'; stream = connected later ((sent ++ asked ∷ []) ++ acked ∷ []) },
        )
  unfolding fetch_loop round received keep looped
  push_read fuel m frame asked acked later sent s s' d q a v =
      rw (write_msg-connected codec.fetch fetch_all asked (frame ∷ later) sent q) (
        rw
          (read_msg-connected codec.fetched
            (record { messages = m ∷ []; max_seq = pos 0; has_more = false }) frame later
            (sent ++ asked ∷ []) d)
          (rw v (
            rw
              (write_msg-connected codec.ack (record { acked_seq = pos 0 }) acked later
                (sent ++ asked ∷ []) a)
              refl)))

  -- A push that a device in `FetchLoop` reads before the answer to its request, on a stream that works:
  -- where the callback saves the pushed message, the loop ends at once without an error. Of what the node
  -- has, the device has got this message alone; it has acknowledged 0, and what follows the push is left
  -- unread.
  pub push-ends_loop :
      (engine : Engine) (c : Crypto) (trusted : List Text) (m : Message) (node : PersonalNode)
      (j : ℕ) (fuel : ℕ) (frame asked acked : Bytes) (pushed later sent : List Bytes) (s s' : S)
      → IsPushedByNumber codec
      → codec.fetch.encode fetch_all ≡ ok asked
      → codec.ack.encode (record { acked_seq = pos 0 }) ≡ ok acked
      → ((push_new_message engine c codec trusted m node).streams j).outbox
        ≡ (node.streams j).outbox ++ frame ∷ pushed
      → save_batch (sync_message_of m ∷ []) s ≡ (ok tt, s')
      → fetch_loop codec save_batch
          (suc fuel)
          (record { store = s; stream = connected (frame ∷ (pushed ++ later)) sent })
        ≡ (
          some (ok tt),
          record {
            store = s';
            stream = connected (pushed ++ later) ((sent ++ asked ∷ []) ++ acked ∷ []);
          },
        )
  push-ends_loop engine c trusted m node j fuel frame asked acked pushed later sent s s' law q a o
        v =
      push_read fuel (sync_message_of m) frame asked acked (pushed ++ later) sent s s'
        (law (sync_message_of m) frame
          (first-IsPush codec engine c trusted m node j frame pushed o))
        q a v
