-- ===== src/Sync/Server/Registry.antt =====
-- internal/sync/server.go: which streams are registered for pushes.
use go_p2p_messenger.Base.{
  ℕ, ◌≡◌, ◌≢◌, refl, inl, inr, ◌⊎◌, ℤ, Text, Bytes, text_eq, text_eq_iff, true, not, ◌&&◌, none,
  List, [], ◌∷◌, ◌==◌, arith, select, In, In-select, All, All-imp, All-select, All-of_In, All-In,
  In-select_inv, Result, ok, err, Error, Bool-cases,
}
use go_p2p_messenger.Storage.{Message}
use go_p2p_messenger.Storage.Database.{Engine}
use go_p2p_messenger.Identity.{Crypto}
use go_p2p_messenger.Sync.Wire.{Codec}
use go_p2p_messenger.Sync.Stream.{Stream, End, closed, silent, waiting, write_msg}
use go_p2p_messenger.Sync.Server.{sync_message_of, authenticate, serve_once}
use go_p2p_messenger.Sync.Server.Sessions.{
  PersonalNode, is_trusted, session, unregister, register, set_stream, leave, admitted, accept,
  continued, resumed, turn, push_all, push_new_message, Step, accepts, turns, pushes, arrives,
  stores, new_server, Reachable, starts, steps,
}

In-leave :
    (k j : ℕ) (peer other : Text) (handlers : List (ℕ × Text))
    → In (j, other) handlers
    → (j ≢ k) ⊎ (other ≢ peer)
    → In (j, other) (leave k peer handlers)
unfolding leave
In-leave k j peer other handlers i d =
    In-select (λ (h : ℕ × Text). not (h.0 == k && text_eq h.1 peer)) (j, other) handlers i
      (elim d [
        | inl n ↦ ground (arith, text_eq_iff other peer)
        | inr n ↦ ground (arith, text_eq_iff other peer)
      ])

session-unregister :
    (peer : Text) (sessions : List (Text × ℕ)) → session peer (unregister peer sessions) ≡ none
unfolding session unregister select
session-unregister peer [] = refl
session-unregister peer ((p, k) ∷ rest) = ground (arith, session-unregister peer rest)

find_stream :
    (j : ℕ) (sessions : List (Text × ℕ))
    → ((peer : Text) × In (peer, j) sessions) ⊎ All (λ (p : Text × ℕ). p.1 ≢ j) sessions
find_stream j [] = inr tt
find_stream j ((peer, k) ∷ rest) = elim (Bool-cases (k == j)) [
  | inl t ↦ inl (peer, inl (ground arith))
  | inr f ↦ elim (find_stream j rest) [
    | inl (p, i) ↦ inl (p, inr i)
    | inr n ↦ inr (ground arith, n)
  ]
]

module _ (trusted : List Text) where
  -- A session is that of a trusted peer, whose handler is running.
  abbrev pub IsServed : PersonalNode → Text × ℕ → Type 0
  IsServed node entry = (is_trusted trusted entry.0 ≡ true) × In (entry.1, entry.0) node.handlers

  abbrev pub IsRegistry : PersonalNode → Type 0
  IsRegistry node = All (IsServed node) node.sessions

  unregister-IsRegistry :
      (peer : Text) (k : ℕ) (sessions : List (Text × ℕ)) (handlers : List (ℕ × Text))
      → All (λ (p : Text × ℕ). (is_trusted trusted p.0 ≡ true) × In (p.1, p.0) handlers) sessions
      → All
          (λ (p : Text × ℕ).
            (is_trusted trusted p.0 ≡ true) × In (p.1, p.0) (leave k peer handlers))
          (unregister peer sessions)
  unfolding unregister
  unregister-IsRegistry peer k sessions handlers h =
      All-of_In
        (λ (p : Text × ℕ). (is_trusted trusted p.0 ≡ true) × In (p.1, p.0) (leave k peer handlers))
        (unregister peer sessions)
        (λ p i.
          let (j, n) = In-select_inv (λ (p : Text × ℕ). not (text_eq p.0 peer)) p sessions i in
          let (t, r) =
            All-In (λ (p : Text × ℕ). (is_trusted trusted p.0 ≡ true) × In (p.1, p.0) handlers) p
              sessions h j in
          (t, In-leave k p.1 peer p.0 handlers r (inr (ground (arith, n, text_eq_iff p.0 peer)))))

  admitted-IsRegistry :
      (peer : Text) (k : ℕ) (r : Result (Unit {0})) (node : PersonalNode)
      → is_trusted trusted peer ≡ true
      → IsRegistry node
      → IsRegistry (admitted peer k r node)
  unfolding admitted register
  admitted-IsRegistry peer k (err e) node t h = h
  admitted-IsRegistry peer k (ok u) node t h = (
    (t, inl refl),
    All-select
        (λ (p : Text × ℕ).
          (is_trusted trusted p.0 ≡ true) × In (p.1, p.0) ((k, peer) ∷ node.handlers))
        (λ (p : Text × ℕ). not (text_eq p.0 peer)) node.sessions
        (All-imp (IsServed node)
          (λ (p : Text × ℕ).
            (is_trusted trusted p.0 ≡ true) × In (p.1, p.0) ((k, peer) ∷ node.handlers))
          (λ p i. (i.0, inr i.1)) node.sessions h),
  )

  module _ (engine : Engine) (c : Crypto) (codec : Codec) where
    accept-IsRegistry :
        (peer : Text) (k : ℕ) (nonce : Bytes) (now : ℤ) (node : PersonalNode)
        → IsRegistry node
        → IsRegistry (accept engine c codec trusted peer k nonce now node)
    unfolding accept
    accept-IsRegistry peer k nonce now node h = elim (Bool-cases (is_trusted trusted peer)) [
      | inl t ↦
          rw (t, accept)
            (let (r, s) = authenticate c codec peer nonce now (node.streams k) in
              admitted-IsRegistry peer k r (record node { streams = set_stream k s node.streams }) t
                h)
      | inr f ↦ rw (f, accept) h
    ]

    continued-IsRegistry :
        (peer : Text) (k : ℕ) (r : Result (Unit {0})) (node : PersonalNode)
        → IsRegistry node
        → IsRegistry (continued engine c codec trusted peer k r node)
    unfolding continued
    continued-IsRegistry peer k (ok u) node h = h
    continued-IsRegistry peer k (err e) node h =
        unregister-IsRegistry peer k node.sessions node.handlers h

    resumed-IsRegistry :
        (end : End) (node next : PersonalNode)
        → IsRegistry node
        → IsRegistry next
        → IsRegistry (resumed engine c codec trusted end node next)
    unfolding resumed
    resumed-IsRegistry closed node next h k = k
    resumed-IsRegistry silent node next h k = k
    resumed-IsRegistry waiting node next h k = h

    resumed_next :
        (end : End) (node next : PersonalNode)
        → end ≢ waiting
        → resumed engine c codec trusted end node next ≡ next
    unfolding resumed
    resumed_next closed node next h = refl
    resumed_next silent node next h = refl
    resumed_next waiting node next h = absurd (h refl)

    Step-IsRegistry :
        (node next : PersonalNode)
        → IsRegistry node
        → Step engine c codec trusted node next
        → IsRegistry next
    unfolding turn push_new_message
    Step-IsRegistry node next h (accepts _ peer k nonce now) =
        accept-IsRegistry peer k nonce now node h
    Step-IsRegistry node next h (turns _ peer k i) =
        let (r, l) = serve_once engine codec (record { db = node.db; stream = node.streams k }) in
        let after : PersonalNode = record node {
          db = l.db;
          streams = set_stream k l.stream node.streams;
        } in
        resumed-IsRegistry l.stream.ending node (continued engine c codec trusted peer k r after) h
          (continued-IsRegistry peer k r after h)
    Step-IsRegistry node next h (pushes _ m) = h
    Step-IsRegistry node next h (arrives _ k s) = h
    Step-IsRegistry node next h (stores _ db) = h

    -- In whatever order streams open, handlers run, pushes happen and peers write: every stream that is
    -- registered for pushes is registered under a peer on the list of trusted ones, and the handler of
    -- that stream and peer is running.
    pub Reachable-IsRegistry :
        (node : PersonalNode) → Reachable engine c codec trusted node → IsRegistry node
    unfolding new_server
    Reachable-IsRegistry node (starts db streams) = tt
    Reachable-IsRegistry node (steps before _ r s) =
        Step-IsRegistry before node (Reachable-IsRegistry before r) s

    -- When a round on one of two streams of a peer fails, and not by waiting in its read, so that its handler
    -- returns, the peer has no session any more, although the handler of its other stream goes on.
    pub turn-unregisters :
        (node : PersonalNode) (peer : Text) (k other : ℕ) (e : Error)
        → (serve_once engine codec (record { db = node.db; stream = node.streams k })).0 ≡ err e
        → (serve_once engine codec
            (record { db = node.db; stream = node.streams k })).1.stream.ending
          ≢ waiting
        → In (other, peer) node.handlers
        → other ≢ k
        → (session peer (turn engine c codec trusted peer k node).sessions ≡ none)
          × In (other, peer) (turn engine c codec trusted peer k node).handlers
    unfolding turn
    turn-unregisters node peer k other e x w i d =
        let (r, l) = serve_once engine codec (record { db = node.db; stream = node.streams k }) in
        let after : PersonalNode = record node {
          db = l.db;
          streams = set_stream k l.stream node.streams;
        } in
        rw (resumed_next l.stream.ending node (continued engine c codec trusted peer k r after) w) (
          rw (x, continued)
            (
              session-unregister peer node.sessions,
              In-leave k other peer peer node.handlers i (inl d),
            ))

    push_all-other :
        (m : Message) (sessions : List (Text × ℕ)) (streams : ℕ → Stream) (j : ℕ)
        → All (λ (p : Text × ℕ). p.1 ≢ j) sessions
        → push_all engine c codec trusted m sessions streams j ≡ streams j
    unfolding push_all
    push_all-other m [] streams j h = refl
    push_all-other m ((peer, k) ∷ rest) streams j h = ground (
      arith,
      push_all-other m rest
          (set_stream k (write_msg codec.push (sync_message_of m) (streams k)).1 streams) j h.1,
    )

    -- In every reachable state of the server, a push changes no stream but those whose handler is running
    -- for a trusted peer.
    pub push-IsServed :
        (node : PersonalNode) (m : Message) (j : ℕ)
        → Reachable engine c codec trusted node
        → (push_new_message engine c codec trusted m node).streams j ≢ node.streams j
        → (peer : Text) × (is_trusted trusted peer ≡ true) × In (j, peer) node.handlers
    unfolding push_new_message
    push-IsServed node m j r d = elim (find_stream j node.sessions) [
      | inl (peer, i) ↦
          let (t, h) =
            All-In (IsServed node) (peer, j) node.sessions (Reachable-IsRegistry node r) i in
          (peer, t, h)
      | inr n ↦ absurd (d (push_all-other m node.sessions node.streams j n))
    ]
