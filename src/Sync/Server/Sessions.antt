-- ===== src/Sync/Server/Sessions.antt =====
-- internal/sync/server.go: the state of `PersonalNodeServer`, `HandleSyncStream` in the steps between
-- which other goroutines may run, and `PushNewMessage`.
use go_p2p_messenger.Base.{
  ℕ, ℤ, Text, Bytes, codes, text_eq, Bool, false, not, ◌&&◌, Option, none, some, List, [], ◌∷◌,
  ◌==◌, if◌then◌else◌, select, any, Result, ok, err, In,
}
use go_p2p_messenger.Storage.{Message}
use go_p2p_messenger.Storage.Database.{Engine, Db}
use go_p2p_messenger.Identity.{Crypto}
use go_p2p_messenger.Sync.Wire.{Codec}
use go_p2p_messenger.Sync.Stream.{Stream, End, closed, silent, waiting, write_msg}
use go_p2p_messenger.Sync.Server.{sync_message_of, send_auth_result, authenticate, serve_once}

-- A stream is its number; `sessions` is the map from peers, and `handlers` are the calls of
-- `HandleSyncStream` that are in their main loop, each with its stream and its peer.
pub record PersonalNode : Type 0 where
  pub db : Db
  pub streams : ℕ → Stream
  pub sessions : List (Text × ℕ)
  pub handlers : List (ℕ × Text)

-- `s.trustedIDs[remotePeer]`
unfoldable pub is_trusted : List Text → Text → Bool
is_trusted trusted peer = any (λ id. text_eq id peer) trusted

-- `s.sessions[remotePeer]`
unfoldable pub session : Text → List (Text × ℕ) → Option ℕ
session peer [] = none
session peer ((p, k) ∷ rest) = if text_eq p peer then some k else session peer rest

-- `delete(s.sessions, remotePeer)`
unfoldable pub unregister : Text → List (Text × ℕ) → List (Text × ℕ)
unregister peer sessions = select (λ (p : Text × ℕ). not (text_eq p.0 peer)) sessions

-- `s.sessions[remotePeer] = rw`
unfoldable pub register : Text → ℕ → List (Text × ℕ) → List (Text × ℕ)
unfolding unregister
register peer k sessions = (peer, k) ∷ unregister peer sessions

abbrev pub set_stream : ℕ → Stream → (ℕ → Stream) → ℕ → Stream
set_stream k s streams j = if k == j then s else streams j

-- The return of a handler takes one entry away.
unfoldable pub leave : ℕ → Text → List (ℕ × Text) → List (ℕ × Text)
leave k peer handlers = select (λ (h : ℕ × Text). not (h.0 == k && text_eq h.1 peer)) handlers

-- After `s.authenticate(rw, remotePeer)`.
unfoldable pub admitted : Text → ℕ → Result (Unit {0}) → PersonalNode → PersonalNode
unfolding register
admitted peer k (err e) node = node
admitted peer k (ok u) node = record node {
  sessions = register peer k node.sessions;
  handlers = (k, peer) ∷ node.handlers;
}

module _ (engine : Engine) (c : Crypto) (codec : Codec) (trusted : List Text) where
  -- `HandleSyncStream` up to its main loop.
  unfoldable pub accept : Text → ℕ → Bytes → ℤ → PersonalNode → PersonalNode
  unfolding is_trusted admitted authenticate send_auth_result
  accept peer k nonce now node =
      let (r, s) = authenticate c codec peer nonce now (node.streams k) in
      let (r', s') =
        send_auth_result c codec false (codes "device not registered") (node.streams k) in
      if is_trusted trusted peer
      then admitted peer k r (record node { streams = set_stream k s node.streams })
      else record node { streams = set_stream k s' node.streams }

  -- After a round of the main loop: an error ends the handler and runs its deferred function.
  unfoldable pub continued : Text → ℕ → Result (Unit {0}) → PersonalNode → PersonalNode
  unfolding unregister leave
  continued peer k (ok u) node = node
  continued peer k (err e) node = record node {
    sessions = unregister peer node.sessions;
    handlers = leave k peer node.handlers;
  }

  -- The state after a round, and before it where its read waits.
  unfoldable pub resumed : End → PersonalNode → PersonalNode → PersonalNode
  resumed closed node next = next
  resumed silent node next = next
  resumed waiting node next = node

  -- A round of the main loop. Where its read waits, nothing happens yet.
  unfoldable pub turn : Text → ℕ → PersonalNode → PersonalNode
  unfolding continued serve_once resumed
  turn peer k node =
      let (r, l) = serve_once engine codec (record { db = node.db; stream = node.streams k }) in
      resumed l.stream.ending node (
        continued peer k r
          (record node { db = l.db; streams = set_stream k l.stream node.streams }))

  -- The loop of `PushNewMessage`, which ignores failed writes. Go visits the map in any order; each
  -- stream is written to on its own.
  unfoldable pub push_all : Message → List (Text × ℕ) → (ℕ → Stream) → ℕ → Stream
  unfolding sync_message_of
  push_all m [] streams = streams
  push_all m ((peer, k) ∷ rest) streams =
      let (r, s) = write_msg codec.push (sync_message_of m) (streams k) in
      push_all m rest (set_stream k s streams)

  unfoldable pub push_new_message : Message → PersonalNode → PersonalNode
  unfolding push_all
  push_new_message m node = record node { streams = push_all m node.sessions node.streams }

  -- What may happen next: a new stream, a round of a running handler, a push, something on a stream
  -- that its peer does, or a change of the database by another part of the program.
  pub data Step : PersonalNode → PersonalNode → Type 0 where
    accepts :
        (node : PersonalNode) (peer : Text) (k : ℕ) (nonce : Bytes) (now : ℤ)
        → Step node (accept peer k nonce now node)
    turns :
        (node : PersonalNode) (peer : Text) (k : ℕ)
        → In (k, peer) node.handlers
        → Step node (turn peer k node)
    pushes : (node : PersonalNode) (m : Message) → Step node (push_new_message m node)
    arrives :
        (node : PersonalNode) (k : ℕ) (s : Stream)
        → Step node (record node { streams = set_stream k s node.streams })
    stores : (node : PersonalNode) (db : Db) → Step node (record node { db = db })

  -- `NewPersonalNodeServer`
  unfoldable pub new_server : Db → (ℕ → Stream) → PersonalNode
  new_server db streams = record { db = db; streams = streams; sessions = []; handlers = [] }

  pub data Reachable : PersonalNode → Type 0 where
    starts : (db : Db) (streams : ℕ → Stream) → Reachable (new_server db streams)
    steps : (node next : PersonalNode) → Reachable node → Step node next → Reachable next
