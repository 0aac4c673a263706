-- ===== src/Tests/Sync.antt =====
-- The theorems on internal/sync with toy keys and a toy codec.
use go_p2p_messenger.Base.{
  ℕ, pos, ltb_ℤ, any, text_eq, Bytes, codes, true, false, none, some, List, [], ◌∷◌, All, In, inl,
  ◌≡◌, ◌≢◌, ◌↔◌, refl, ap, arith, wrap, ok, err,
}
use go_p2p_messenger.Event.{new_bus, publish, topic_new_message}
use go_p2p_messenger.Event
use go_p2p_messenger.Storage.{Tables}
use go_p2p_messenger.Storage.Database.{with_tables}
use go_p2p_messenger.State.{State}
use go_p2p_messenger.Identity.{device_id}
use go_p2p_messenger.Sync.Wire.{AuthResponse, SyncMessage}
use go_p2p_messenger.Sync.Stream.{Stream, silent, waiting, reached, eof, read_msg, write_msg}
use go_p2p_messenger.Sync.Stream.Exchange.{connected}
use go_p2p_messenger.Sync.Server.{Link, challenge_of, handle_fetch, serve_once, serve}
use go_p2p_messenger.Sync.Server
use go_p2p_messenger.Sync.Server.Fetch.{IsAnswered, handle_fetch-IsAnswered}
use go_p2p_messenger.Sync.Server.Handshake.{Proves, authenticate-Proves}
use go_p2p_messenger.Sync.Server.Trace.{IsSession, serve-IsSession}
use go_p2p_messenger.Sync.Server.Sessions.{
  PersonalNode, session, accept, turn, new_server, accepts, Reachable, starts, steps,
}
use go_p2p_messenger.Sync.Server.Registry.{IsRegistry, Reachable-IsRegistry, turn-unregisters}
use go_p2p_messenger.Sync.Client.{fetch_loop, authenticate}
use go_p2p_messenger.Sync.Client.Handshake.{IsIdentity, proof_of, handshake-succeeds}
use go_p2p_messenger.Sync.Client.Loop.{IsOver, fetch_loop-ends}
use go_p2p_messenger.Sync.Engine.{returns, run_round, save_batch, sync_cycle}
use go_p2p_messenger.Sync.Engine.Held.{IsHeld}
use go_p2p_messenger.Sync.Engine.Progress.{HasAdvanced}
use go_p2p_messenger.Sync.Engine.Batch.{
  announcement_of, save_batch_drops, announced_all, working, save_batch-saves,
}
use go_p2p_messenger.Sync.Engine.Schedule.{run_round-returns_iff}
use go_p2p_messenger.Sync.Engine.Cycle.{IsCycle, sync_cycle-IsCycle}
use go_p2p_messenger.Tests.{
  toy, toy_laws, alice, toy_codec, toy_codec_laws, sending_codec, in_order, bob, two_rows-IsKeyed,
  two_messages,
}

abbrev link : Link
link = record { db = with_tables two_messages; stream = connected [] [] }

handle_fetch-IsAnswered_example :
    IsAnswered in_order sending_codec
      (record { after_seq = pos 0; limit = 1 })
      link
      (handle_fetch in_order sending_codec (record { after_seq = pos 0; limit = 1 }) link)
handle_fetch-IsAnswered_example =
    handle_fetch-IsAnswered in_order sending_codec (record { after_seq = pos 0; limit = 1 }) link
      two_rows-IsKeyed

-- The nonce is 4 5, the challenge expires at 61, and the response is of time 2.
abbrev challenge_frame : Bytes
challenge_frame = 61 ∷ 4 ∷ 5 ∷ []

abbrev response_frame : Bytes
response_frame = 2 ∷ 1 ∷ 7 ∷ 7 ∷ 4 ∷ 5 ∷ []

abbrev result_frame : Bytes
result_frame = 1 ∷ []

alice-IsIdentity : IsIdentity toy toy_codec alice
alice-IsIdentity = record {
  entropy = 0 ∷ 0 ∷ 0 ∷ 0 ∷ 0 ∷ 0 ∷ 0 ∷ [];
  generated = refl;
  own_id = refl;
}

not_expired : ltb_ℤ (challenge_of (4 ∷ 5 ∷ []) (pos 1)).expires_at (pos 2) ≡ false
unfolding challenge_of
not_expired = refl

first_frame : toy_codec.challenge.encode (challenge_of (4 ∷ 5 ∷ []) (pos 1)) ≡ ok challenge_frame
unfolding challenge_of
first_frame = refl

second_frame :
    toy_codec.response.encode (proof_of toy toy_codec alice (7 ∷ 4 ∷ 5 ∷ []) (pos 2))
    ≡ ok response_frame
unfolding device_id
second_frame = refl

handshake_runs :
    (Server.authenticate toy toy_codec
        (7 ∷ [])
        (4 ∷ 5 ∷ [])
        (pos 1)
        (connected (response_frame ∷ []) [])
      ≡ (ok tt, connected [] (challenge_frame ∷ result_frame ∷ [])))
    × (authenticate toy toy_codec alice
          (pos 2)
          (pos 2)
          (connected (challenge_frame ∷ result_frame ∷ []) [])
        ≡ (ok tt, connected [] (response_frame ∷ [])))
handshake_runs =
    handshake-succeeds toy toy_codec alice (4 ∷ 5 ∷ []) (7 ∷ 4 ∷ 5 ∷ []) (pos 1) (pos 2) (pos 2)
      challenge_frame response_frame result_frame toy_laws toy_codec_laws alice-IsIdentity
      not_expired refl first_frame second_frame refl

authenticate-Proves_example :
    (frame : Bytes) × (rest : List Bytes) × (resp : AuthResponse) × (response_frame ∷ []
      ≡ frame ∷ rest)
    × (toy_codec.response.decode frame ≡ ok resp)
    × Proves toy toy_codec (7 ∷ []) (4 ∷ 5 ∷ []) (pos 1) resp
authenticate-Proves_example =
    authenticate-Proves toy toy_codec (7 ∷ []) (4 ∷ 5 ∷ []) (pos 1)
      (connected (response_frame ∷ []) []) (ap (λ p. p.0) handshake_runs.0)

abbrev asking : Link
asking = record link { stream = connected ((0 ∷ 1 ∷ []) ∷ (2 ∷ []) ∷ []) [] }

serve-IsSession_example :
    IsSession in_order sending_codec asking (serve in_order sending_codec 3 asking).1
serve-IsSession_example = serve-IsSession in_order sending_codec 3 asking two_rows-IsKeyed

abbrev streams : ℕ → Stream
streams k = connected (response_frame ∷ []) []

abbrev node : PersonalNode
node = new_server in_order toy toy_codec ((7 ∷ []) ∷ []) (with_tables two_messages) streams

abbrev node₁ : PersonalNode
node₁ = accept in_order toy toy_codec ((7 ∷ []) ∷ []) (7 ∷ []) 0 (4 ∷ 5 ∷ []) (pos 1) node

abbrev node₂ : PersonalNode
node₂ = accept in_order toy toy_codec ((7 ∷ []) ∷ []) (7 ∷ []) 1 (4 ∷ 5 ∷ []) (pos 1) node₁

node₂-Reachable : Reachable in_order toy toy_codec ((7 ∷ []) ∷ []) node₂
node₂-Reachable =
    steps node₁ node₂
      (steps node node₁ (starts (with_tables two_messages) streams)
        (accepts node (7 ∷ []) 0 (4 ∷ 5 ∷ []) (pos 1)))
      (accepts node₁ (7 ∷ []) 1 (4 ∷ 5 ∷ []) (pos 1))

Reachable-IsRegistry_example : IsRegistry ((7 ∷ []) ∷ []) node₂
Reachable-IsRegistry_example =
    Reachable-IsRegistry ((7 ∷ []) ∷ []) in_order toy toy_codec node₂ node₂-Reachable

first_ends :
    (serve_once in_order toy_codec (record { db = node₂.db; stream = node₂.streams 0 })).0
    ≡ err (wrap "read msgio" eof)
unfolding serve_once accept any text_eq write_msg new_server read_msg
first_ends = refl

first_not_waiting :
    (serve_once in_order toy_codec
      (record { db = node₂.db; stream = node₂.streams 0 })).1.stream.ending
    ≢ waiting
unfolding serve_once accept any text_eq write_msg new_server read_msg reached
first_not_waiting h = ground (arith, h)

second_runs : In (1, 7 ∷ []) node₂.handlers
unfolding accept any text_eq write_msg new_server read_msg
second_runs = inl refl

turn-unregisters_example :
    (session (7 ∷ []) (turn in_order toy toy_codec ((7 ∷ []) ∷ []) (7 ∷ []) 0 node₂).sessions
      ≡ none)
    × In (1, 7 ∷ []) (turn in_order toy toy_codec ((7 ∷ []) ∷ []) (7 ∷ []) 0 node₂).handlers
turn-unregisters_example =
    turn-unregisters ((7 ∷ []) ∷ []) in_order toy toy_codec node₂ (7 ∷ []) 0 1
      (wrap "read msgio" eof) first_ends first_not_waiting second_runs (omega arith)

abbrev arrived : SyncMessage
arrived = record {
  id = codes "m3";
  conversation_id = bob;
  sender_id = bob;
  content = codes "ENC:yes";
  global_seq = pos 3;
  sender_signature = [];
  sent_at = pos 30;
}

save_batch-saves_example :
    (t' : Tables) × (save_batch
        (codes "phone")
        (pos 50)
        (arrived ∷ [])
        (working two_messages new_bus tt)
      ≡ (ok tt, working t' (announced_all (arrived ∷ []) new_bus) tt))
    × All (IsHeld t'.messages) (arrived ∷ [])
    × HasAdvanced (codes "phone") (arrived ∷ []) two_messages t'
save_batch-saves_example =
    save_batch-saves (codes "phone") (pos 50) (arrived ∷ []) two_messages new_bus (tt {0})

abbrev blank : SyncMessage
blank = record arrived { content = [] }

save_batch_drops_example :
    (t' : Tables) × (save_batch
        (codes "phone")
        (pos 50)
        (blank ∷ [])
        (working two_messages new_bus tt)
      ≡ (
        ok tt,
        working t' (publish topic_new_message (Event.message (announcement_of blank)) new_bus) tt,
      ))
    × (t'.messages ≡ two_messages.messages)
save_batch_drops_example =
    save_batch_drops (codes "phone") (pos 50) blank two_messages new_bus (tt {0}) refl

abbrev device : State (Unit {0})
device = record { db = with_tables two_messages; bus = new_bus; tp = tt }

-- One response with more to come, and one without.
abbrev replies : List Bytes
replies = (2 ∷ 1 ∷ []) ∷ (2 ∷ 0 ∷ []) ∷ []

-- A node that announces more and then sends nothing.
abbrev quiet : Stream
quiet = record (connected ((2 ∷ 1 ∷ []) ∷ []) []) { ending = silent }

fetch_loop-ends_example : IsOver toy_codec (save_batch (codes "phone") (pos 50)) (
    fetch_loop toy_codec
      (save_batch (codes "phone") (pos 50))
      2
      (record { store = device; stream = quiet }))
fetch_loop-ends_example =
    fetch_loop-ends toy_codec (save_batch (codes "phone") (pos 50)) 2
      (record { store = device; stream = quiet }) (omega arith)

sync_cycle-IsCycle_example :
    let (r, rest) =
      authenticate toy toy_codec alice
        (pos 2)
        (pos 2)
        (connected (challenge_frame ∷ result_frame ∷ replies) []) in
    IsCycle toy toy_codec alice (pos 2) (pos 2) rest r device (
      sync_cycle toy toy_codec alice
        (pos 2)
        (pos 2)
        (ok (connected (challenge_frame ∷ result_frame ∷ replies) []))
        device)
sync_cycle-IsCycle_example =
    sync_cycle-IsCycle toy toy_codec alice (pos 2) (pos 2)
      (connected (challenge_frame ∷ result_frame ∷ replies) []) device

run_round-returns_iff_example :
    ((run_round toy toy_codec alice
        (pos 2)
        (pos 2)
        (codes "node")
        false
        (ok (connected (challenge_frame ∷ result_frame ∷ replies) []))
        device).0
      ≡ some returns)
    ↔ ((codes "node" ≢ []) × (false ≡ true))
run_round-returns_iff_example =
    run_round-returns_iff toy toy_codec alice (pos 2) (pos 2) (codes "node") false
      (ok (connected (challenge_frame ∷ result_frame ∷ replies) [])) device
