-- ===== src/Sync/Engine.antt =====
-- internal/sync/engine.go: `SyncEngine`.
pub mod Held
pub mod Progress
pub mod Batch
pub mod Cycle
pub mod Schedule
pub mod Working
pub mod Success
pub mod Faults
pub mod Complete
use go_p2p_messenger.Base.{
  ℕ, suc, ℤ, Text, Bytes, codes, Bool, true, false, Option, none, some, List, [], ◌∷◌, length,
  Error, wrap, Result, ok, err, Exec, pure, ◌>>=◌, ◌>>◌,
}
use go_p2p_messenger.Event.{Bus, publish, topic_new_message, topic_sync_status}
use go_p2p_messenger.Event
use go_p2p_messenger.Storage.{Message}
use go_p2p_messenger.Storage.Messages.{save}
use go_p2p_messenger.Storage.Devices.{update_last_seq}
use go_p2p_messenger.State.{State, on_db, notify}
use go_p2p_messenger.Identity.{Crypto, Identity, device_id}
use go_p2p_messenger.Sync.Wire.{SyncMessage, Codec}
use go_p2p_messenger.Sync.Stream.{Stream, unless_waiting}
use go_p2p_messenger.Sync.Client.{Session, authenticate, fetch_loop}

-- The field of a decoded message: nil where it was empty on the wire.
unfoldable pub received_content : Bytes → Option Bytes
received_content [] = none
received_content (b ∷ bs) = some (b ∷ bs)

-- The `storage.Message` that a cycle saves; the fields that it leaves out are zero values.
unfoldable pub received_message : SyncMessage → Message
unfolding received_content
received_message m = record {
  id = m.id;
  conversation_id = m.conversation_id;
  sender_id = m.sender_id;
  content = received_content m.content;
  global_seq = m.global_seq;
  sender_signature = m.sender_signature;
  sent_at = m.sent_at;
  is_incoming = false;
  status = [];
  delivered_at = none;
  read_at = none;
}

unfoldable pub received_event : SyncMessage → Event.MessageEvent
received_event m = record {
  id = m.id;
  chat_id = m.conversation_id;
  sender_id = m.sender_id;
  text = m.content;
  timestamp = m.sent_at;
  is_incoming = true;
  status = codes "delivered";
}

-- `msgs[len(msgs)-1].GlobalSeq`, where there are messages.
unfoldable pub last_global_seq : List SyncMessage → Option ℤ
last_global_seq [] = none
last_global_seq (m ∷ ms) = elim (last_global_seq ms) [
  | none ↦ some m.global_seq
  | some seq ↦ some seq
]

abbrev pub sync_status : {T : Type 0} → Text → Exec (State T) (Unit {0})
sync_status status = notify topic_sync_status (Event.sync (record { status = status }))

-- `SetPersonalNode`: the id and the address of the node.
unfoldable pub set_personal_node : Text → Text → Text × Text → Text × Text
set_personal_node node addr old = (node, addr)

-- What `run` does after a round of its loop: it returns, or goes on after some seconds.
pub data Next : Type 0 where
  returns : Next
  waits : ℕ → Next

-- The pause after a cycle; `none` is a cycle that does not return.
unfoldable pub pause : Option (Result (Unit {0})) → Option Next
pause none = none
pause (some (err e)) = some (waits 10)
pause (some (ok u)) = some (waits 30)

module _ {T : Type 0} where
  unfoldable pub save_each : List SyncMessage → Exec (State T) (Unit {0})
  unfolding received_message received_event
  save_each [] = pure tt
  save_each (m ∷ ms) =
      let rest = save_each ms in
      on_db (save (received_message m))
      >> (notify topic_new_message (Event.message (received_event m)) >> rest)

  -- `_ = e.syncRepo.UpdateLastSeq(…)`. One reading of the clock stands for those of all batches.
  unfoldable pub record_progress : Text → ℤ → Option ℤ → Exec (State T) (Unit {0})
  record_progress device now none s = (ok tt, s)
  record_progress device now (some seq) s =
      (ok tt, record s { db = (update_last_seq device seq now s.db).1 })

  -- The function that `syncCycle` gives to `FetchLoop`.
  unfoldable pub save_batch : Text → ℤ → List SyncMessage → Exec (State T) (Unit {0})
  unfolding save_each record_progress last_global_seq
  save_batch device now msgs = save_each msgs >> record_progress device now (last_global_seq msgs)

  -- After `FetchLoop`.
  unfoldable pub concluded :
      Option (Result (Unit {0})) → State T → Option (Result (Unit {0})) × State T
  concluded none s = (none, s)
  concluded (some (ok u)) s = (some (ok tt), (sync_status (codes "completed") s).1)
  concluded (some (err e)) s = (some (err e), (sync_status (codes "failed") s).1)

  module _ (c : Crypto) (codec : Codec) (ident : Identity c) (now stamp : ℤ) where
    -- After `client.Authenticate(ctx)`.
    unfoldable pub authenticated :
        Stream → Result (Unit {0}) → State T → Option (Result (Unit {0})) × State T
    unfolding fetch_loop save_batch concluded unless_waiting
    authenticated stream (err e) s = (unless_waiting stream.ending (err e), s)
    authenticated stream (ok u) s =
        let (r, l) =
          fetch_loop codec (save_batch (device_id c ident) now) (suc (length stream.inbox))
            (record { store = (sync_status (codes "started") s).1; stream = stream }) in
        concluded r l.store

    -- `syncCycle`, from the result of `NewStream`. The frames that the node sends stand in the stream
    -- from the start.
    unfoldable pub sync_cycle : Result Stream → State T → Option (Result (Unit {0})) × State T
    unfolding authenticated authenticate
    sync_cycle (err e) s = (some (err (wrap "open sync stream" e)), s)
    sync_cycle (ok stream) s =
        let (r, stream') = authenticate c codec ident now stamp stream in authenticated stream' r s

    -- A round of the loop of `run` for a node's id; `done` says whether the context is.
    unfoldable pub run_round : Text → Bool → Result Stream → State T → Option Next × State T
    unfolding pause sync_cycle
    run_round [] done opened s = (some (waits 5), s)
    run_round (n ∷ node) true opened s = (some returns, s)
    run_round (n ∷ node) false opened s = let (r, s') = sync_cycle opened s in (pause r, s')
