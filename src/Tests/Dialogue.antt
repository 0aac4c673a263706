-- ===== src/Tests/Dialogue.antt =====
-- The theorems on a whole session of internal/sync, with a node of two messages.
use go_p2p_messenger.Base.{
  ℕ, pos, text_eq, length, Bytes, true, some, Option, List, [], ◌∷◌, inl, ◌≡◌, refl, ok, Result,
  ◌+◌, order_by, select, insert_by,
}
use go_p2p_messenger.Event.{new_bus}
use go_p2p_messenger.Storage.Database.{with_tables, run_query, write_transaction, exec}
use go_p2p_messenger.Storage.Messages.{eligible, seq_of, message_of, save}
use go_p2p_messenger.State.{State}
use go_p2p_messenger.Sync.Stream.{Stream, write_msg, read_msg}
use go_p2p_messenger.Sync.Stream.Exchange.{connected}
use go_p2p_messenger.Sync.Server.{Link, serve, response_of}
use go_p2p_messenger.Sync.Server.Fetch.{reply}
use go_p2p_messenger.Sync.Client.{Session, authenticate, fetch_loop, round, looped}
use go_p2p_messenger.Sync.Engine.{save_batch, sync_cycle}
use go_p2p_messenger.Sync.Engine.Batch.{working}
use go_p2p_messenger.Sync.Engine.Complete.{HasRow, begun, fetched, sync_cycle_complete}
use go_p2p_messenger.Identity.{device_id}
use go_p2p_messenger.Sync.Dialogue.{Dialogue}
use go_p2p_messenger.Sync.Dialogue.Refinement.{fetch_loop-serve-Dialogue}
use go_p2p_messenger.Tests.{
  toy, alice, in_order, two_rows, first_row, second_row, two_messages, two_rows-IsKeyed,
  empty_tables, carrying_codec, carrying_codec_laws, put_response, put, get, put_int, get_int,
  put_message, get_message,
}

-- The node's response with both messages.
abbrev frames : List Bytes
frames = put_response (reply (pos 0) 100 (first_row ∷ second_row ∷ [])) ∷ []

abbrev phone : State (Unit {0})
phone = working empty_tables new_bus tt

abbrev request : Bytes
request = 0 ∷ 100 ∷ []

abbrev ack : Bytes
ack = 2 ∷ []

-- What the handshake sends.
abbrev challenge_frame : Bytes
challenge_frame = 61 ∷ 4 ∷ 5 ∷ []

abbrev response_frame : Bytes
response_frame = 2 ∷ 1 ∷ 7 ∷ 7 ∷ 4 ∷ 5 ∷ []

abbrev result_frame : Bytes
result_frame = 1 ∷ []

abbrev stream : Stream
stream = connected (challenge_frame ∷ result_frame ∷ frames) []

-- The stream once the device is authenticated.
abbrev rest : Stream
rest = connected frames (response_frame ∷ [])

rest_lem : (authenticate toy carrying_codec alice (pos 2) (pos 2) stream).1 ≡ rest
unfolding authenticate read_msg write_msg
rest_lem = refl

abbrev node : Link
node = record {
  db = with_tables two_messages;
  stream = connected (request ∷ ack ∷ []) (challenge_frame ∷ result_frame ∷ []);
}

abbrev run : Option (Result (Unit {0})) × Session (State (Unit {0}))
run = fetched toy carrying_codec alice (pos 2) (pos 2) rest phone

sends : run.1.stream.outbox ≡ response_frame ∷ request ∷ ack ∷ []
unfolding fetch_loop round looped write_msg read_msg put get put_int get_int put_message get_message
    response_of message_of save_batch save write_transaction exec
sends = refl

answers :
    (serve in_order carrying_codec 1 node).1.stream.outbox ≡ challenge_frame ∷ result_frame ∷ frames
unfolding serve read_msg run_query order_by select eligible text_eq insert_by seq_of write_msg
answers = refl

stops : run.0 ≡ some (ok tt)
unfolding fetch_loop round looped write_msg read_msg put get put_int get_int put_message get_message
    response_of message_of save_batch save write_transaction exec
stops = refl

wanted_second : eligible [] (pos 0) second_row ≡ true
unfolding eligible text_eq
wanted_second = refl

abbrev cycle : Option (Result (Unit {0})) × State (Unit {0})
cycle = sync_cycle toy carrying_codec alice (pos 2) (pos 2) (ok stream) phone

cycle_stops : cycle.0 ≡ some (ok tt)
unfolding sync_cycle read_msg write_msg get_int put_int response_of message_of save
    write_transaction exec
cycle_stops = refl

sync_cycle_complete_example : HasRow cycle.1.db.tables.messages second_row
sync_cycle_complete_example =
    sync_cycle_complete toy carrying_codec alice (pos 2) (pos 2) in_order 1 node stream phone
      second_row carrying_codec_laws two_rows-IsKeyed (rw rest_lem (sends, answers)) cycle_stops
      (inl refl) wanted_second

fetch_loop-serve-Dialogue_example :
    (n : ℕ) × Dialogue
      (save_batch (device_id toy alice) (pos 2))
      two_rows
      []
      n
      (begun rest phone).store
      run.1.store
    × (length frames ≡ n + length run.1.stream.inbox)
fetch_loop-serve-Dialogue_example =
    fetch_loop-serve-Dialogue in_order carrying_codec (save_batch (device_id toy alice) (pos 2)) 1 2
      node (begun rest phone) carrying_codec_laws two_rows-IsKeyed (sends, answers) stops
