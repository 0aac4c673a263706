-- ===== src/Tests/Success.antt =====
-- The theorem on a whole cycle that works, with a node of two messages and a new device.
use go_p2p_messenger.Base.{
  any, codes, All, pos, ltb_ℤ, text_eq, length, Bytes, false, some, List, [], ◌∷◌, ◌≡◌, ◌<◌, refl,
  ok, order_by, select, insert_by, arith,
}
use go_p2p_messenger.Event.{Bus, new_bus}
use go_p2p_messenger.Storage.{Tables}
use go_p2p_messenger.Storage.Database.{with_tables}
use go_p2p_messenger.Storage.Messages.{
  clash, same_seq, row_of, eligible, seq_of, message_of, since_rows,
}
use go_p2p_messenger.Identity.{device_id}
use go_p2p_messenger.Sync.Wire.{FetchResponse}
use go_p2p_messenger.Sync.Stream.Exchange.{connected}
use go_p2p_messenger.Sync.Client.{fetch_all, fetch_loop}
use go_p2p_messenger.Sync.Client.Handshake.{IsIdentity, proof_of}
use go_p2p_messenger.Sync.Server.{
  sync_message_of, challenge_of, fetch_limit, response_of, max_seq_of, higher, serve_once,
}
use go_p2p_messenger.Sync.Server
use go_p2p_messenger.Sync.Server.Fetch.{reply}
use go_p2p_messenger.Sync.Server.Working.{batch_for}
use go_p2p_messenger.Sync.Dialogue.Cost.{wanted}
use go_p2p_messenger.Sync.Engine.{sync_cycle, save_batch, received_message}
use go_p2p_messenger.Sync.Engine.Held.{IsCovered}
use go_p2p_messenger.Sync.Engine.Batch.{working, announced_all}
use go_p2p_messenger.Sync.Engine.Complete.{fetched, HasRow}
use go_p2p_messenger.Sync.Engine.Working.{fetch_loop_again}
use go_p2p_messenger.Sync.Engine.Success.{sync_cycle_succeeds}
use go_p2p_messenger.Tests.{
  toy, toy_laws, alice, in_order, two_messages, two_rows-IsKeyed, empty_tables, carrying_codec,
  carrying_codec_laws, put_response,
}

abbrev challenge_frame : Bytes
challenge_frame = 61 ∷ 4 ∷ 5 ∷ []

abbrev response_frame : Bytes
response_frame = 2 ∷ 1 ∷ 7 ∷ 7 ∷ 4 ∷ 5 ∷ []

abbrev result_frame : Bytes
result_frame = 1 ∷ []

abbrev request : Bytes
request = 0 ∷ 100 ∷ []

abbrev response : FetchResponse
response = reply (pos 0) (fetch_limit 100) (batch_for in_order two_messages fetch_all)

abbrev frame : Bytes
frame = put_response response

alice-IsIdentity : IsIdentity toy carrying_codec alice
alice-IsIdentity = record {
  entropy = 0 ∷ 0 ∷ 0 ∷ 0 ∷ 0 ∷ 0 ∷ 0 ∷ [];
  generated = refl;
  own_id = refl;
}

not_expired : ltb_ℤ (challenge_of (4 ∷ 5 ∷ []) (pos 1)).expires_at (pos 2) ≡ false
unfolding challenge_of
not_expired = refl

challenges :
    carrying_codec.challenge.encode (challenge_of (4 ∷ 5 ∷ []) (pos 1)) ≡ ok challenge_frame
unfolding challenge_of
challenges = refl

responds :
    carrying_codec.response.encode (proof_of toy carrying_codec alice (7 ∷ 4 ∷ 5 ∷ []) (pos 2))
    ≡ ok response_frame
unfolding device_id
responds = refl

acknowledges : carrying_codec.ack.encode (record { acked_seq = response.max_seq }) ≡ ok (2 ∷ [])
unfolding response_of max_seq_of higher since_rows order_by select eligible text_eq insert_by seq_of
    message_of fetch_limit
acknowledges = refl

few : length (wanted two_messages.messages) < 100
unfolding select eligible text_eq
few = omega arith

sync_cycle_succeeds_example :
    (acks : List Bytes) × (device' : Tables) × (b' : Bus) × (Server.authenticate toy carrying_codec
        alice.peer_id
        (4 ∷ 5 ∷ [])
        (pos 1)
        (connected (response_frame ∷ request ∷ acks) [])
      ≡ (ok tt, connected (request ∷ acks) (challenge_frame ∷ result_frame ∷ [])))
    × (serve_once in_order carrying_codec (record {
      db = with_tables two_messages;
      stream = connected (request ∷ acks) (challenge_frame ∷ result_frame ∷ []);
    })
        ≡ (
          ok tt,
          record {
            db = with_tables two_messages;
            stream = connected acks (challenge_frame ∷ result_frame ∷ frame ∷ []);
          },
        ))
    × ((fetched toy carrying_codec alice
          (pos 2)
          (pos 2)
          (connected (frame ∷ []) (response_frame ∷ []))
          (working empty_tables new_bus (tt {0}))).1.stream.outbox
        ≡ response_frame ∷ request ∷ acks)
    × (sync_cycle toy carrying_codec alice
          (pos 2)
          (pos 2)
          (ok (connected (challenge_frame ∷ result_frame ∷ frame ∷ []) []))
          (working empty_tables new_bus (tt {0}))
        ≡ (some (ok tt), working device' b' tt))
    × All (HasRow device'.messages) (wanted two_messages.messages)
sync_cycle_succeeds_example =
    sync_cycle_succeeds toy carrying_codec alice (pos 2) (pos 2) in_order two_messages empty_tables
      new_bus (tt {0}) (4 ∷ 5 ∷ []) (7 ∷ 4 ∷ 5 ∷ []) (pos 1) challenge_frame response_frame
      result_frame request frame (2 ∷ []) toy_laws carrying_codec_laws alice-IsIdentity not_expired
      refl challenges responds refl refl refl acknowledges two_rows-IsKeyed few

last : response.has_more ≡ false
unfolding response_of since_rows order_by select eligible text_eq insert_by seq_of fetch_limit
last = refl

stored : All (IsCovered two_messages.messages) response.messages
unfolding response_of since_rows order_by select eligible text_eq insert_by seq_of message_of
    fetch_limit any clash same_seq row_of received_message sync_message_of
stored = (refl, (refl, tt))

decodes : carrying_codec.fetched.decode frame ≡ ok response
decodes = carrying_codec_laws.fetched response frame refl

fetch_loop_again_example :
    (t' : Tables) × (acks : List Bytes) × (fetch_loop carrying_codec
        (save_batch (codes "phone") (pos 50))
        1
        (record {
          store = working two_messages new_bus (tt {0});
          stream = connected (frame ∷ []) [];
        })
      ≡ (
        some (ok tt),
        record {
          store = working t' (announced_all response.messages new_bus) tt;
          stream = connected [] (request ∷ acks);
        },
      ))
    × (t'.messages ≡ two_messages.messages)
fetch_loop_again_example =
    fetch_loop_again carrying_codec (codes "phone") (pos 50) 0 response request frame (2 ∷ []) [] []
      refl decodes acknowledges last two_messages new_bus (tt {0}) stored
