-- ===== src/Tests/Push.antt =====
-- The theorem on a push during a fetch, with the handler of one device that the node has let in.
use go_p2p_messenger.Base.{
  pos, Text, Bytes, text_eq, codes, false, any, select, some, List, [], ◌∷◌, ◌++◌, ◌≡◌, refl, ok,
}
use go_p2p_messenger.Event.{new_bus}
use go_p2p_messenger.Storage.Database.{with_tables, write_transaction, exec}
use go_p2p_messenger.Storage.Messages.{save}
use go_p2p_messenger.State.{State}
use go_p2p_messenger.Sync.Stream.{write_msg, read_msg}
use go_p2p_messenger.Sync.Stream.Exchange.{connected}
use go_p2p_messenger.Sync.Server.{sync_message_of}
use go_p2p_messenger.Sync.Server.Sessions.{PersonalNode, new_server, accept, push_new_message}
use go_p2p_messenger.Sync.Client.{fetch_loop}
use go_p2p_messenger.Sync.Engine.{save_batch}
use go_p2p_messenger.Sync.Engine.Batch.{working}
use go_p2p_messenger.Sync.Dialogue.Push.{push-ends_loop}
use go_p2p_messenger.Tests.{
  toy, in_order, two_messages, empty_tables, third_message, pushing_codec,
  pushing_codec-IsPushedByNumber, put_response, put, put_int, put_message,
}

abbrev trusted : List Text
trusted = (7 ∷ []) ∷ []

-- The node after the handshake on stream 0.
abbrev node : PersonalNode
node = accept in_order toy pushing_codec trusted (7 ∷ []) 0 (4 ∷ 5 ∷ []) (pos 1) (
    new_server in_order toy pushing_codec trusted (with_tables two_messages)
      (λ k. connected ((2 ∷ 1 ∷ 7 ∷ 7 ∷ 4 ∷ 5 ∷ []) ∷ []) []))

abbrev pushed : Bytes
pushed =
    put_response
      (record { messages = sync_message_of third_message ∷ []; max_seq = pos 0; has_more = false })

pushes :
    ((push_new_message in_order toy pushing_codec trusted third_message node).streams 0).outbox
    ≡ (node.streams 0).outbox ++ pushed ∷ []
unfolding push_new_message accept any text_eq write_msg new_server read_msg select put_int
    put_message put sync_message_of
pushes = refl

abbrev phone : State (Unit {0})
phone = working empty_tables new_bus tt

abbrev saved : State (Unit {0})
saved = (save_batch (codes "phone") (pos 50) (sync_message_of third_message ∷ []) phone).1

saves :
    save_batch (codes "phone") (pos 50) (sync_message_of third_message ∷ []) phone ≡ (ok tt, saved)
unfolding save_batch save write_transaction exec sync_message_of
saves = refl

push-ends_loop_example :
    fetch_loop pushing_codec
      (save_batch (codes "phone") (pos 50))
      1
      (record { store = phone; stream = connected (pushed ∷ []) [] })
    ≡ (
      some (ok tt),
      record { store = saved; stream = connected [] ((0 ∷ 100 ∷ []) ∷ (0 ∷ []) ∷ []) },
    )
push-ends_loop_example =
    push-ends_loop pushing_codec (save_batch (codes "phone") (pos 50)) in_order toy trusted
      third_message node 0 0 pushed (0 ∷ 100 ∷ []) (0 ∷ []) [] [] [] phone saved
      pushing_codec-IsPushedByNumber refl refl pushes saves
