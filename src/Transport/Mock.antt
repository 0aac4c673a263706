-- ===== src/Transport/Mock.antt =====
-- internal/transport/mock.go: `MockTransport`. Its handler changes a state `S`.
use go_p2p_messenger.Base.{
  Text, Bytes, Option, none, some, List, [], ◌∷◌, ◌++◌, message, ok, err, Exec,
}
use go_p2p_messenger.Transport.{MessageTransport}

pub record SentMessage : Type 0 where
  pub to : Text
  pub payload : Bytes

pub record MockTransport (S : Type 0) : Type 0 where
  pub sent_messages : List SentMessage
  pub handler : Option (Text → Bytes → S → S)

module _ {S : Type 0} where
  -- `NewMockTransport`
  unfoldable pub new_mock : MockTransport S
  new_mock = record { sent_messages = []; handler = none }

  unfoldable pub send : Text → Bytes → Exec (MockTransport S) (Unit {0})
  send to payload m = (
    ok tt,
    record m { sent_messages = m.sent_messages ++ record { to = to; payload = payload } ∷ [] },
  )

  unfoldable pub connect : Text → Exec (MockTransport S) (Unit {0})
  connect to m = (ok tt, m)

  unfoldable pub subscribe : (Text → Bytes → S → S) → MockTransport S → MockTransport S
  subscribe handler m = record m { handler = some handler }

  unfoldable pub start : Exec (MockTransport S) (Unit {0})
  start m = (ok tt, m)

  unfoldable pub stop : Exec (MockTransport S) (Unit {0})
  stop m = (ok tt, m)

  -- `SimulateIncoming`
  unfoldable pub simulate_incoming : MockTransport S → Text → Bytes → Exec S (Unit {0})
  simulate_incoming m sender payload s = elim m.handler [
    | none ↦ (err (message "no subscriber handles incoming message"), s)
    | some handle ↦ (ok tt, handle sender payload s)
  ]

  abbrev pub mock_transport : MessageTransport (MockTransport S)
  mock_transport = record { send = send; connect = connect }
