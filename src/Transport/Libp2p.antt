-- ===== src/Transport/Libp2p.antt =====
-- internal/transport/libp2p.go: `Libp2pTransport` over the host of go-libp2p, which is not part of the
-- repository: its calls are arguments, and what was written to streams is kept by their remote peer.
pub mod Delivery
use go_p2p_messenger.Base.{
  Text, Bytes, Option, none, some, List, [], ◌∷◌, ◌++◌, Error, wrap, Result, ok, err, Exec,
}
use go_p2p_messenger.Transport.{MessageTransport}

pub record Libp2pTransport (S : Type 0) : Type 0 where
  pub handler : Option (Text → Bytes → S → S)
  -- The payloads written, each with the peer it went to.
  pub written : List (Text × Bytes)
  -- How the calls to come end, by the order of the calls; when the list is used up they succeed.
  pub outcomes : List (Option Error)

abbrev outcome_of : Option Error → Result (Unit {0})
outcome_of none = ok tt
outcome_of (some e) = err e

module _ {S : Type 0} where
  -- A call of the host or of a stream.
  unfoldable pub host_call : Exec (Libp2pTransport S) (Unit {0})
  host_call t = elim t.outcomes [
    | [] ↦ (ok tt, t)
    | ◌∷◌ outcome rest ↦ (outcome_of outcome, record t { outcomes = rest })
  ]

  -- `handleIncomingStream`, from what `io.ReadAll` returns. A nil handler and an empty payload are
  -- ignored.
  unfoldable pub handle_incoming_stream : Libp2pTransport S → Text → Result Bytes → S → S
  handle_incoming_stream t remote (err e) s = s
  handle_incoming_stream t remote (ok []) s = s
  handle_incoming_stream t remote (ok (b ∷ bs)) s = elim t.handler [
    | none ↦ s
    | some handle ↦ handle remote (b ∷ bs) s
  ]

  -- `NewLibp2pTransport`, on a host whose calls will end as the list says.
  unfoldable pub new_libp2p_transport : List (Option Error) → Libp2pTransport S
  new_libp2p_transport outcomes = record { handler = none; written = []; outcomes = outcomes }

  unfoldable pub start : Exec (Libp2pTransport S) (Unit {0})
  start t = (ok tt, t)

  -- `Stop`, which closes the host.
  unfoldable pub stop : Exec (Libp2pTransport S) (Unit {0})
  unfolding host_call
  stop = host_call

  -- After `s.Write(payload)`.
  unfoldable pub after_write :
      Text → Bytes → Result (Unit {0}) → Exec (Libp2pTransport S) (Unit {0})
  after_write to payload (err e) t = (err (wrap "write payload" e), t)
  after_write to payload (ok u) t = (ok tt, record t { written = t.written ++ (to, payload) ∷ [] })

  -- After `t.host.NewStream(…)`.
  unfoldable pub after_open : Text → Bytes → Result (Unit {0}) → Exec (Libp2pTransport S) (Unit {0})
  unfolding host_call after_write
  after_open to payload (err e) t = (err (wrap "open stream" e), t)
  after_open to payload (ok u) t = let (r, t') = host_call t in after_write to payload r t'

  unfoldable pub send : Text → Bytes → Exec (Libp2pTransport S) (Unit {0})
  unfolding host_call after_open
  send to payload t = let (r, t') = host_call t in after_open to payload r t'

  unfoldable pub connect : Text → Exec (Libp2pTransport S) (Unit {0})
  unfolding host_call
  connect to = host_call

  unfoldable pub subscribe : (Text → Bytes → S → S) → Libp2pTransport S → Libp2pTransport S
  subscribe handler t = record t { handler = some handler }

  abbrev pub libp2p_transport : MessageTransport (Libp2pTransport S)
  libp2p_transport = record { send = send; connect = connect }
