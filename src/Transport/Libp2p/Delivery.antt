-- ===== src/Transport/Libp2p/Delivery.antt =====
-- internal/transport/libp2p.go: a payload on its way from `Send` to the handler of the other side.
use go_p2p_messenger.Base.{◌≡◌, refl, ◌∙◌, ap, Text, Bytes, arith, [], ◌∷◌, ◌++◌, Result, ok, err}
use go_p2p_messenger.Transport.Libp2p.{
  Libp2pTransport, host_call, handle_incoming_stream, after_write, after_open, send, subscribe,
}

module _ {S : Type 0} where
  -- What was written to streams after a call of `Send`: one payload more, the given one to the given
  -- peer, or nothing more where it returns an error.
  abbrev pub IsTransmitted :
      Text → Bytes → Libp2pTransport S → Result (Unit {0}) × Libp2pTransport S → Type 0
  IsTransmitted to payload t (err e, t') = (t'.written ≡ t.written) × (t'.handler ≡ t.handler)
  IsTransmitted to payload t (ok u, t') =
      (t'.written ≡ t.written ++ (to, payload) ∷ []) × (t'.handler ≡ t.handler)

  -- What a subscribed handler makes of a payload: an empty one is ignored.
  abbrev pub handled : (Text → Bytes → S → S) → Text → Bytes → S → S
  handled handler sender [] s = s
  handled handler sender (b ∷ bs) s = handler sender (b ∷ bs) s

  host_call-keeps :
      (t : Libp2pTransport S)
      → ((host_call t).1.written ≡ t.written) × ((host_call t).1.handler ≡ t.handler)
  unfolding host_call
  host_call-keeps t = (ground arith, ground arith)

  after_write-IsTransmitted :
      (to : Text) (payload : Bytes) (t u : Libp2pTransport S) (r : Result (Unit {0}))
      → (u.written ≡ t.written) × (u.handler ≡ t.handler)
      → IsTransmitted to payload t (after_write to payload r u)
  unfolding after_write
  after_write-IsTransmitted to payload t u (err e) h = h
  after_write-IsTransmitted to payload t u (ok x) h = (ap (λ w. w ++ (to, payload) ∷ []) h.0, h.1)

  after_open-IsTransmitted :
      (to : Text) (payload : Bytes) (t u : Libp2pTransport S) (r : Result (Unit {0}))
      → (u.written ≡ t.written) × (u.handler ≡ t.handler)
      → IsTransmitted to payload t (after_open to payload r u)
  unfolding after_open
  after_open-IsTransmitted to payload t u (err e) h = h
  after_open-IsTransmitted to payload t u (ok x) h =
      let (r, v) = host_call u in
      let (w, k) = host_call-keeps u in
      after_write-IsTransmitted to payload t v r (w ∙ h.0, k ∙ h.1)

  handled-stream :
      (r : Libp2pTransport S) (handler : Text → Bytes → S → S) (sender : Text) (payload : Bytes)
      (s : S)
      → handle_incoming_stream (subscribe handler r) sender (ok payload) s
        ≡ handled handler sender payload s
  unfolding handle_incoming_stream subscribe
  handled-stream r handler sender [] s = refl
  handled-stream r handler sender (b ∷ bs) s = refl

  -- Whatever calls of the host fail: `Send` has written exactly the payload to the peer, or it returns an
  -- error and no payload is complete. A stream with that payload makes the handler that the other side has
  -- subscribed run once, on the payload, unless it is empty.
  pub send-IsTransmitted :
      (to sender : Text) (payload : Bytes) (t r : Libp2pTransport S)
      (handler : Text → Bytes → S → S) (s : S)
      → IsTransmitted to payload t (send to payload t)
        × (handle_incoming_stream (subscribe handler r) sender (ok payload) s
            ≡ handled handler sender payload s)
  unfolding send
  send-IsTransmitted to sender payload t r handler s =
      let (o, u) = host_call t in
      (
        after_open-IsTransmitted to payload t u o (host_call-keeps t),
        handled-stream r handler sender payload s,
      )
