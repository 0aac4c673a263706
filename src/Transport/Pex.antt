-- ===== src/Transport/Pex.antt =====
-- internal/transport/pex.go: `PexHandler`, which tells a trusted peer whom this node is connected to.
pub mod Laws
use go_p2p_messenger.Base.{
  ℕ, ◌≤◌, ◌<◌, ◌≡◌, ◌≢◌, refl, sym, ap, subst, inl, inr, ◌⊎◌, Text, Bytes, text_eq, text_eq_iff,
  text_eq_refl, Bool, true, false, ◌||◌, Option, none, some, List, [], ◌∷◌, ◌++◌, leb,
  if◌then◌else◌, any, length, length-append, arith, All, AllPairs, AllPairs-append, All-append,
  All-imp, All-of_In, In, In-append_left, In-append_right, Bool-cases, Error, Result, ok, err,
}

-- `peer.AddrInfo`
pub record AddrInfo : Type 0 where
  pub id : Text
  pub addrs : List Bytes

-- `len(addrs) >= 50`
unfoldable pub is_full : List AddrInfo → Bool
is_full found = leb 50 (length found)

-- `addrs` after the loop over the remote peers of the connections.
unfoldable pub collect :
    (Text → List Bytes) → Text → List Text → List Text → List AddrInfo → List AddrInfo
unfolding is_full
collect peerstore requester [] seen found = found
collect peerstore requester (p ∷ conns) seen found =
    let skipped = collect peerstore requester conns seen found in
    let found' = found ++ record { id = p; addrs = peerstore p } ∷ [] in
    let rest = collect peerstore requester conns (p ∷ seen) found' in
    if text_eq p requester || any (text_eq p) seen
    then skipped
    else if is_full found'
    then found'
    else rest

-- `handleStream`: the response, or `none` where the stream is reset.
unfoldable pub handle_stream :
    (Text → Bool) → (Text → List Bytes) → List Text → Text → Option (List AddrInfo)
unfolding collect
handle_stream is_trusted peerstore conns requester =
    if is_trusted requester then some (collect peerstore requester conns [] []) else none

-- What the decoder of `RequestPeers` finds.
pub data Decoded : Type 0 where
  value : List AddrInfo → Decoded
  end : Decoded
  failure : Error → Decoded

-- After `json.NewDecoder(s).Decode(&resp)`.
unfoldable pub decoded : Decoded → Result (List AddrInfo)
decoded (value peers) = ok peers
decoded end = ok []
decoded (failure e) = err e

-- `RequestPeers`, from the result of `NewStream`, which is the stream's content.
unfoldable pub request_peers : Result Decoded → Result (List AddrInfo)
unfolding decoded
request_peers (err e) = err e
request_peers (ok d) = decoded d
