-- ===== src/Sync/Server/Handshake.antt =====
-- internal/sync/server.go: whom `authenticate` lets in.
use go_p2p_messenger.Base.{
  ◌≡◌, bind_ok, ◌>>=◌, refl, sym, ◌∙◌, ℤ, Text, Bytes, Bool, true, false, List, ◌∷◌, arith, Result,
  ok, err,
}
use go_p2p_messenger.Identity.{Crypto}
use go_p2p_messenger.Sync.Wire.{AuthChallenge, AuthResponse, Codec}
use go_p2p_messenger.Sync.Stream.{Stream, read_msg, write_msg}
use go_p2p_messenger.Sync.Stream.Exchange.{IsWritten, IsRead, write_msg-IsWritten, read_msg-IsRead}
use go_p2p_messenger.Sync.Server.{
  invalid, judge, challenge_of, verify_under, verify_response, authenticate,
}

module _ (c : Crypto) (codec : Codec) (peer : Text) (nonce : Bytes) (now : ℤ) where
  -- A response whose signature of the nonce verifies under the key in the peer's id.
  abbrev pub Proves : AuthResponse → Type 0
  Proves resp =
      (key : c.PubKey) × (c.extract_public_key peer ≡ ok key)
      × (c.verify key nonce resp.signature ≡ ok true)

  judge-true : (r : Result Bool) (s : Stream) → (judge c codec r s).0 ≡ ok tt → r ≡ ok true
  unfolding judge invalid
  judge-true (ok true) s h = refl
  judge-true (ok false) s h = ground arith
  judge-true (err e) s h = ground arith

  verify_under-Proves :
      (resp : AuthResponse) (k : Result c.PubKey) (s : Stream)
      → c.extract_public_key peer ≡ k
      → (verify_under c codec nonce resp k s).0 ≡ ok tt
      → Proves resp
  unfolding verify_under
  verify_under-Proves resp (err x) s e h = ground arith
  verify_under-Proves resp (ok key) s e h =
      (key, e, judge-true (c.verify key nonce resp.signature) s h)

  read-first :
      (r : Result AuthResponse) (s s' : Stream) (resp : AuthResponse)
      → IsRead codec.response s (r, s')
      → r ≡ ok resp
      → (frame : Bytes) × (s.inbox ≡ frame ∷ s'.inbox) × (codec.response.decode frame ≡ ok resp)
  read-first (ok m) s s' resp h e = (h.0, h.1, h.2 ∙ e)
  read-first (err x) s s' resp h e = ground arith

  written-inbox :
      (m : AuthChallenge) (s s' : Stream) (r : Result (Unit {0}))
      → IsWritten codec.challenge m s (r, s')
      → s'.inbox ≡ s.inbox
  written-inbox m s s' (ok u) h = h.3
  written-inbox m s s' (err e) h = h.1

  -- When `authenticate` succeeds, the first frame that the peer had sent decodes to a response whose
  -- signature of this challenge's nonce verifies under the key in the peer's id.
  pub authenticate-Proves :
      (s : Stream)
      → (authenticate c codec peer nonce now s).0 ≡ ok tt
      → (frame : Bytes) × (rest : List Bytes) × (resp : AuthResponse) × (s.inbox ≡ frame ∷ rest)
        × (codec.response.decode frame ≡ ok resp)
        × Proves resp
  unfolding authenticate verify_response
  authenticate-Proves s h =
      let challenge = challenge_of nonce now in
      let sent = write_msg codec.challenge challenge s in
      let (u, w, h₁) =
        bind_ok (λ u. read_msg codec.response >>= verify_response c codec peer nonce)
          (write_msg codec.challenge challenge) s tt h in
      let (resp, r, h₂) =
        bind_ok (verify_response c codec peer nonce) (read_msg codec.response) sent.1 tt h₁ in
      let back = read_msg codec.response sent.1 in
      let (frame, i, d) =
        read-first back.0 sent.1 back.1 resp (read_msg-IsRead codec.response sent.1) r in
      (
        frame,
        back.1.inbox,
        resp,
        sym (
              written-inbox challenge s sent.1 sent.0
                (write_msg-IsWritten codec.challenge challenge s))
            ∙ i,
        d,
        verify_under-Proves resp (c.extract_public_key peer) back.1 refl h₂,
      )
