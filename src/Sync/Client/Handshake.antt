-- ===== src/Sync/Client/Handshake.antt =====
-- internal/sync/client.go and internal/sync/server.go: the two sides of the handshake together.
use go_p2p_messenger.Base.{◌≡◌, refl, ℤ, ltb_ℤ, Bytes, List, true, false, [], ◌∷◌, ok}
use go_p2p_messenger.Identity.{Crypto, CryptoLaws, Identity, device_id, sign_with}
use go_p2p_messenger.Sync.Wire.{AuthResponse, AuthResult, Codec, CodecLaws}
use go_p2p_messenger.Sync.Stream.Exchange.{connected, write_msg-connected, read_msg-connected}
use go_p2p_messenger.Sync.Server.{
  challenge_of, send_auth_result, judge, verify_under, verify_response,
}
use go_p2p_messenger.Sync.Server
use go_p2p_messenger.Sync.Client.{accepted, present, answer_challenge, authenticate}

module _ (c : Crypto) (codec : Codec) (ident : Identity c) where
  -- What `authenticate` of the server sends on success.
  abbrev pub welcome : AuthResult
  welcome = record { ok_flag = true; error_message = []; session_token = [] }

  abbrev pub proof_of : Bytes → ℤ → AuthResponse
  proof_of sig stamp = record { device_id = device_id c ident; signature = sig; timestamp = stamp }

  -- The identity's keys are a generated pair, and its id is the one of its key.
  pub record IsIdentity : Type 0 where
    pub entropy : Bytes
    pub generated : c.generate_key entropy ≡ ok (ident.private_key, ident.public_key)
    pub own_id : c.id_from_public_key ident.public_key ≡ ok ident.peer_id

  module _ (laws : CryptoLaws c) (codec_laws : CodecLaws codec) (nonce sig : Bytes)
      (issued now stamp : ℤ) (f₁ f₂ f₃ : Bytes) (later : List Bytes) (whole : IsIdentity)
      (fresh : ltb_ℤ (challenge_of nonce issued).expires_at now ≡ false)
      (signed : c.sign ident.private_key nonce ≡ ok sig)
      (first : codec.challenge.encode (challenge_of nonce issued) ≡ ok f₁)
      (second : codec.response.encode (proof_of sig stamp) ≡ ok f₂)
      (third : codec.result.encode welcome ≡ ok f₃) where
    server-verifies :
        verify_response c codec ident.peer_id nonce (proof_of sig stamp) (connected later (f₁ ∷ []))
        ≡ (ok tt, connected later (f₁ ∷ f₃ ∷ []))
    unfolding verify_response verify_under judge send_auth_result
    server-verifies =
        rw
          (
            laws.extract_id whole.entropy ident.private_key ident.public_key ident.peer_id
                whole.generated whole.own_id,
            laws.generate_public whole.entropy ident.private_key ident.public_key whole.generated,
            laws.verify_sign ident.private_key nonce sig signed,
            verify_under,
            judge,
          )
          (write_msg-connected codec.result welcome f₃ later (f₁ ∷ []) third)

    client-answers :
        answer_challenge c codec ident now stamp
          (challenge_of nonce issued)
          (connected (f₃ ∷ later) [])
        ≡ (ok tt, connected later (f₂ ∷ []))
    unfolding answer_challenge present accepted sign_with challenge_of
    client-answers =
        rw (fresh, signed, present)
          (rw
            (
              write_msg-connected codec.response (proof_of sig stamp) f₂ (f₃ ∷ later) [] second,
              read_msg-connected codec.result welcome f₃ later (f₂ ∷ [])
                  (codec_laws.result welcome f₃ third),
            )
            refl)

    pub server-admits :
        Server.authenticate c codec ident.peer_id nonce issued (connected (f₂ ∷ later) [])
        ≡ (ok tt, connected later (f₁ ∷ f₃ ∷ []))
    unfolding Server.authenticate verify_response
    server-admits =
        rw
          (
            write_msg-connected codec.challenge (challenge_of nonce issued) f₁ (f₂ ∷ later) []
                first,
            read_msg-connected codec.response (proof_of sig stamp) f₂ later (f₁ ∷ [])
                (codec_laws.response (proof_of sig stamp) f₂ second),
          )
          server-verifies

    pub client-accepts :
        authenticate c codec ident now stamp (connected (f₁ ∷ f₃ ∷ later) [])
        ≡ (ok tt, connected later (f₂ ∷ []))
    unfolding authenticate
    client-accepts =
        rw
          (read_msg-connected codec.challenge (challenge_of nonce issued) f₁ (f₃ ∷ later) []
            (codec_laws.challenge (challenge_of nonce issued) f₁ first))
          client-answers

  -- With the documented laws of keys and codec: an identity that signs the nonce before the challenge
  -- expires is let in by the node, with the two frames that the node sends, and takes itself to be
  -- authenticated, with the one frame that it sends.
  pub handshake-succeeds :
      (nonce sig : Bytes) (issued now stamp : ℤ) (f₁ f₂ f₃ : Bytes)
      → CryptoLaws c
      → CodecLaws codec
      → IsIdentity
      → ltb_ℤ (challenge_of nonce issued).expires_at now ≡ false
      → c.sign ident.private_key nonce ≡ ok sig
      → codec.challenge.encode (challenge_of nonce issued) ≡ ok f₁
      → codec.response.encode (proof_of sig stamp) ≡ ok f₂
      → codec.result.encode welcome ≡ ok f₃
      → (Server.authenticate c codec ident.peer_id nonce issued (connected (f₂ ∷ []) [])
          ≡ (ok tt, connected [] (f₁ ∷ f₃ ∷ [])))
        × (authenticate c codec ident now stamp (connected (f₁ ∷ f₃ ∷ []) [])
            ≡ (ok tt, connected [] (f₂ ∷ [])))
  handshake-succeeds nonce sig issued now stamp f₁ f₂ f₃ laws codec_laws whole fresh signed first
        second third =
      (
        server-admits laws codec_laws nonce sig issued now stamp f₁ f₂ f₃ [] whole fresh signed
            first second third,
        client-accepts laws codec_laws nonce sig issued now stamp f₁ f₂ f₃ [] whole fresh signed
            first second third,
      )
