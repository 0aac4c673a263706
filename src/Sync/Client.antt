-- ===== src/Sync/Client.antt =====
-- internal/sync/client.go: `SyncClient`.
pub mod Handshake
pub mod Loop
use go_p2p_messenger.Base.{
  ℕ, zero, suc, ℤ, pos, ltb_ℤ, Text, Bytes, Bool, true, false, Option, none, some, List, [], ◌∷◌,
  if◌then◌else◌, Error, message, wrap, quoted, Result, ok, err, map_error, Exec, pure, fail,
  wrapping, ◌>>=◌, ◌>>◌,
}
use go_p2p_messenger.Identity.{Crypto, Identity, device_id, sign_with}
use go_p2p_messenger.Sync.Wire.{
  AuthChallenge, AuthResponse, AuthResult, FetchRequest, FetchResponse, SyncMessage, AckRequest,
  Codec,
}
use go_p2p_messenger.Sync.Stream.{Stream, unless_waiting, read_msg, write_msg}

-- What a call of `FetchLoop` works on: what `saveBatch` changes, and the stream.
pub record Session (S : Type 0) : Type 0 where
  pub store : S
  pub stream : Stream

module _ {S A : Type 0} where
  abbrev pub on_store : Exec S A → Exec (Session S) A
  on_store m l = let (r, st) = m l.store in (r, record l { store = st })

  abbrev pub on_stream : Exec Stream A → Exec (Session S) A
  on_stream m l = let (r, s) = m l.stream in (r, record l { stream = s })

module _ (c : Crypto) (codec : Codec) (ident : Identity c) where
  unfoldable pub accepted : AuthResult → Exec Stream (Unit {0})
  accepted result =
      if result.ok_flag then pure tt else fail (quoted "auth rejected" result.error_message)

  -- After `c.ident.Sign(challenge.Nonce)`.
  unfoldable pub present : ℤ → Result Bytes → Exec Stream (Unit {0})
  unfolding accepted device_id
  present stamp (err e) = fail (wrap "sign nonce" e)
  present stamp (ok sig) =
      wrapping "write response" (
        write_msg codec.response
          (record { device_id = device_id c ident; signature = sig; timestamp = stamp }))
      >> (wrapping "read result" (read_msg codec.result) >>= accepted)

  unfoldable pub answer_challenge : ℤ → ℤ → AuthChallenge → Exec Stream (Unit {0})
  unfolding present sign_with
  answer_challenge now stamp challenge =
      if ltb_ℤ challenge.expires_at now
      then fail (message "challenge expired")
      else present stamp (sign_with c ident challenge.nonce)

  -- `Authenticate` on an open stream; `now` and `stamp` are its two readings of the clock.
  unfoldable pub authenticate : ℤ → ℤ → Exec Stream (Unit {0})
  unfolding answer_challenge
  authenticate now stamp =
      wrapping "read challenge" (read_msg codec.challenge) >>= answer_challenge now stamp

-- `&pb.FetchRequest{AfterSeq: 0, Limit: 100}`
abbrev pub fetch_all : FetchRequest
fetch_all = record { after_seq = pos 0; limit = 100 }

module _ {S : Type 0} (codec : Codec) (save_batch : List SyncMessage → Exec S (Unit {0})) where
  -- `if len(resp.Messages) > 0 { … }`
  unfoldable pub keep : ℤ → List SyncMessage → Exec (Session S) (Unit {0})
  keep max_seq [] = pure tt
  keep max_seq (m ∷ ms) =
      wrapping "save batch" (on_store (save_batch (m ∷ ms)))
      >> on_stream (write_msg codec.ack (record { acked_seq = max_seq }))

  -- After the response: whether there is more.
  unfoldable pub received : FetchResponse → Exec (Session S) Bool
  unfolding keep
  received resp = keep resp.max_seq resp.messages >> pure resp.has_more

  -- A round of the loop.
  unfoldable pub round : Exec (Session S) Bool
  unfolding received
  round =
      on_stream (write_msg codec.fetch fetch_all)
      >> (on_stream (read_msg codec.fetched) >>= received)

  -- After a round; `rest` is the loop from there.
  unfoldable pub looped :
      Session S
      → Option (Result (Unit {0})) × Session S
      → Result Bool
      → Option (Result (Unit {0})) × Session S
  unfolding unless_waiting
  looped l rest (err e) = (unless_waiting l.stream.ending (err e), l)
  looped l rest (ok true) = rest
  looped l rest (ok false) = (some (ok tt), l)

  -- `FetchLoop`; `none` is a loop that goes on, or waits in a read.
  unfoldable pub fetch_loop : ℕ → Session S → Option (Result (Unit {0})) × Session S
  unfolding round looped
  fetch_loop zero l = (none, l)
  fetch_loop (suc fuel) l =
      let (r, l') = round l in let rest = fetch_loop fuel l' in looped l' rest r
