-- ===== src/Sync/Server.antt =====
-- internal/sync/server.go: one session of `PersonalNodeServer`. The goroutines of several sessions, and
-- the pushes, are in Server/Sessions.antt.
pub mod Fetch
pub mod Handshake
pub mod Loop
pub mod Trace
pub mod Sessions
pub mod Registry
pub mod Working
use go_p2p_messenger.Base.{
  ℕ, zero, suc, ℤ, pos, ◌+ℤ◌, ltb_ℤ, Text, Bytes, codes, Bool, true, false, not, ◌||◌, Option, none,
  some, List, [], ◌∷◌, map, ltb, ◌==◌, if◌then◌else◌, length, Error, message, Result, ok, err, Exec,
  fail, ◌>>=◌, ◌>>◌,
}
use go_p2p_messenger.Storage.{Message, bytes_of}
use go_p2p_messenger.Storage.Database.{Engine, Db}
use go_p2p_messenger.Storage.Messages.{get_since}
use go_p2p_messenger.Identity.{Crypto}
use go_p2p_messenger.Sync.Wire.{
  AuthChallenge, AuthResponse, AuthResult, FetchRequest, FetchResponse, SyncMessage, Codec,
}
use go_p2p_messenger.Sync.Stream.{Stream, unless_waiting, read_msg, write_msg}

-- What a session works on: the database and its stream.
pub record Link : Type 0 where
  pub db : Db
  pub stream : Stream

module _ {A : Type 0} where
  abbrev pub on_db : Exec Db A → Exec Link A
  on_db m l = let (r, db') = m l.db in (r, record l { db = db' })

  abbrev pub on_stream : Exec Stream A → Exec Link A
  on_stream m l = let (r, s') = m l.stream in (r, record l { stream = s' })

-- `limit := int(req.Limit)`, and its correction.
unfoldable pub fetch_limit : ℕ → ℕ
fetch_limit limit = if limit == 0 || ltb 100 limit then 100 else limit

unfoldable pub sync_message_of : Message → SyncMessage
unfolding bytes_of
sync_message_of m = record {
  id = m.id;
  conversation_id = m.conversation_id;
  sender_id = m.sender_id;
  content = bytes_of m.content;
  global_seq = m.global_seq;
  sender_signature = m.sender_signature;
  sent_at = m.sent_at;
}

-- `if m.GlobalSeq > maxSeq { maxSeq = m.GlobalSeq }`
unfoldable pub higher : ℤ → ℤ → ℤ
higher highest seq = if ltb_ℤ highest seq then seq else highest

-- `maxSeq` after the loop over the messages.
unfoldable pub max_seq_of : ℤ → List Message → ℤ
unfolding higher
max_seq_of highest [] = highest
max_seq_of highest (m ∷ rest) = max_seq_of (higher highest m.global_seq) rest

unfoldable pub response_of : ℤ → ℕ → List Message → FetchResponse
unfolding sync_message_of max_seq_of
response_of after limit msgs = record {
  messages = map sync_message_of msgs;
  max_seq = max_seq_of after msgs;
  has_more = length msgs == limit;
}

module _ (engine : Engine) (codec : Codec) where
  -- After `s.msgRepo.GetSince(…)`.
  unfoldable pub respond : FetchRequest → Result (List Message) → Exec Link (Unit {0})
  unfolding fetch_limit response_of
  respond req (err e) = fail e
  respond req (ok msgs) =
      on_stream (write_msg codec.fetched (response_of req.after_seq (fetch_limit req.limit) msgs))

  unfoldable pub handle_fetch : FetchRequest → Exec Link (Unit {0})
  unfolding respond get_since
  handle_fetch req l =
      let (r, db') = get_since engine [] req.after_seq (pos (fetch_limit req.limit)) l.db in
      respond req r (record l { db = db' })

  -- One round of the main loop.
  unfoldable pub serve_once : Exec Link (Unit {0})
  unfolding handle_fetch
  serve_once = on_stream (read_msg codec.fetch) >>= handle_fetch

  -- The main loop, and the error by which it ends; `none` is a loop that goes on, or waits in a read.
  unfoldable pub serve : ℕ → Link → Option Error × Link
  unfolding serve_once unless_waiting
  serve zero l = (none, l)
  serve (suc fuel) l =
      let (r, l') = serve_once l in
      let rest = serve fuel l' in
      elim r [ err e ↦ (unless_waiting l'.stream.ending e, l') | ok u ↦ rest ]

unfoldable pub challenge_of : Bytes → ℤ → AuthChallenge
challenge_of nonce now = record { nonce = nonce; expires_at = now +ℤ pos 60 }

module _ (c : Crypto) (codec : Codec) where
  unfoldable pub send_auth_result : Bool → Text → Exec Stream (Unit {0})
  send_auth_result success reason =
      write_msg codec.result
        (record { ok_flag = success; error_message = reason; session_token = [] })

  unfoldable pub invalid : Exec Stream (Unit {0})
  unfolding send_auth_result
  invalid s =
      let (r, s') = send_auth_result false (codes "invalid signature") s in
      (err (message "auth: invalid signature"), s')

  -- After `identity.Verify`.
  unfoldable pub judge : Result Bool → Exec Stream (Unit {0})
  unfolding invalid send_auth_result
  judge (err e) = invalid
  judge (ok false) = invalid
  judge (ok true) = send_auth_result true []

  -- After `remoteID.ExtractPublicKey()`.
  unfoldable pub verify_under : Bytes → AuthResponse → Result c.PubKey → Exec Stream (Unit {0})
  unfolding judge
  verify_under nonce resp (err e) = fail e
  verify_under nonce resp (ok key) = judge (c.verify key nonce resp.signature)

  -- After the response has been read.
  unfoldable pub verify_response : Text → Bytes → AuthResponse → Exec Stream (Unit {0})
  unfolding verify_under
  verify_response peer nonce resp = verify_under nonce resp (c.extract_public_key peer)

  -- `nonce` are the random bytes and `now` the clock.
  unfoldable pub authenticate : Text → Bytes → ℤ → Exec Stream (Unit {0})
  unfolding verify_response challenge_of
  authenticate peer nonce now =
      write_msg codec.challenge (challenge_of nonce now)
      >> (read_msg codec.response >>= verify_response peer nonce)
