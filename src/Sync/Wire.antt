-- ===== src/Sync/Wire.antt =====
-- proto/aether/sync.pb.go: the messages of the protocol, and their encoding by protobuf, which is not
-- part of the repository.
use go_p2p_messenger.Base.{ℕ, ℤ, Text, Bytes, Bool, false, List, [], ◌∷◌, pos, Result, ok, ◌≡◌}

pub record AuthChallenge : Type 0 where
  pub nonce : Bytes
  pub expires_at : ℤ

pub record AuthResponse : Type 0 where
  pub device_id : Bytes
  pub signature : Bytes
  pub timestamp : ℤ

pub record AuthResult : Type 0 where
  pub ok_flag : Bool
  pub error_message : Text
  pub session_token : Text

pub record FetchRequest : Type 0 where
  pub after_seq : ℤ
  pub limit : ℕ

pub record SyncMessage : Type 0 where
  pub id : Text
  pub conversation_id : Text
  pub sender_id : Text
  pub content : Bytes
  pub global_seq : ℤ
  pub sender_signature : Bytes
  pub sent_at : ℤ

pub record FetchResponse : Type 0 where
  pub messages : List SyncMessage
  pub max_seq : ℤ
  pub has_more : Bool

pub record AckRequest : Type 0 where
  pub acked_seq : ℤ

-- `proto.Marshal` and `proto.Unmarshal` at one type of message.
pub record Format (M : Type 0) : Type 0 where
  pub encode : M → Result Bytes
  pub decode : Bytes → Result M

-- `PushEnvelope` is only sent with a new message in it.
pub record Codec : Type 0 where
  pub challenge : Format AuthChallenge
  pub response : Format AuthResponse
  pub result : Format AuthResult
  pub fetch : Format FetchRequest
  pub fetched : Format FetchResponse
  pub ack : Format AckRequest
  pub push : Format SyncMessage

abbrev pub RoundTrips : {M : Type 0} → Format M → Type 0
RoundTrips {M} f = (m : M) (b : Bytes) → f.encode m ≡ ok b → f.decode b ≡ ok m

-- What protobuf documents: a message that is decoded at the type at which it was encoded is the same
-- message, and a field is known by its number alone. `AckRequest.acked_seq` and `FetchRequest.after_seq`
-- are both the int64 field 1, and an absent `limit` is 0.
pub record CodecLaws (c : Codec) : Type 0 where
  pub challenge : RoundTrips c.challenge
  pub response : RoundTrips c.response
  pub result : RoundTrips c.result
  pub fetch : RoundTrips c.fetch
  pub fetched : RoundTrips c.fetched
  pub ack_by_number :
      (a : AckRequest) (b : Bytes)
      → c.ack.encode a ≡ ok b
      → c.fetch.decode b ≡ ok (record { after_seq = a.acked_seq; limit = 0 })

-- A message in a push and a message in a response are both the submessage field 1; of a push at the type
-- of a response the other fields are absent, and 0 and false.
abbrev pub IsPushedByNumber : Codec → Type 0
IsPushedByNumber c =
    (m : SyncMessage) (b : Bytes)
    → c.push.encode m ≡ ok b
    → c.fetched.decode b ≡ ok (record { messages = m ∷ []; max_seq = pos 0; has_more = false })
