-- ===== src/Tests/Codec.antt =====
-- A toy codec, which encodes the messages that the tests send.
use go_p2p_messenger.Base.{
  ℕ, zero, suc, ℤ, pos, negsuc, Text, Bytes, Bool, true, false, List, [], ◌∷◌, ◌++◌, length, take,
  drop, Result, ok, err, message, ◌≡◌, refl, ap, subst, arith,
}
use go_p2p_messenger.Tests.Crypto.{ok-injective}
use go_p2p_messenger.Sync.Wire.{
  AuthChallenge, AuthResponse, AuthResult, FetchRequest, FetchResponse, SyncMessage, AckRequest,
  Codec, CodecLaws,
}

abbrev bad : {A : Type 0} → Result A
bad = err (message "bad frame")

abbrev pub flag : Bool → ℕ
flag true = 1
flag false = 0

abbrev pub unflag : ℕ → Bool
unflag zero = false
unflag (suc n) = true

abbrev encode_challenge : Bytes → ℤ → Result Bytes
encode_challenge nonce (pos n) = ok (n ∷ nonce)
encode_challenge nonce (negsuc n) = bad

abbrev decode_challenge : Bytes → Result AuthChallenge
decode_challenge [] = bad
decode_challenge (n ∷ nonce) = ok (record { nonce = nonce; expires_at = pos n })

challenge_round :
    (nonce : Bytes) (at : ℤ) (b : Bytes)
    → encode_challenge nonce at ≡ ok b
    → decode_challenge b ≡ ok (record { nonce = nonce; expires_at = at })
challenge_round nonce (pos n) b e =
    subst (λ x. decode_challenge x ≡ ok (record { nonce = nonce; expires_at = pos n }))
      (ok-injective [] e) refl
challenge_round nonce (negsuc n) b e = ground arith

abbrev encode_response : Bytes → Bytes → ℤ → Result Bytes
encode_response device sig (pos n) = ok (n ∷ length device ∷ (device ++ sig))
encode_response device sig (negsuc n) = bad

abbrev decode_response : Bytes → Result AuthResponse
decode_response [] = bad
decode_response (n ∷ []) = bad
decode_response (n ∷ k ∷ rest) =
    ok (record { device_id = take k rest; signature = drop k rest; timestamp = pos n })

pub take-length : (xs ys : Bytes) → take (length xs) (xs ++ ys) ≡ xs
take-length [] ys = refl
take-length (x ∷ xs) ys = ap (◌∷◌ x) (take-length xs ys)

pub drop-length : (xs ys : Bytes) → drop (length xs) (xs ++ ys) ≡ ys
drop-length [] ys = refl
drop-length (x ∷ xs) ys = drop-length xs ys

response_round :
    (device sig : Bytes) (at : ℤ) (b : Bytes)
    → encode_response device sig at ≡ ok b
    → decode_response b ≡ ok (record { device_id = device; signature = sig; timestamp = at })
response_round device sig (pos n) b e =
    subst
      (λ x.
        decode_response x ≡ ok (record { device_id = device; signature = sig; timestamp = pos n }))
      (ok-injective [] e) (rw (take-length device sig, drop-length device sig) refl)
response_round device sig (negsuc n) b e = ground arith

abbrev encode_result : Bool → Text → Text → Result Bytes
encode_result success reason [] = ok (flag success ∷ reason)
encode_result success reason (t ∷ token) = bad

abbrev decode_result : Bytes → Result AuthResult
decode_result [] = bad
decode_result (n ∷ reason) =
    ok (record { ok_flag = unflag n; error_message = reason; session_token = [] })

result_round :
    (success : Bool) (reason token : Text) (b : Bytes)
    → encode_result success reason token ≡ ok b
    → decode_result b
      ≡ ok (record { ok_flag = success; error_message = reason; session_token = token })
result_round true reason [] b e =
    subst
      (λ x.
        decode_result x
        ≡ ok (record { ok_flag = true; error_message = reason; session_token = [] }))
      (ok-injective [] e) refl
result_round false reason [] b e =
    subst
      (λ x.
        decode_result x
        ≡ ok (record { ok_flag = false; error_message = reason; session_token = [] }))
      (ok-injective [] e) refl
result_round success reason (t ∷ token) b e = ground arith

abbrev encode_fetch : ℤ → ℕ → Result Bytes
encode_fetch (pos n) limit = ok (n ∷ limit ∷ [])
encode_fetch (negsuc n) limit = bad

abbrev decode_fetch : Bytes → Result FetchRequest
decode_fetch [] = bad
decode_fetch (n ∷ []) = ok (record { after_seq = pos n; limit = 0 })
decode_fetch (n ∷ limit ∷ rest) = ok (record { after_seq = pos n; limit = limit })

fetch_round :
    (after : ℤ) (limit : ℕ) (b : Bytes)
    → encode_fetch after limit ≡ ok b
    → decode_fetch b ≡ ok (record { after_seq = after; limit = limit })
fetch_round (pos n) limit b e =
    subst (λ x. decode_fetch x ≡ ok (record { after_seq = pos n; limit = limit }))
      (ok-injective [] e) refl
fetch_round (negsuc n) limit b e = ground arith

abbrev encode_ack : ℤ → Result Bytes
encode_ack (pos n) = ok (n ∷ [])
encode_ack (negsuc n) = bad

abbrev decode_ack : Bytes → Result AckRequest
decode_ack [] = bad
decode_ack (n ∷ rest) = ok (record { acked_seq = pos n })

ack_round :
    (at : ℤ) (b : Bytes)
    → encode_ack at ≡ ok b
    → decode_fetch b ≡ ok (record { after_seq = at; limit = 0 })
ack_round (pos n) b e =
    subst (λ x. decode_fetch x ≡ ok (record { after_seq = pos n; limit = 0 })) (ok-injective [] e)
      refl
ack_round (negsuc n) b e = ground arith

-- Only responses without messages have an encoding.
abbrev encode_fetched : List SyncMessage → ℤ → Bool → Result Bytes
encode_fetched [] (pos n) more = ok (n ∷ flag more ∷ [])
encode_fetched [] (negsuc n) more = bad
encode_fetched (m ∷ ms) max more = bad

abbrev decode_fetched : Bytes → Result FetchResponse
decode_fetched [] = bad
decode_fetched (n ∷ []) = bad
decode_fetched (n ∷ more ∷ rest) =
    ok (record { messages = []; max_seq = pos n; has_more = unflag more })

fetched_round :
    (ms : List SyncMessage) (max : ℤ) (more : Bool) (b : Bytes)
    → encode_fetched ms max more ≡ ok b
    → decode_fetched b ≡ ok (record { messages = ms; max_seq = max; has_more = more })
fetched_round [] (pos n) true b e =
    subst (λ x. decode_fetched x ≡ ok (record { messages = []; max_seq = pos n; has_more = true }))
      (ok-injective [] e) refl
fetched_round [] (pos n) false b e =
    subst (λ x. decode_fetched x ≡ ok (record { messages = []; max_seq = pos n; has_more = false }))
      (ok-injective [] e) refl
fetched_round [] (negsuc n) more b e = ground arith
fetched_round (m ∷ ms) max more b e = ground arith

abbrev pub toy_codec : Codec
toy_codec = record {
  challenge = record {
    encode = λ m. encode_challenge m.nonce m.expires_at;
    decode = decode_challenge;
  };
  response = record {
    encode = λ m. encode_response m.device_id m.signature m.timestamp;
    decode = decode_response;
  };
  result = record {
    encode = λ m. encode_result m.ok_flag m.error_message m.session_token;
    decode = decode_result;
  };
  fetch = record { encode = λ m. encode_fetch m.after_seq m.limit; decode = decode_fetch };
  fetched = record {
    encode = λ m. encode_fetched m.messages m.max_seq m.has_more;
    decode = decode_fetched;
  };
  ack = record { encode = λ m. encode_ack m.acked_seq; decode = decode_ack };
  push = record { encode = λ m. ok m.id; decode = λ b. bad };
}

pub toy_codec_laws : CodecLaws toy_codec
toy_codec_laws = record {
  challenge = λ m b e. challenge_round m.nonce m.expires_at b e;
  response = λ m b e. response_round m.device_id m.signature m.timestamp b e;
  result = λ m b e. result_round m.ok_flag m.error_message m.session_token b e;
  fetch = λ m b e. fetch_round m.after_seq m.limit b e;
  fetched = λ m b e. fetched_round m.messages m.max_seq m.has_more b e;
  ack_by_number = λ a b e. ack_round a.acked_seq b e;
}

-- A codec that sends the ids of the messages of a response, and can send them all.
abbrev ids : List SyncMessage → Bytes
ids [] = []
ids (m ∷ ms) = m.id ++ ids ms

abbrev pub sending_codec : Codec
sending_codec = record toy_codec {
  fetched = record { encode = λ m. ok (ids m.messages); decode = λ b. bad };
}
