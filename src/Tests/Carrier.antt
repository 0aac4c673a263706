-- ===== src/Tests/Carrier.antt =====
-- A codec that carries every response.
use go_p2p_messenger.Base.{
  ℕ, zero, suc, ℤ, pos, negsuc, Bytes, Bool, true, false, List, [], ◌∷◌, ◌++◌, length, take, drop,
  ok, err, message, ◌≡◌, refl, ap, subst, ok-injective,
}
use go_p2p_messenger.Sync.Wire.{FetchResponse, SyncMessage, Codec, CodecLaws, IsPushedByNumber}
use go_p2p_messenger.Tests.Codec.{take-length, drop-length, flag, unflag, toy_codec, toy_codec_laws}

unfoldable pub put : Bytes → Bytes → Bytes
put xs rest = length xs ∷ (xs ++ rest)

unfoldable pub get : Bytes → Bytes × Bytes
get [] = ([], [])
get (n ∷ rest) = (take n rest, drop n rest)

get-put : (xs rest : Bytes) → get (put xs rest) ≡ (xs, rest)
unfolding get put
get-put xs rest = rw (take-length xs rest, drop-length xs rest) refl

unfoldable pub put_int : ℤ → Bytes → Bytes
put_int (pos n) rest = 0 ∷ n ∷ rest
put_int (negsuc n) rest = 1 ∷ n ∷ rest

abbrev int_of : ℕ → ℕ → ℤ
int_of zero n = pos n
int_of (suc k) n = negsuc n

unfoldable pub get_int : Bytes → ℤ × Bytes
get_int [] = (pos 0, [])
get_int (s ∷ []) = (pos 0, [])
get_int (s ∷ n ∷ rest) = (int_of s n, rest)

get_int-put_int : (x : ℤ) (rest : Bytes) → get_int (put_int x rest) ≡ (x, rest)
unfolding get_int put_int
get_int-put_int (pos n) rest = refl
get_int-put_int (negsuc n) rest = refl

unfoldable pub put_message : SyncMessage → Bytes → Bytes
put_message m rest = put m.id (
    put m.conversation_id (
      put m.sender_id
        (put m.content (put m.sender_signature (put_int m.global_seq (put_int m.sent_at rest))))))

unfoldable pub get_message : Bytes → SyncMessage × Bytes
get_message b =
    let (id, b) = get b in
    let (conversation, b) = get b in
    let (sender, b) = get b in
    let (content, b) = get b in
    let (sig, b) = get b in
    let (seq, b) = get_int b in
    let (sent, b) = get_int b in
    (
      record {
        id = id;
        conversation_id = conversation;
        sender_id = sender;
        content = content;
        global_seq = seq;
        sender_signature = sig;
        sent_at = sent;
      },
      b,
    )

get_message-put_message :
    (m : SyncMessage) (rest : Bytes) → get_message (put_message m rest) ≡ (m, rest)
unfolding get_message put_message
get_message-put_message m rest = simp (get-put, get_int-put_int) refl

abbrev put_messages : List SyncMessage → Bytes
put_messages [] = []
put_messages (m ∷ ms) = put_message m (put_messages ms)

abbrev get_messages : ℕ → Bytes → List SyncMessage
get_messages zero b = []
get_messages (suc n) b = let (m, rest) = get_message b in m ∷ get_messages n rest

get_messages-put_messages :
    (ms : List SyncMessage) → get_messages (length ms) (put_messages ms) ≡ ms
get_messages-put_messages [] = refl
get_messages-put_messages (m ∷ ms) =
    rw (get_message-put_message m (put_messages ms))
      (ap (λ x. m ∷ x) (get_messages-put_messages ms))

abbrev pub put_response : FetchResponse → Bytes
put_response m = put_int m.max_seq (flag m.has_more ∷ length m.messages ∷ put_messages m.messages)

abbrev get_rest : ℤ → Bytes → FetchResponse
get_rest max (more ∷ n ∷ rest) = record {
  messages = get_messages n rest;
  max_seq = max;
  has_more = unflag more;
}
get_rest max (more ∷ []) = record { messages = []; max_seq = max; has_more = unflag more }
get_rest max [] = record { messages = []; max_seq = max; has_more = false }

abbrev get_response : Bytes → FetchResponse
get_response b = let (max, rest) = get_int b in get_rest max rest

unflag-flag : (b : Bool) → unflag (flag b) ≡ b
unflag-flag true = refl
unflag-flag false = refl

get_response-put_response : (m : FetchResponse) → get_response (put_response m) ≡ m
get_response-put_response m = simp (get_int-put_int, unflag-flag, get_messages-put_messages) refl

abbrev pub carrying_codec : Codec
carrying_codec = record toy_codec {
  fetched = record { encode = λ m. ok (put_response m); decode = λ b. ok (get_response b) };
}

pub carrying_codec_laws : CodecLaws carrying_codec
carrying_codec_laws = record {
  challenge = toy_codec_laws.challenge;
  response = toy_codec_laws.response;
  result = toy_codec_laws.result;
  fetch = toy_codec_laws.fetch;
  fetched = λ m b e.
      subst (λ x. ok (get_response x) ≡ ok m) (ok-injective e)
        (ap (λ x. ok x) (get_response-put_response m));
  ack_by_number = toy_codec_laws.ack_by_number;
}

-- A push is encoded as the response that has its number.
abbrev pub pushing_codec : Codec
pushing_codec = record carrying_codec {
  push = record {
    encode =
        λ m. ok (put_response (record { messages = m ∷ []; max_seq = pos 0; has_more = false }));
    decode = λ b. err (message "bad frame");
  };
}

pub pushing_codec-IsPushedByNumber : IsPushedByNumber pushing_codec
pushing_codec-IsPushedByNumber m b e =
    carrying_codec_laws.fetched (record { messages = m ∷ []; max_seq = pos 0; has_more = false }) b
      e
