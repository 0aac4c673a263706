-- ===== src/Logic/Envelope.antt =====
-- internal/logic/processor.go: what is sealed is opened again, and nothing else is.
use go_p2p_messenger.Base.{
  ◌≡◌, sym, ◌∙◌, Bytes, text_eq, text_eq_iff, ◌++◌, arith, take, take-append-drop, Result, ok, err,
  ◌↔◌, subst, Result-cases, inl, inr,
}
use go_p2p_messenger.Logic.{enc_prefix, encrypt_for, decrypt, seal_message}

decrypt-prefix : (content : Bytes) → decrypt (enc_prefix ++ content) ≡ ok content
unfolding decrypt text_eq
decrypt-prefix content = ground arith

decrypt_sound :
    (payload content : Bytes) → decrypt payload ≡ ok content → payload ≡ enc_prefix ++ content
unfolding decrypt
decrypt_sound payload content h =
    sym (take-append-drop 4 payload) ∙ ground (arith, text_eq_iff (take 4 payload) enc_prefix)

-- A payload decrypts exactly when it begins with the prefix, and then to what follows it.
pub decrypt_iff :
    (payload content : Bytes) → (decrypt payload ≡ ok content) ↔ (payload ≡ enc_prefix ++ content)
decrypt_iff payload content = (decrypt_sound payload content, λ e. rw e (decrypt-prefix content))

-- What `SealMessage` returns decrypts to the payload, and carries the signature of the sealed bytes.
pub seal_message-opens :
    (key_pair : Result (Unit {0})) (sign : Bytes → Result Bytes) (payload enc sig : Bytes)
    → seal_message key_pair sign payload ≡ ok (enc, sig)
    → (decrypt enc ≡ ok payload) × (sign enc ≡ ok sig)
unfolding seal_message encrypt_for
seal_message-opens (err e) sign payload enc sig h = cc
seal_message-opens (ok u) sign payload enc sig h =
    elim (Result-cases (sign (enc_prefix ++ payload))) [
      | inl (s, q) ↦
          (let same : enc_prefix ++ payload ≡ enc = ground arith in
            (
              subst (λ (x : Bytes). decrypt x ≡ ok payload) same (decrypt-prefix payload),
              ground arith,
            ))
      | inr (e, q) ↦ absurd (ground arith)
    ]
