-- ===== src/Tests/Crypto.antt =====
-- Toy keys: a key is a number, an id holds it, and a signature is the content behind the key.
use go_p2p_messenger.Base.{
  ℕ, Bytes, text_eq, text_eq_refl, true, [], ◌∷◌, length, Result, ok, err, message, ◌≡◌, refl, ap,
  subst, arith,
}
use go_p2p_messenger.Identity.{Crypto, CryptoLaws, Identity}

abbrev key_of : Bytes → Result ℕ
key_of (k ∷ []) = ok k
key_of [] = err (message "no key")
key_of (k ∷ j ∷ rest) = err (message "no key")

abbrev value_or : {A : Type 0} → A → Result A → A
value_or a (ok x) = x
value_or a (err e) = a

pub ok-injective : {A : Type 0} {x y : A} → A → ok x ≡ ok y → x ≡ y
ok-injective a e = ap (value_or a) e

abbrev pub toy : Crypto
toy = record {
  PrivKey = ℕ;
  PubKey = ℕ;
  generate_key = λ entropy. ok (length entropy, length entropy);
  marshal = λ k. ok (k ∷ []);
  unmarshal = key_of;
  public_of = λ k. k;
  id_from_public_key = λ k. ok (k ∷ []);
  extract_public_key = key_of;
  show_id = λ id. id;
  decode_id = λ text. ok text;
  sign = λ k content. ok (k ∷ content);
  verify = λ k content sig. ok (text_eq sig (k ∷ content));
  unmarshal_public = key_of;
}

pub toy_laws : CryptoLaws toy
toy_laws = record {
  generate_public = λ entropy priv key e. ground arith;
  unmarshal_marshal = λ priv encoded e. subst (λ b. key_of b ≡ ok priv) (ok-injective [] e) refl;
  extract_id = λ entropy priv key id g e. subst (λ b. key_of b ≡ ok key) (ok-injective [] e) refl;
  verify_sign = λ priv content sig e.
      subst (λ b. ok (text_eq b (priv ∷ content)) ≡ ok true) (ok-injective [] e)
        (ap (λ b. ok b) (text_eq_refl (priv ∷ content)));
}

abbrev pub alice : Identity toy
alice = record { private_key = 7; public_key = 7; peer_id = 7 ∷ [] }
