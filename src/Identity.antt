-- ===== src/Identity.antt =====
-- internal/identity/identity_manager.go: the key pair of the device and its file.
pub mod Laws
use go_p2p_messenger.Base.{
  Text, Bytes, Bool, true, false, Option, none, some, List, [], ◌∷◌, Error, message, wrap, pair,
  Result, ok, err, map_error, Exec, ◌>>=◌, ◌>>◌, pure, wrapping, if◌then◌else◌, ◌≡◌,
}

-- go-libp2p's keys and peer ids. A `peer.ID` is a Go string.
pub record Crypto : Type 1 where
  pub PrivKey : Type 0
  pub PubKey : Type 0
  pub generate_key : Bytes → Result (PrivKey × PubKey)
  pub marshal : PrivKey → Result Bytes
  pub unmarshal : Bytes → Result PrivKey
  pub public_of : PrivKey → PubKey
  pub id_from_public_key : PubKey → Result Text
  pub extract_public_key : Text → Result PubKey
  pub show_id : Text → Text
  pub decode_id : Text → Result Text
  pub sign : PrivKey → Bytes → Result Bytes
  pub verify : PubKey → Bytes → Bytes → Result Bool
  pub unmarshal_public : Bytes → Result PubKey

-- What go-libp2p documents of them: a generated pair, which is of Ed25519, belongs together, keys survive
-- encoding, the peer id of a generated key holds the key, and a signature verifies under the signer's
-- public key.
pub record CryptoLaws (c : Crypto) : Type 0 where
  pub generate_public :
      (entropy : Bytes) (priv : c.PrivKey) (key : c.PubKey)
      → c.generate_key entropy ≡ ok (priv, key)
      → key ≡ c.public_of priv
  pub unmarshal_marshal :
      (priv : c.PrivKey) (encoded : Bytes)
      → c.marshal priv ≡ ok encoded
      → c.unmarshal encoded ≡ ok priv
  pub extract_id :
      (entropy : Bytes) (priv : c.PrivKey) (key : c.PubKey) (id : Text)
      → c.generate_key entropy ≡ ok (priv, key)
      → c.id_from_public_key key ≡ ok id
      → c.extract_public_key id ≡ ok key
  pub verify_sign :
      (priv : c.PrivKey) (content sig : Bytes)
      → c.sign priv content ≡ ok sig
      → c.verify (c.public_of priv) content sig ≡ ok true

-- The file system's answer to one call: it works, or it fails with an error that `os.IsNotExist` does
-- not accept; a failed write leaves the file in the state given.
pub data FileOutcome : Type 0 where
  fine : FileOutcome
  broken : Error → Option Bytes → FileOutcome

-- The key file at the manager's path, and the answers to come; when these are used up all calls work.
pub record Disk : Type 0 where
  pub file : Option Bytes
  pub outcomes : List FileOutcome

abbrev pub err_key_not_found : Error
err_key_not_found = message "identity key not found"

abbrev pub err_key_invalid : Error
err_key_invalid = message "identity key is invalid"

written : Bytes → FileOutcome → Disk → Result (Unit {0}) × Disk
written content fine d = (ok tt, record d { file = some content })
written content (broken e left) d = (err e, record d { file = left })

-- `os.WriteFile`
unfoldable pub write_file : Bytes → Exec Disk (Unit {0})
unfolding written
write_file content d = elim d.outcomes [
  | [] ↦ (ok tt, record d { file = some content })
  | ◌∷◌ outcome rest ↦ written content outcome (record d { outcomes = rest })
]

-- The result of `os.ReadFile`: the content, no such file, or another error.
pub data Read : Type 0 where
  found : Bytes → Read
  missing : Read
  failed : Error → Read

abbrev read_of : Option Bytes → Read
read_of none = missing
read_of (some b) = found b

abbrev read_with : FileOutcome → Option Bytes → Read
read_with fine file = read_of file
read_with (broken e left) file = failed e

unfoldable pub read_file : Disk → Read × Disk
read_file d = elim d.outcomes [
  | [] ↦ (read_of d.file, d)
  | ◌∷◌ outcome rest ↦ (read_with outcome d.file, record d { outcomes = rest })
]

module _ (c : Crypto) where
  pub record Identity : Type 0 where
    pub private_key : c.PrivKey
    pub public_key : c.PubKey
    pub peer_id : Text

  unfoldable pub device_id : Identity → Text
  device_id id = c.show_id id.peer_id

  -- `Identity.Sign`
  unfoldable pub sign_with : Identity → Bytes → Result Bytes
  sign_with id content = c.sign id.private_key content

  -- `Verify`
  unfoldable pub verify : c.PubKey → Bytes → Bytes → Result Bool
  verify key content signature = c.verify key content signature

  -- `MarshalPrivateKey`
  unfoldable pub marshal_private_key : c.PrivKey → Result Bytes
  marshal_private_key priv = c.marshal priv

  unfoldable pub verify_bytes : Bytes → Bytes → Bytes → Result Bool
  verify_bytes key content signature = elim (c.unmarshal_public key) [
    | ok k ↦ c.verify k content signature
    | err e ↦ err (wrap "unmarshal public key" e)
  ]

  abbrev pub lift : {A : Type 0} → Result A → Exec Disk A
  lift r d = (r, d)

  unfoldable pub generate : Bytes → Exec Disk Identity
  unfolding write_file
  generate entropy = do
    (priv, key) ← lift (map_error (wrap "generate key") (c.generate_key entropy))
    content ← lift (map_error (wrap "marshal private key") (c.marshal priv))
    wrapping "write key to file" (write_file content)
    id ← lift (map_error (wrap "derive peer ID") (c.id_from_public_key key))
    pure (record { private_key = priv; public_key = key; peer_id = id })

  -- After `os.ReadFile`.
  unfoldable pub loaded : Read → Result Identity
  loaded missing = err err_key_not_found
  loaded (failed e) = err (wrap "read key file" e)
  loaded (found b) = elim (c.unmarshal b) [
    | err e ↦ err (pair "" err_key_invalid e)
    | ok priv ↦ elim (c.id_from_public_key (c.public_of priv)) [
      | err e ↦ err (wrap "derive peer ID" e)
      | ok id ↦ ok (record { private_key = priv; public_key = c.public_of priv; peer_id = id })
    ]
  ]

  unfoldable pub load : Exec Disk Identity
  unfolding loaded read_file
  load d = let (r, d') = read_file d in (loaded r, d')

  -- `os.Stat` without an error.
  unfoldable pub has_key : Disk → Bool × Disk
  unfolding read_file
  has_key d =
      let (r, d') = read_file d in
      (elim r [ found b ↦ true | missing ↦ false | failed e ↦ false ], d')

  -- The choice of an identity when the program starts.
  unfoldable pub start_identity : Bytes → Exec Disk Identity
  unfolding has_key load generate
  start_identity entropy d =
      let (known, d') = has_key d in if known then load d' else generate entropy d'
