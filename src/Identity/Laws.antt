-- ===== src/Identity/Laws.antt =====
-- internal/identity/identity_manager.go: a stored identity is the one that is loaded again.
use go_p2p_messenger.Base.{
  Text, Bytes, ◌≡◌, refl, sym, ◌∙◌, ap, subst₂, true, Option, none, some, [], ok, arith, subst,
  Bool-cases, Result-cases, inl, inr,
}
use go_p2p_messenger.Identity.{
  Crypto, CryptoLaws, Disk, Read, found, missing, failed, Identity, write_file, read_file, generate,
  loaded, load, has_key, start_identity,
}

file_of_found : (d : Disk) (b : Bytes) (d₁ : Disk) → read_file d ≡ (found b, d₁) → d₁.file ≡ some b
unfolding read_file
file_of_found d b d₁ h = ground arith

module _ (c : Crypto) (laws : CryptoLaws c) where
  -- The file holds the identity's private key, from which all of it is found again.
  abbrev pub Stored : Identity c → Option Bytes → Type 0
  Stored id none = ⊥
  Stored id (some b) = loaded c (found b) ≡ ok id

  Stored-of_parts :
      (entropy content : Bytes) (priv : c.PrivKey) (key : c.PubKey) (id : Text)
      → c.generate_key entropy ≡ ok (priv, key)
      → c.marshal priv ≡ ok content
      → c.id_from_public_key key ≡ ok id
      → Stored (record { private_key = priv; public_key = key; peer_id = id }) (some content)
  unfolding loaded
  Stored-of_parts entropy content priv key id g m i =
      ground (arith, laws.generate_public entropy priv key g, laws.unmarshal_marshal priv content m)

  generate-Stored :
      (entropy : Bytes) (d d' : Disk) (id : Identity c)
      → generate c entropy d ≡ (ok id, d')
      → Stored id d'.file
  unfolding generate write_file
  generate-Stored entropy d d' id e = elim (Result-cases (c.generate_key entropy)) [
    | inr (x, g) ↦ absurd (ground arith)
    | inl ((priv, key), g) ↦ elim (Result-cases (c.marshal priv)) [
      | inr (x, m) ↦ absurd (ground arith)
      | inl (content, m) ↦ elim (Result-cases (c.id_from_public_key key)) [
        | inr (x, i) ↦ absurd (ground arith)
        | inl (pid, i) ↦
            (let made : Identity c = record {
              private_key = priv;
              public_key = key;
              peer_id = pid;
            } in
              let file : some content ≡ d'.file = ground arith in
              let same : made ≡ id = ground arith in
              subst₂ Stored same file (Stored-of_parts entropy content priv key pid g m i))
      ]
    ]
  ]

  load-Stored_of_read :
      (d : Disk) (r : Read) (d₁ : Disk) (id : Identity c) (d' : Disk)
      → read_file d ≡ (r, d₁)
      → loaded c r ≡ ok id
      → d₁ ≡ d'
      → Stored id d'.file
  unfolding loaded
  load-Stored_of_read d missing d₁ id d' h e f = cc
  load-Stored_of_read d (failed x) d₁ id d' h e f = cc
  load-Stored_of_read d (found b) d₁ id d' h e f =
      subst (Stored id) (sym (file_of_found d b d₁ h) ∙ ap (λ (x : Disk). x.file) f) e

  load-Stored :
      (d : Disk) (id : Identity c) (d' : Disk) → load c d ≡ (ok id, d') → Stored id d'.file
  unfolding load
  load-Stored d id d' e =
      load-Stored_of_read d (read_file d).0 (read_file d).1 id d' refl (ap (λ p. p.0) e)
        (ap (λ p. p.1) e)

  load_of_Stored :
      (id : Identity c) (file : Option Bytes)
      → Stored id file
      → load c (record { file = file; outcomes = [] })
        ≡ (ok id, record { file = file; outcomes = [] })
  unfolding load
  load_of_Stored id none h = absurd h
  load_of_Stored id (some b) h = rw (load, h) refl

  started :
      (again : Bytes) (file : Option Bytes) (id : Identity c)
      → Stored id file
      → (start_identity c again (record { file = file; outcomes = [] })).0 ≡ ok id
  unfolding start_identity
  started again none id h = absurd h
  started again (some b) id h = h

  start_identity-Stored :
      (entropy : Bytes) (d : Disk) (id : Identity c) (d' : Disk)
      → start_identity c entropy d ≡ (ok id, d')
      → Stored id d'.file
  unfolding start_identity
  start_identity-Stored entropy d id d' e = elim (Bool-cases (has_key c d).0) [
    | inl t ↦ load-Stored (has_key c d).1 id d' (ground arith)
    | inr f ↦ generate-Stored entropy (has_key c d).1 d' id (ground arith)
  ]

  -- Whatever the file system answers, an identity that the program has started with is stored, and the
  -- next start, with a file system that works, loads the same one, whatever entropy it gets.
  pub start_identity_twice :
      (entropy again : Bytes) (d : Disk) (id : Identity c) (d' : Disk)
      → start_identity c entropy d ≡ (ok id, d')
      → (start_identity c again (record d' { outcomes = [] })).0 ≡ ok id
  start_identity_twice entropy again d id d' e =
      started again d'.file id (start_identity-Stored entropy d id d' e)

  has_key_of_Stored :
      (id : Identity c) (file : Option Bytes)
      → Stored id file
      → (has_key c (record { file = file; outcomes = [] })).0 ≡ true
  unfolding has_key
  has_key_of_Stored id none h = absurd h
  has_key_of_Stored id (some b) h = refl

  -- Once the program has an identity its key file is there, so that the second `HasKey` of `main`, with a
  -- file system that works, is true and the identity screen is not shown.
  pub has_key-start_identity :
      (entropy : Bytes) (d : Disk) (id : Identity c) (d' : Disk)
      → start_identity c entropy d ≡ (ok id, d')
      → (has_key c (record d' { outcomes = [] })).0 ≡ true
  has_key-start_identity entropy d id d' e =
      has_key_of_Stored id d'.file (start_identity-Stored entropy d id d' e)
