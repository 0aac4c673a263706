-- ===== src/Sync/Engine/Success.antt =====
-- internal/sync/engine.go and internal/sync/server.go: a whole cycle with a node whose messages fit into
-- one response, where everything works.
use go_p2p_messenger.Base.{
  ℕ, ◌≡◌, ◌≢◌, refl, sym, subst, ap, inl, inr, ℤ, pos, ◌<ℤ◌, ltb_ℤ, Bytes, true, false, some, List,
  [], ◌∷◌, ◌++◌, All, AllPairs-imp, In, In-select, length, length-map, length_le_of_In, ◌<◌, ◌≤◌,
  ok, All-of_In, In-select_inv, arith, codes,
}
use go_p2p_messenger.Event.{Bus, publish, topic_sync_status}
use go_p2p_messenger.Event
use go_p2p_messenger.Storage.{MessageRow, Tables}
use go_p2p_messenger.Storage.Database.{Engine, with_tables}
use go_p2p_messenger.Storage.Messages.{eligible, seq_of, message_of}
use go_p2p_messenger.Storage.Messages.Save.{IsKeyed}
use go_p2p_messenger.Storage.Messages.Since.{IsBatch, since_rows-IsBatch}
use go_p2p_messenger.Identity.{Crypto, CryptoLaws, Identity, device_id}
use go_p2p_messenger.Sync.Wire.{FetchResponse, SyncMessage, Codec, CodecLaws}
use go_p2p_messenger.Sync.Stream.Exchange.{connected}
use go_p2p_messenger.Sync.Client.{fetch_all, authenticate}
use go_p2p_messenger.Sync.Client.Handshake.{
  IsIdentity, proof_of, welcome, server-admits, client-accepts,
}
use go_p2p_messenger.Sync.Server.{
  sync_message_of, challenge_of, fetch_limit, response_of, serve_once,
}
use go_p2p_messenger.Sync.Server
use go_p2p_messenger.Sync.Server.Fetch.{reply, reply-covers}
use go_p2p_messenger.Sync.Server.Working.{batch_for, serve_once-connected}
use go_p2p_messenger.Sync.Dialogue.Complete.{sent_as, In-messages}
use go_p2p_messenger.Sync.Dialogue.Cost.{wanted}
use go_p2p_messenger.Sync.Engine.{authenticated, concluded, sync_status, sync_cycle}
use go_p2p_messenger.Sync.Engine.Held.{IsHeld}
use go_p2p_messenger.Sync.Engine.Batch.{working, announced_all, save_batch-saves}
use go_p2p_messenger.Sync.Engine.Complete.{fetched, HasRow, IsHeld-HasRow}
use go_p2p_messenger.Sync.Engine.Working.{fetch_loop-connected}

batch_few :
    (n : ℕ) (rows batch : List MessageRow)
    → IsBatch [] (pos 0) n rows batch
    → length batch ≤ length (wanted rows)
batch_few n rows batch b =
    length_le_of_In batch (wanted rows)
      (AllPairs-imp (λ r s. seq_of r <ℤ seq_of s) (λ r s. r ≢ s)
        (λ r s h e. absurd (omega (arith, subst (λ x. seq_of r <ℤ seq_of x) (sym e) h))) batch
        b.ascending)
      (λ r i. let (j, e) = b.sound r i in In-select (eligible [] (pos 0)) r rows j e)

module _ (engine : Engine) (t : Tables) (keyed : IsKeyed t.messages)
    (few : length (wanted t.messages) < 100) where
  -- What the node answers to the first request.
  abbrev whole : FetchResponse
  whole = reply (pos 0) (fetch_limit 100) (batch_for engine t fetch_all)

  whole-IsBatch : IsBatch [] (pos 0) (fetch_limit 100) t.messages (batch_for engine t fetch_all)
  whole-IsBatch = since_rows-IsBatch engine [] (pos 0) t.messages (fetch_limit 100) keyed

  whole_last : whole.has_more ≡ false
  unfolding response_of fetch_limit
  whole_last = ground (
    arith,
    few,
    batch_few (fetch_limit 100) t.messages (batch_for engine t fetch_all) whole-IsBatch,
    length-map message_of (batch_for engine t fetch_all),
  )

  whole_covers :
      (P : SyncMessage → Type 0) (r : MessageRow)
      → All P whole.messages
      → In r t.messages
      → eligible [] (pos 0) r ≡ true
      → P (sent_as r)
  unfolding response_of
  whole_covers P r h i e =
      elim (reply-covers t.messages (pos 0) (fetch_limit 100) (batch_for engine t fetch_all) r
        whole-IsBatch i e) [
          | inl j ↦ In-messages P r (batch_for engine t fetch_all) j h
          | inr c ↦ absurd (ground (arith, whole_last, c.0))
        ]

module _ {T : Type 0} (c : Crypto) (codec : Codec) (ident : Identity c) (now stamp : ℤ) where
  -- After the handshake, the cycle is its loop.
  cycle_of_fetched :
      (t t' : Tables) (b b' : Bus) (tp : T) (frames inbox sent left : List Bytes)
      → authenticate c codec ident now stamp (connected frames []) ≡ (ok tt, connected inbox sent)
      → fetched c codec ident now stamp (connected inbox sent) (working t b tp)
        ≡ (some (ok tt), record { store = working t' b' tp; stream = connected [] left })
      → sync_cycle c codec ident now stamp (ok (connected frames [])) (working t b tp)
        ≡ (some (ok tt), (sync_status (codes "completed") (working t' b' tp)).1)
  unfolding sync_cycle authenticated concluded
  cycle_of_fetched t t' b b' tp frames inbox sent left e f = rw e (rw f refl)

  -- Drivers and streams that work, and a node with fewer than 100 messages with a positive sequence
  -- number, each id and number once: with the documented laws of keys and codec, and with encodings of
  -- what is sent, the node lets the device in and sends one response, and the cycle returns without an
  -- error. Then, for every one of these messages whose content is not empty, the device has a row with its
  -- id or its sequence number. `acks` is what the device sends after its request.
  pub sync_cycle_succeeds :
      (engine : Engine) (node device : Tables) (b : Bus) (tp : T) (nonce sig : Bytes) (issued : ℤ)
      (f₁ f₂ f₃ asked answer acked : Bytes)
      → let resp = reply (pos 0) (fetch_limit 100) (batch_for engine node fetch_all) in
        CryptoLaws c
        → CodecLaws codec
        → IsIdentity c codec ident
        → ltb_ℤ (challenge_of nonce issued).expires_at now ≡ false
        → c.sign ident.private_key nonce ≡ ok sig
        → codec.challenge.encode (challenge_of nonce issued) ≡ ok f₁
        → codec.response.encode (proof_of c codec ident sig stamp) ≡ ok f₂
        → codec.result.encode (welcome c codec ident) ≡ ok f₃
        → codec.fetch.encode fetch_all ≡ ok asked
        → codec.fetched.encode resp ≡ ok answer
        → codec.ack.encode (record { acked_seq = resp.max_seq }) ≡ ok acked
        → IsKeyed node.messages
        → length (wanted node.messages) < 100
        → (acks : List Bytes) × (device' : Tables) × (b' : Bus) × (Server.authenticate c codec
              ident.peer_id nonce issued
              (connected (f₂ ∷ asked ∷ acks) [])
            ≡ (ok tt, connected (asked ∷ acks) (f₁ ∷ f₃ ∷ [])))
          × (serve_once engine codec
                (record { db = with_tables node; stream = connected (asked ∷ acks) (f₁ ∷ f₃ ∷ []) })
              ≡ (
                ok tt,
                record { db = with_tables node; stream = connected acks (f₁ ∷ f₃ ∷ answer ∷ []) },
              ))
          × ((fetched c codec ident now stamp
                (connected (answer ∷ []) (f₂ ∷ []))
                (working device b tp)).1.stream.outbox
              ≡ f₂ ∷ asked ∷ acks)
          × (sync_cycle c codec ident now stamp
                (ok (connected (f₁ ∷ f₃ ∷ answer ∷ []) []))
                (working device b tp)
              ≡ (some (ok tt), working device' b' tp))
          × All (HasRow device'.messages) (wanted node.messages)
  sync_cycle_succeeds engine node device b tp nonce sig issued f₁ f₂ f₃ asked answer acked laws
        codec_laws own fresh signed first second third q e a keyed few =
      let resp = reply (pos 0) (fetch_limit 100) (batch_for engine node fetch_all) in
      let started =
        publish topic_sync_status (Event.sync (record { status = codes "started" })) b in
      let (device', saves, covered, progress) =
        save_batch-saves (device_id c ident) now resp.messages device started tp in
      let b' = announced_all resp.messages started in
      let (acks, runs) =
        fetch_loop-connected codec (device_id c ident) now 1 resp asked answer acked [] (f₂ ∷ []) q
          (codec_laws.fetched resp answer e) a (whole_last engine node keyed few)
          (working device started tp) (working device' b' tp) saves in
      (
        acks,
        device',
        publish topic_sync_status (Event.sync (record { status = codes "completed" })) b',
        server-admits c codec ident laws codec_laws nonce sig issued now stamp f₁ f₂ f₃
            (asked ∷ acks) own fresh signed first second third,
        serve_once-connected engine node codec fetch_all asked answer acks (f₁ ∷ f₃ ∷ [])
            (codec_laws.fetch fetch_all asked q) e,
        ap (λ p. p.1.stream.outbox) runs,
        cycle_of_fetched device device' b b' tp (f₁ ∷ f₃ ∷ answer ∷ []) (answer ∷ []) (f₂ ∷ [])
            ((f₂ ∷ asked ∷ []) ++ acks)
            (client-accepts c codec ident laws codec_laws nonce sig issued now stamp f₁ f₂ f₃
              (answer ∷ []) own fresh signed first second third)
            runs,
        All-of_In (HasRow device'.messages) (wanted node.messages) (λ r i.
            let (j, k) = In-select_inv (eligible [] (pos 0)) r node.messages i in
            IsHeld-HasRow device'.messages r
              (whole_covers engine node keyed few (IsHeld device'.messages) r covered j k)),
      )
