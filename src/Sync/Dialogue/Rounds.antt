-- ===== src/Sync/Dialogue/Rounds.antt =====
-- internal/sync/client.go: what a round of `FetchLoop` that ends without an error has done.
use go_p2p_messenger.Base.{
  ◌≡◌, refl, sym, ◌∙◌, ap, subst, ℤ, Bool, List, [], ◌∷◌, ◌++◌, arith, Bytes, append_assoc,
  append-nil, Result, ok, err, and_then, map_error, wrap, Exec, pure, ◌>>=◌, bind_ok, bind_runs,
}
use go_p2p_messenger.Sync.Wire.{FetchResponse, SyncMessage, Format, Codec}
use go_p2p_messenger.Sync.Stream.{Stream, read_msg, write_msg}
use go_p2p_messenger.Sync.Stream.Exchange.{IsWritten, IsRead, write_msg-IsWritten, read_msg-IsRead}
use go_p2p_messenger.Sync.Client.{Session, on_stream, fetch_all, keep, received, round}
use go_p2p_messenger.Sync.Dialogue.{Saves}

-- The message of a frame that was written, and what the write changed.
abbrev pub Wrote : {M : Type 0} → Format M → M → Stream → Stream → Bytes → Type 0
Wrote f m s s' frame =
    (f.encode m ≡ ok frame) × (s'.outbox ≡ s.outbox ++ frame ∷ []) × (s'.inbox ≡ s.inbox)

Wrote-of :
    {M : Type 0} (f : Format M) (m : M) (s s' : Stream) (r : Result (Unit {0}))
    → r ≡ ok tt
    → IsWritten f m s (r, s')
    → (frame : Bytes) × Wrote f m s s' frame
Wrote-of f m s s' (ok u) e w = (w.0, (w.1, w.2, w.3))
Wrote-of f m s s' (err x) e w = ground arith

write_ok :
    {M : Type 0} (f : Format M) (m : M) (s : Stream)
    → (write_msg f m s).0 ≡ ok tt
    → (frame : Bytes) × Wrote f m s (write_msg f m s).1 frame
write_ok f m s e =
    Wrote-of f m s (write_msg f m s).1 (write_msg f m s).0 e (write_msg-IsWritten f m s)

abbrev pub Took : {M : Type 0} → Format M → M → Stream → Stream → Type 0
Took f m s s' =
    (frame : Bytes) × (s.inbox ≡ frame ∷ s'.inbox)
    × (f.decode frame ≡ ok m)
    × (s'.outbox ≡ s.outbox)

Took-of :
    {M : Type 0} (f : Format M) (m : M) (s s' : Stream) (r : Result M)
    → r ≡ ok m
    → IsRead f s (r, s')
    → Took f m s s'
Took-of f m s s' (ok x) e w = subst (λ q. IsRead f s (q, s')) e w
Took-of f m s s' (err x) e w = ground arith

read_ok :
    {M : Type 0} (f : Format M) (m : M) (s : Stream)
    → (read_msg f s).0 ≡ ok m
    → Took f m s (read_msg f s).1
read_ok f m s e = Took-of f m s (read_msg f s).1 (read_msg f s).0 e (read_msg-IsRead f s)

module _ {S : Type 0} (codec : Codec) (save_batch : List SyncMessage → Exec S (Unit {0})) where
  -- The frames by which the client acknowledges messages.
  abbrev pub IsAck : ℤ → List SyncMessage → List Bytes → Type 0
  IsAck max_seq [] frames = frames ≡ []
  IsAck max_seq (m ∷ ms) frames =
      (frame : Bytes) × (codec.ack.encode (record { acked_seq = max_seq }) ≡ ok frame)
      × (frames ≡ frame ∷ [])

  abbrev Kept : ℤ → List SyncMessage → Session S → Session S → Type 0
  Kept max_seq ms l l' =
      (frames : List Bytes) × Saves save_batch ms l.store l'.store
      × IsAck max_seq ms frames
      × (l'.stream.outbox ≡ l.stream.outbox ++ frames)
      × (l'.stream.inbox ≡ l.stream.inbox)

  saved_then_acked :
      (max_seq : ℤ) (m : SyncMessage) (ms : List SyncMessage) (l : Session S)
      (r : Result (Unit {0})) (st : S)
      → save_batch (m ∷ ms) l.store ≡ (r, st)
      → (and_then
          (λ u. on_stream (write_msg codec.ack (record { acked_seq = max_seq })))
          (map_error (wrap "save batch") r)
          (record l { store = st })).0
        ≡ ok tt
      → Kept max_seq
          (m ∷ ms)
          l
          (and_then
            (λ u. on_stream (write_msg codec.ack (record { acked_seq = max_seq })))
            (map_error (wrap "save batch") r)
            (record l { store = st })).1
  saved_then_acked max_seq m ms l (err e) st q h = ground arith
  saved_then_acked max_seq m ms l (ok u) st q h =
      let (frame, (e, o, i)) = write_ok codec.ack (record { acked_seq = max_seq }) l.stream h in
      (frame ∷ [], q, (frame, e, refl), o, i)

  keep-Kept :
      (max_seq : ℤ) (ms : List SyncMessage) (l : Session S)
      → (keep codec save_batch max_seq ms l).0 ≡ ok tt
      → Kept max_seq ms l (keep codec save_batch max_seq ms l).1
  unfolding keep
  keep-Kept max_seq [] l h = ([], refl, refl, sym (append-nil l.stream.outbox), refl)
  keep-Kept max_seq (m ∷ ms) l h =
      let (r, st) = save_batch (m ∷ ms) l.store in saved_then_acked max_seq m ms l r st refl h

  -- A round that ends without an error: the client writes its request, takes a response, saves its
  -- messages and acknowledges them.
  pub record IsRound (l l' : Session S) (more : Bool) : Type 0 where
    pub asked : Bytes
    pub asks : codec.fetch.encode fetch_all ≡ ok asked
    pub answer : Bytes
    pub resp : FetchResponse
    pub answers : codec.fetched.decode answer ≡ ok resp
    pub acks : List Bytes
    pub is_ack : IsAck resp.max_seq resp.messages acks
    pub saves : Saves save_batch resp.messages l.store l'.store
    pub has_more : resp.has_more ≡ more
    pub inbox : l.stream.inbox ≡ answer ∷ l'.stream.inbox
    pub outbox : l'.stream.outbox ≡ l.stream.outbox ++ (asked ∷ acks)

  received-Kept :
      (resp : FetchResponse) (l : Session S) (more : Bool)
      → (received codec save_batch resp l).0 ≡ ok more
      → Kept resp.max_seq resp.messages l (received codec save_batch resp l).1
        × (resp.has_more ≡ more)
  unfolding received
  received-Kept resp l more h =
      let (u, e, k) =
        bind_ok (λ u. pure resp.has_more) (keep codec save_batch resp.max_seq resp.messages) l more
          h in
      (
        subst (λ p. Kept resp.max_seq resp.messages l p.1)
            (sym (
              bind_runs (λ u. pure resp.has_more) (keep codec save_batch resp.max_seq resp.messages)
                l u e))
            (keep-Kept resp.max_seq resp.messages l e),
        ground (arith, k),
      )

  pub round-IsRound :
      (l : Session S) (more : Bool)
      → (round codec save_batch l).0 ≡ ok more
      → IsRound l (round codec save_batch l).1 more
  unfolding round
  round-IsRound l more h =
      let ask = on_stream (write_msg codec.fetch fetch_all) in
      let take = on_stream (read_msg codec.fetched) in
      let next = take >>= received codec save_batch in
      let (u, e, h₁) = bind_ok (λ u. next) ask l more h in
      let l₁ = (ask l).1 in
      let (resp, e', h₂) = bind_ok (received codec save_batch) take l₁ more h₁ in
      let l₂ = (take l₁).1 in
      let (asked, (a, o, i)) = write_ok codec.fetch fetch_all l.stream e in
      let (answer, i', d, o') = read_ok codec.fetched resp l₁.stream e' in
      let ((acks, sv, ia, o'', i''), m) = received-Kept resp l₂ more h₂ in
      subst (λ p. IsRound l p.1 more)
        (sym
          (bind_runs (λ u. next) ask l u e ∙ bind_runs (received codec save_batch) take l₁ resp e'))
        (record {
          asked = asked;
          asks = a;
          answer = answer;
          resp = resp;
          answers = d;
          acks = acks;
          is_ack = ia;
          saves = sv;
          has_more = m;
          inbox = sym i ∙ i' ∙ ap (λ x. answer ∷ x) (sym i'');
          outbox =
              o'' ∙ ap (λ x. x ++ acks) (o' ∙ o) ∙ append_assoc l.stream.outbox (asked ∷ []) acks;
        })
