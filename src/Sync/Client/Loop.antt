-- ===== src/Sync/Client/Loop.antt =====
-- internal/sync/client.go: when `FetchLoop` ends.
use go_p2p_messenger.Base.{
  ℕ, zero, suc, ◌<◌, ◌≡◌, refl, ◌∙◌, ap, subst, ℤ, Bool, true, false, some, Option, Error, inl, inr,
  ◌⊎◌, List, [], ◌∷◌, arith, length, Result, ok, err, and_then, map_error, wrap, Exec, pure, ◌>>=◌,
}
use go_p2p_messenger.Sync.Wire.{AckRequest, FetchResponse, SyncMessage, Format, Codec}
use go_p2p_messenger.Sync.Stream.{
  Stream, End, closed, silent, waiting, unless_waiting, read_msg, write_msg,
}
use go_p2p_messenger.Sync.Stream.Exchange.{IsWritten, IsRead, write_msg-IsWritten, read_msg-IsRead}
use go_p2p_messenger.Sync.Client.{
  Session, on_stream, fetch_all, keep, received, round, looped, fetch_loop,
}

module _ {S : Type 0} (codec : Codec) (save_batch : List SyncMessage → Exec S (Unit {0})) where
  written-inbox :
      {M : Type 0} (f : Format M) (m : M) (s s' : Stream) (r : Result (Unit {0}))
      → IsWritten f m s (r, s')
      → s'.inbox ≡ s.inbox
  written-inbox f m s s' (ok u) h = h.3
  written-inbox f m s s' (err e) h = h.1

  write-inbox :
      {M : Type 0} (f : Format M) (m : M) (s : Stream) → (write_msg f m s).1.inbox ≡ s.inbox
  write-inbox f m s =
      written-inbox f m s (write_msg f m s).1 (write_msg f m s).0 (write_msg-IsWritten f m s)

  -- After `saveBatch`.
  saved-inbox :
      (a : AckRequest) (r : Result (Unit {0})) (l : Session S)
      → (and_then (λ u. on_stream (write_msg codec.ack a)) r l).1.stream.inbox ≡ l.stream.inbox
  saved-inbox a (ok u) l = write-inbox codec.ack a l.stream
  saved-inbox a (err e) l = refl

  keep-inbox :
      (max_seq : ℤ) (ms : List SyncMessage) (l : Session S)
      → (keep codec save_batch max_seq ms l).1.stream.inbox ≡ l.stream.inbox
  unfolding keep
  keep-inbox max_seq [] l = refl
  keep-inbox max_seq (m ∷ ms) l =
      let (r, st) = save_batch (m ∷ ms) l.store in
      saved-inbox (record { acked_seq = max_seq }) (map_error (wrap "save batch") r)
        (record { store = st; stream = l.stream })

  -- After the batch is kept.
  kept-inbox :
      (more : Bool) (r : Result (Unit {0})) (l : Session S)
      → (and_then (λ u. pure more) r l).1.stream.inbox ≡ l.stream.inbox
  kept-inbox more (ok u) l = refl
  kept-inbox more (err e) l = refl

  received-inbox :
      (resp : FetchResponse) (l : Session S)
      → (received codec save_batch resp l).1.stream.inbox ≡ l.stream.inbox
  unfolding received
  received-inbox resp l =
      let (r, l') = keep codec save_batch resp.max_seq resp.messages l in
      kept-inbox resp.has_more r l' ∙ keep-inbox resp.max_seq resp.messages l

  -- After the read of a response.
  read-shorter :
      (r : Result FetchResponse) (s : Stream) (l : Session S) (more : Bool)
      → IsRead codec.fetched s (r, l.stream)
      → (and_then (received codec save_batch) r l).0 ≡ ok more
      → length (and_then (received codec save_batch) r l).1.stream.inbox < length s.inbox
  read-shorter (ok resp) s l more i h =
      omega (arith, ap length i.1, ap length (received-inbox resp l))
  read-shorter (err e) s l more i h = ground arith

  -- After the write of the request.
  sent-shorter :
      (w : Result (Unit {0})) (l : Session S) (more : Bool)
      → (and_then (λ u. on_stream (read_msg codec.fetched) >>= received codec save_batch) w l).0
        ≡ ok more
      → length
          (and_then
            (λ u. on_stream (read_msg codec.fetched) >>= received codec save_batch)
            w
            l).1.stream.inbox
        < length l.stream.inbox
  sent-shorter (ok u) l more h =
      let (r, s) = read_msg codec.fetched l.stream in
      read-shorter r l.stream (record l { stream = s }) more
        (read_msg-IsRead codec.fetched l.stream) h
  sent-shorter (err e) l more h = ground arith

  round-shorter :
      (l : Session S) (more : Bool)
      → (round codec save_batch l).0 ≡ ok more
      → length (round codec save_batch l).1.stream.inbox < length l.stream.inbox
  unfolding round
  round-shorter l more h =
      let (w, s) = write_msg codec.fetch fetch_all l.stream in
      subst (λ k. length (round codec save_batch l).1.stream.inbox < k)
        (ap length (write-inbox codec.fetch fetch_all l.stream))
        (sent-shorter w (record l { stream = s }) more h)

  -- The loop has returned, or it waits for a frame that does not come.
  abbrev pub IsOver : Option (Result (Unit {0})) × Session S → Type 0
  IsOver out = ((r : Result (Unit {0})) × (out.0 ≡ some r)) ⊎ (out.1.stream.ending ≡ waiting)

  stopped-IsOver : (e : Error) (l : Session S) → IsOver (unless_waiting l.stream.ending (err e), l)
  unfolding unless_waiting
  stopped-IsOver e l = by_ending l.stream.ending
    where
      by_ending :
          (x : End)
          → ((r : Result (Unit {0})) × (unless_waiting x (err e) ≡ some r)) ⊎ (x ≡ waiting)
      by_ending closed = inl (err e, refl)
      by_ending silent = inl (err e, refl)
      by_ending waiting = inr refl

  -- After a round that ended with `r`.
  looped-ends :
      (fuel : ℕ) (r : Result Bool) (l l' : Session S)
      → (round codec save_batch l).0 ≡ r
      → ((round codec save_batch l).0 ≡ ok true → IsOver (fetch_loop codec save_batch fuel l'))
      → IsOver (looped codec save_batch l' (fetch_loop codec save_batch fuel l') r)
  unfolding looped
  looped-ends fuel (err e) l l' h k = stopped-IsOver e l'
  looped-ends fuel (ok false) l l' h k = inl (ok tt, refl)
  looped-ends fuel (ok true) l l' h k = k h

  -- Whatever fails and whatever the callback does, within one round more than the node sends frames the
  -- loop returns, or it waits in a read for a frame that the node does not send.
  pub fetch_loop-ends :
      (fuel : ℕ) (l : Session S)
      → length l.stream.inbox < fuel
      → IsOver (fetch_loop codec save_batch fuel l)
  unfolding fetch_loop
  fetch_loop-ends zero l h = absurd (omega (arith, h))
  fetch_loop-ends (suc fuel) l h =
      let (r, l') = round codec save_batch l in
      looped-ends fuel r l l' refl
        (λ e. fetch_loop-ends fuel l' (omega (arith, h, round-shorter l true e)))
