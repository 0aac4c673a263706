-- ===== src/Sync/Stream/Exchange.antt =====
-- internal/sync/io.go: what `WriteMsg` and `ReadMsg` do to a stream, also where they fail.
use go_p2p_messenger.Base.{
  ◌≤◌, ◌≡◌, refl, ap, Error, Bytes, Option, none, some, List, [], ◌∷◌, ◌++◌, length, arith, Result,
  ok, err, wrap, map_error, Result-cases, inl, inr,
}
use go_p2p_messenger.Sync.Wire.{Format}
use go_p2p_messenger.Sync.Stream.{
  Stream, End, closed, reached, decoded, write_frame, read_frame, write_msg, read_msg,
}

-- A stream on which everything works, and which the other side closes after its frames.
abbrev pub connected : List Bytes → List Bytes → Stream
connected inbox outbox = record { inbox = inbox; ending = closed; outbox = outbox; outcomes = [] }

abbrev stream_of : List Bytes → End → List Bytes → List (Option Error) → Stream
stream_of inbox ending outbox outcomes = record {
  inbox = inbox;
  ending = ending;
  outbox = outbox;
  outcomes = outcomes;
}

abbrev pub IsWrittenFrame : Bytes → Stream → Result (Unit {0}) × Stream → Type 0
IsWrittenFrame frame s (ok u, s') = (s'.outbox ≡ s.outbox ++ frame ∷ []) × (s'.inbox ≡ s.inbox)
IsWrittenFrame frame s (err e, s') = (s'.outbox ≡ s.outbox) × (s'.inbox ≡ s.inbox)

write_frame-IsWrittenFrame :
    (frame : Bytes) (inbox : List Bytes) (ending : End) (outbox : List Bytes)
    (outcomes : List (Option Error))
    → let s = stream_of inbox ending outbox outcomes in IsWrittenFrame frame s (write_frame frame s)
unfolding write_frame
write_frame-IsWrittenFrame frame inbox ending outbox [] = (refl, refl)
write_frame-IsWrittenFrame frame inbox ending outbox (none ∷ rest) = (refl, refl)
write_frame-IsWrittenFrame frame inbox ending outbox (some e ∷ rest) = (refl, refl)

abbrev pub IsReadFrame : Stream → Result Bytes × Stream → Type 0
IsReadFrame s (ok frame, s') = (s.inbox ≡ frame ∷ s'.inbox) × (s'.outbox ≡ s.outbox)
IsReadFrame s (err e, s') = (s'.inbox ≡ s.inbox) × (s'.outbox ≡ s.outbox)

read_frame-IsReadFrame :
    (inbox : List Bytes) (ending : End) (outbox : List Bytes) (outcomes : List (Option Error))
    → let s = stream_of inbox ending outbox outcomes in IsReadFrame s (read_frame s)
unfolding read_frame
read_frame-IsReadFrame [] ending outbox [] = (refl, refl)
read_frame-IsReadFrame (frame ∷ inbox) ending outbox [] = (refl, refl)
read_frame-IsReadFrame [] ending outbox (none ∷ rest) = (refl, refl)
read_frame-IsReadFrame (frame ∷ inbox) ending outbox (none ∷ rest) = (refl, refl)
read_frame-IsReadFrame inbox ending outbox (some e ∷ rest) = (refl, refl)

module _ {M : Type 0} (f : Format M) where
  -- A write appends one frame, the message's, or it fails and appends none.
  abbrev pub IsWritten : M → Stream → Result (Unit {0}) × Stream → Type 0
  IsWritten m s (ok u, s') =
      (frame : Bytes) × (f.encode m ≡ ok frame)
      × (s'.outbox ≡ s.outbox ++ frame ∷ [])
      × (s'.inbox ≡ s.inbox)
  IsWritten m s (err e, s') = (s'.outbox ≡ s.outbox) × (s'.inbox ≡ s.inbox)

  IsWritten-of_frame :
      (m : M) (frame : Bytes) (s : Stream) (r : Result (Unit {0})) (s' : Stream)
      → f.encode m ≡ ok frame
      → IsWrittenFrame frame s (r, s')
      → IsWritten m s (r, s')
  IsWritten-of_frame m frame s (ok u) s' e h = (frame, e, h.0, h.1)
  IsWritten-of_frame m frame s (err x) s' e h = h

  pub write_msg-IsWritten : (m : M) (s : Stream) → IsWritten m s (write_msg f m s)
  unfolding write_msg
  write_msg-IsWritten m s = elim (Result-cases (f.encode m)) [
    | inl (frame, e) ↦
        rw (e, write_msg)
          (IsWritten-of_frame m frame s (write_frame frame s).0 (write_frame frame s).1 e
            (write_frame-IsWrittenFrame frame s.inbox s.ending s.outbox s.outcomes))
    | inr (x, e) ↦ rw (e, write_msg) (refl, refl)
  ]

  -- A read takes the first frame and decodes it. It never takes more than one, and it writes nothing.
  abbrev pub IsRead : Stream → Result M × Stream → Type 0
  IsRead s (ok m, s') =
      (frame : Bytes) × (s.inbox ≡ frame ∷ s'.inbox)
      × (f.decode frame ≡ ok m)
      × (s'.outbox ≡ s.outbox)
  IsRead s (err e, s') = (length s'.inbox ≤ length s.inbox) × (s'.outbox ≡ s.outbox)

  IsRead-of_decode :
      (s s' : Stream) (frame : Bytes) (d : Result M)
      → f.decode frame ≡ d
      → IsReadFrame s (ok frame, s')
      → IsRead s (map_error (wrap "unmarshal proto") d, s')
  IsRead-of_decode s s' frame (ok m) e h = (frame, h.0, e, h.1)
  IsRead-of_decode s s' frame (err x) e h = (omega (arith, ap length h.0), h.1)

  IsRead-of_frame :
      (s s' : Stream) (r : Result Bytes) → IsReadFrame s (r, s') → IsRead s (decoded f r, s')
  IsRead-of_frame s s' (ok frame) h = IsRead-of_decode s s' frame (f.decode frame) refl h
  IsRead-of_frame s s' (err x) h = (omega (arith, ap length h.0), h.1)

  pub read_msg-IsRead : (s : Stream) → IsRead s (read_msg f s)
  unfolding read_msg
  read_msg-IsRead s =
      IsRead-of_frame s (read_frame s).1 (read_frame s).0
        (read_frame-IsReadFrame s.inbox s.ending s.outbox s.outcomes)

  pub write_msg-connected :
      (m : M) (frame : Bytes) (inbox outbox : List Bytes)
      → f.encode m ≡ ok frame
      → write_msg f m (connected inbox outbox) ≡ (ok tt, connected inbox (outbox ++ frame ∷ []))
  unfolding write_msg write_frame
  write_msg-connected m frame inbox outbox h = ground arith

  pub read_msg-connected :
      (m : M) (frame : Bytes) (inbox outbox : List Bytes)
      → f.decode frame ≡ ok m
      → read_msg f (connected (frame ∷ inbox) outbox) ≡ (ok m, connected inbox outbox)
  unfolding read_msg read_frame
  read_msg-connected m frame inbox outbox h = ground arith

  pub read_msg_end :
      (outbox : List Bytes) → (read_msg f (connected [] outbox)).1 ≡ connected [] outbox
  unfolding read_msg read_frame reached
  read_msg_end outbox = refl
