-- ===== src/Sync/Server/Loop.antt =====
-- internal/sync/server.go: the main loop of a session.
use go_p2p_messenger.Base.{
  ℕ, zero, suc, ◌<◌, ◌≡◌, refl, ◌∙◌, ap, inl, inr, ◌⊎◌, pos, Bytes, some, List, [], ◌∷◌, arith,
  length, Result, ok, err, Error, Result-cases, and_then,
}
use go_p2p_messenger.Storage.{Message}
use go_p2p_messenger.Storage.Database.{Engine, Db}
use go_p2p_messenger.Storage.Messages.{get_since}
use go_p2p_messenger.Storage.Messages.Since.{tables-get_since}
use go_p2p_messenger.Storage.Messages.Save.{IsKeyed}
use go_p2p_messenger.Sync.Wire.{AckRequest, FetchRequest, FetchResponse, Codec, CodecLaws}
use go_p2p_messenger.Sync.Stream.{
  Stream, End, closed, silent, waiting, unless_waiting, read_msg, write_msg,
}
use go_p2p_messenger.Sync.Stream.Exchange.{
  IsWritten, IsRead, write_msg-IsWritten, read_msg-IsRead, connected, read_msg-connected,
}
use go_p2p_messenger.Sync.Server.{
  Link, fetch_limit, response_of, respond, handle_fetch, serve_once, serve,
}
use go_p2p_messenger.Sync.Server.Fetch.{IsAnswered, handle_fetch-IsAnswered}

by_ending :
    (e : Error) (end : End) → ((x : Error) × (unless_waiting end e ≡ some x)) ⊎ (end ≡ waiting)
unfolding unless_waiting
by_ending e closed = inl (e, refl)
by_ending e silent = inl (e, refl)
by_ending e waiting = inr refl

module _ (engine : Engine) (codec : Codec) where
  written-inbox :
      (m : FetchResponse) (s s' : Stream) (r : Result (Unit {0}))
      → IsWritten codec.fetched m s (r, s')
      → s'.inbox ≡ s.inbox
  written-inbox m s s' (ok u) h = h.3
  written-inbox m s s' (err e) h = h.1

  respond-inbox :
      (req : FetchRequest) (r : Result (List Message)) (l : Link)
      → (respond engine codec req r l).1.stream.inbox ≡ l.stream.inbox
  unfolding respond
  respond-inbox req (err e) l = refl
  respond-inbox req (ok msgs) l =
      let resp = response_of req.after_seq (fetch_limit req.limit) msgs in
      let (r, s') = write_msg codec.fetched resp l.stream in
      written-inbox resp l.stream s' r (write_msg-IsWritten codec.fetched resp l.stream)

  respond-tables :
      (req : FetchRequest) (r : Result (List Message)) (l : Link)
      → (respond engine codec req r l).1.db ≡ l.db
  unfolding respond
  respond-tables req (err e) l = refl
  respond-tables req (ok msgs) l = refl

  handle_fetch-tables :
      (req : FetchRequest) (l : Link) → (handle_fetch engine codec req l).1.db.tables ≡ l.db.tables
  unfolding handle_fetch
  handle_fetch-tables req l =
      let (r, db') = get_since engine [] req.after_seq (pos (fetch_limit req.limit)) l.db in
      ap (λ (d : Db). d.tables) (respond-tables req r (record l { db = db' }))
      ∙ tables-get_since engine [] req.after_seq (pos (fetch_limit req.limit)) l.db

  pub handle_fetch-inbox :
      (req : FetchRequest) (l : Link)
      → (handle_fetch engine codec req l).1.stream.inbox ≡ l.stream.inbox
  unfolding handle_fetch
  handle_fetch-inbox req l =
      let (r, db') = get_since engine [] req.after_seq (pos (fetch_limit req.limit)) l.db in
      respond-inbox req r (record l { db = db' })

  -- After the read of a request.
  fetched-tables :
      (r : Result FetchRequest) (l : Link)
      → (and_then (handle_fetch engine codec) r l).1.db.tables ≡ l.db.tables
  fetched-tables (ok req) l = handle_fetch-tables req l
  fetched-tables (err e) l = refl

  fetched-shorter :
      (r : Result FetchRequest) (s : Stream) (l : Link)
      → IsRead codec.fetch s (r, l.stream)
      → (and_then (handle_fetch engine codec) r l).0 ≡ ok tt
      → length (and_then (handle_fetch engine codec) r l).1.stream.inbox < length s.inbox
  fetched-shorter (ok req) s l i h =
      omega (arith, ap length i.1, ap length (handle_fetch-inbox req l))
  fetched-shorter (err e) s l i h = ground arith

  pub serve_once-tables : (l : Link) → (serve_once engine codec l).1.db.tables ≡ l.db.tables
  unfolding serve_once
  serve_once-tables l =
      let (r, s') = read_msg codec.fetch l.stream in fetched-tables r (record l { stream = s' })

  serve_once-shorter :
      (l : Link)
      → (serve_once engine codec l).0 ≡ ok tt
      → length (serve_once engine codec l).1.stream.inbox < length l.stream.inbox
  unfolding serve_once
  serve_once-shorter l =
      let (r, s') = read_msg codec.fetch l.stream in
      fetched-shorter r l.stream (record l { stream = s' }) (read_msg-IsRead codec.fetch l.stream)

  stopped :
      (e : Error) (l : Link)
      → ((x : Error) × (unless_waiting l.stream.ending e ≡ some x)) ⊎ (l.stream.ending ≡ waiting)
  stopped e l = by_ending e l.stream.ending

  -- Within one round more than there are frames the loop ends with an error or waits in a read; and it
  -- changes no table, so that no progress of the device is recorded.
  pub serve-ends :
      (fuel : ℕ) (l : Link)
      → length l.stream.inbox < fuel
      → (((e : Error) × ((serve engine codec fuel l).0 ≡ some e))
          ⊎ ((serve engine codec fuel l).1.stream.ending ≡ waiting))
        × ((serve engine codec fuel l).1.db.tables ≡ l.db.tables)
  unfolding serve
  serve-ends zero l h = absurd (omega (arith, h))
  serve-ends (suc fuel) l h = elim (Result-cases (serve_once engine codec l).0) [
    | inr (e, x) ↦ rw (x, serve) (stopped e (serve_once engine codec l).1, serve_once-tables l)
    | inl (u, x) ↦
        let (p, q) =
          serve-ends fuel (serve_once engine codec l).1
            (omega (arith, h, serve_once-shorter l x)) in
        rw (x, serve) (p, q ∙ serve_once-tables l)
  ]

  -- On a working stream with an encoded `AckRequest` in front, over a table with unique sequence numbers:
  -- the acknowledgement is answered as a request for all messages above `acked_seq`, and no table changes.
  pub ack-IsAnswered :
      (a : AckRequest) (frame : Bytes) (inbox outbox : List Bytes) (db : Db)
      → CodecLaws codec
      → codec.ack.encode a ≡ ok frame
      → IsKeyed db.tables.messages
      → IsAnswered engine codec
          (record { after_seq = a.acked_seq; limit = 0 })
          (record { db = db; stream = connected inbox outbox })
          (serve_once engine codec (record { db = db; stream = connected (frame ∷ inbox) outbox }))
  unfolding serve_once
  ack-IsAnswered a frame inbox outbox db laws h k =
      rw
        (read_msg-connected codec.fetch (record { after_seq = a.acked_seq; limit = 0 }) frame inbox
          outbox (laws.ack_by_number a frame h))
        (handle_fetch-IsAnswered engine codec (record { after_seq = a.acked_seq; limit = 0 })
          (record { db = db; stream = connected inbox outbox }) k)
