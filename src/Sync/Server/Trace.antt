-- ===== src/Sync/Server/Trace.antt =====
-- internal/sync/server.go: the frames that a session reads and those that it sends.
use go_p2p_messenger.Base.{
  ℕ, zero, suc, ◌≡◌, refl, sym, ◌∙◌, ap, subst, Bytes, List, [], ◌∷◌, ◌++◌, append_assoc,
  append-nil, Result, ok, err, Error, and_then, Result-cases, inl, inr, arith,
}
use go_p2p_messenger.Storage.{MessageRow, Tables}
use go_p2p_messenger.Storage.Database.{Engine, Db}
use go_p2p_messenger.Storage.Messages.Save.{IsKeyed}
use go_p2p_messenger.Sync.Wire.{FetchRequest, FetchResponse, Codec}
use go_p2p_messenger.Sync.Stream.{unless_waiting, Stream, read_msg}
use go_p2p_messenger.Sync.Stream.Exchange.{IsRead, read_msg-IsRead}
use go_p2p_messenger.Sync.Server.{Link, handle_fetch, serve_once, serve}
use go_p2p_messenger.Sync.Server.Fetch.{IsReply, IsAnswered, handle_fetch-IsAnswered}
use go_p2p_messenger.Sync.Server.Loop.{handle_fetch-inbox}

module _ (engine : Engine) (codec : Codec) where
  -- Frames read, and the frames sent for them: one reply for each request, in their order.
  pub data Served (rows : List MessageRow) : List Bytes → List Bytes → Type 0 where
    idle : Served rows [] []
    replied :
        (request reply : Bytes) (req : FetchRequest) (resp : FetchResponse) (read sent : List Bytes)
        → codec.fetch.decode request ≡ ok req
        → IsReply rows req resp
        → codec.fetched.encode resp ≡ ok reply
        → Served rows read sent
        → Served rows (request ∷ read) (reply ∷ sent)

  abbrev IsRound : Link → Result (Unit {0}) × Link → Type 0
  IsRound l (err e, l') = (l'.stream.outbox ≡ l.stream.outbox) × (l'.db.tables ≡ l.db.tables)
  IsRound l (ok u, l') =
      (request : Bytes) × (reply : Bytes) × (req : FetchRequest) × (resp : FetchResponse)
      × (l.stream.inbox ≡ request ∷ l'.stream.inbox)
      × (codec.fetch.decode request ≡ ok req)
      × IsReply l.db.tables.messages req resp
      × (codec.fetched.encode resp ≡ ok reply)
      × (l'.stream.outbox ≡ l.stream.outbox ++ reply ∷ [])
      × (l'.db.tables ≡ l.db.tables)

  answered-IsRound :
      (db : Db) (s s' : Stream) (req : FetchRequest) (frame : Bytes) (r : Result (Unit {0}))
      (l : Link)
      → s.inbox ≡ frame ∷ s'.inbox
      → codec.fetch.decode frame ≡ ok req
      → s'.outbox ≡ s.outbox
      → l.stream.inbox ≡ s'.inbox
      → IsAnswered engine codec req (record { db = db; stream = s' }) (r, l)
      → IsRound (record { db = db; stream = s }) (r, l)
  answered-IsRound db s s' req frame (err e) l i d o k a = (a.0 ∙ o, a.1)
  answered-IsRound db s s' req frame (ok u) l i d o k a =
      let (t, (resp, q, (reply, e, w))) = a in
      (
        frame,
        reply,
        req,
        resp,
        i ∙ ap (λ x. frame ∷ x) (sym k),
        d,
        q,
        e,
        w ∙ ap (λ x. x ++ reply ∷ []) o,
        t,
      )

  read-IsRound :
      (db : Db) (s s' : Stream) (r : Result FetchRequest)
      → IsKeyed db.tables.messages
      → IsRead codec.fetch s (r, s')
      → IsRound
          (record { db = db; stream = s })
          (and_then (handle_fetch engine codec) r (record { db = db; stream = s' }))
  read-IsRound db s s' (err e) k i = (i.1, refl)
  read-IsRound db s s' (ok req) k i =
      let l : Link = record { db = db; stream = s' } in
      let (r, l') = handle_fetch engine codec req l in
      answered-IsRound db s s' req i.0 r l' i.1 i.2 i.3 (handle_fetch-inbox engine codec req l)
        (handle_fetch-IsAnswered engine codec req l k)

  serve_once-IsRound :
      (l : Link) → IsKeyed l.db.tables.messages → IsRound l (serve_once engine codec l)
  unfolding serve_once
  serve_once-IsRound l k =
      let (r, s') = read_msg codec.fetch l.stream in
      read-IsRound l.db l.stream s' r k (read_msg-IsRead codec.fetch l.stream)

  -- What a run of the loop has read and sent.
  abbrev pub IsSession : Link → Link → Type 0
  IsSession l l' =
      (read : List Bytes) × (left : List Bytes) × (sent : List Bytes) × (l.stream.inbox
        ≡ read ++ left)
      × (l'.stream.outbox ≡ l.stream.outbox ++ sent)
      × Served l.db.tables.messages read sent

  stopped-IsSession : (l l' : Link) → l'.stream.outbox ≡ l.stream.outbox → IsSession l l'
  stopped-IsSession l l' h =
      ([], l.stream.inbox, [], refl, h ∙ sym (append-nil l.stream.outbox), idle)

  round-IsSession : (l l' l'' : Link) → IsRound l (ok tt, l') → IsSession l' l'' → IsSession l l''
  round-IsSession l l' l'' r s =
      let (request, reply, req, resp, i, d, q, e, w, t) = r in
      let (read, left, sent, j, o, v) = s in
      (
        request ∷ read,
        left,
        reply ∷ sent,
        i ∙ ap (λ x. request ∷ x) j,
        o ∙ ap (λ x. x ++ sent) w ∙ append_assoc l.stream.outbox (reply ∷ []) sent,
        replied request reply req resp read sent d q e
            (subst (λ x. Served x.messages read sent) t v),
      )

  serve_stops :
      (fuel : ℕ) (l : Link) (e : Error)
      → (serve_once engine codec l).0 ≡ err e
      → serve engine codec (suc fuel) l ≡ (
        unless_waiting (serve_once engine codec l).1.stream.ending e,
        (serve_once engine codec l).1,
      )
  unfolding serve
  serve_stops fuel l e h = ground arith

  serve_goes_on :
      (fuel : ℕ) (l : Link)
      → (serve_once engine codec l).0 ≡ ok tt
      → serve engine codec (suc fuel) l ≡ serve engine codec fuel (serve_once engine codec l).1
  unfolding serve
  serve_goes_on fuel l h = ground arith

  -- Over a table with unique sequence numbers, whatever fails and however long it runs: the loop has sent
  -- exactly one reply for each of the first frames of the stream, in their order, each made as
  -- `handleFetch` makes it for that request; it has sent nothing else.
  pub serve-IsSession :
      (fuel : ℕ) (l : Link)
      → IsKeyed l.db.tables.messages
      → IsSession l (serve engine codec fuel l).1
  unfolding serve
  serve-IsSession zero l k = stopped-IsSession l l refl
  serve-IsSession (suc fuel) l k =
      let (r, l') = serve_once engine codec l in
      let h = serve_once-IsRound l k in
      elim (Result-cases r) [
        | inr (e, x) ↦
            subst (λ p. IsSession l p.1) (sym (serve_stops fuel l e x))
              (stopped-IsSession l l' (subst (λ q. IsRound l (q, l')) x h).0)
        | inl (u, x) ↦
            let h' = subst (λ q. IsRound l (q, l')) x h in
            subst (λ p. IsSession l p.1) (sym (serve_goes_on fuel l x))
              (round-IsSession l l' (serve engine codec fuel l').1 h'
                (serve-IsSession fuel l' (subst (λ (t : Tables). IsKeyed t.messages) (sym h'.9) k)))
      ]
