-- ===== src/Sync/Stream.antt =====
-- internal/sync/io.go: messages on a stream of length-prefixed frames. Frames arrive in order and none
-- is lost. A read past the last one finds the end of the stream where the other side has closed it, and
-- otherwise waits for good, since `ReadMsg` has no deadline. Other writes and reads succeed or fail as a list
-- of outcomes says; when it is used up they succeed.
pub mod Exchange
use go_p2p_messenger.Base.{
  Bytes, Option, none, some, List, [], ◌∷◌, ◌++◌, Error, message, wrap, Result, ok, err, map_error,
  Exec, arith, ◌≡◌, refl, ◌≢◌, Result-cases, inl, inr,
}
use go_p2p_messenger.Sync.Wire.{Format}

-- What follows the frames of a stream: the other side has closed it, or it stays open and silent; or a read
-- has been waiting there, and does not return. What a function yields with `waiting` is not a result of the
-- program: the loops that call it take it for no result, by `unless_waiting`.
pub data End : Type 0 where
  closed : End
  silent : End
  waiting : End

-- `none` is no return.
unfoldable pub unless_waiting : {A : Type 0} → End → A → Option A
unless_waiting closed a = some a
unless_waiting silent a = some a
unless_waiting waiting a = none

-- The end of a stream after a read that has reached it.
unfoldable pub reached : End → End
reached closed = closed
reached silent = waiting
reached waiting = waiting

pub record Stream : Type 0 where
  pub inbox : List Bytes
  pub ending : End
  pub outbox : List Bytes
  pub outcomes : List (Option Error)

-- `io.EOF`
abbrev pub eof : Error
eof = message "EOF"

abbrev put_frame : Bytes → Option Error → Stream → Result (Unit {0}) × Stream
put_frame frame none s = (ok tt, record s { outbox = s.outbox ++ frame ∷ [] })
put_frame frame (some e) s = (err e, s)

-- `w.WriteMsg(data)`
unfoldable pub write_frame : Bytes → Exec Stream (Unit {0})
write_frame frame s = elim s.outcomes [
  | [] ↦ put_frame frame none s
  | ◌∷◌ outcome rest ↦ put_frame frame outcome (record s { outcomes = rest })
]

abbrev take_frame : List Bytes → Stream → Result Bytes × Stream
take_frame [] s = (err eof, record s { ending = reached s.ending })
take_frame (frame ∷ rest) s = (ok frame, record s { inbox = rest })

abbrev get_frame : Option Error → Stream → Result Bytes × Stream
get_frame none s = take_frame s.inbox s
get_frame (some e) s = (err e, s)

-- `r.ReadMsg()`
unfoldable pub read_frame : Exec Stream Bytes
read_frame s = elim s.outcomes [
  | [] ↦ get_frame none s
  | ◌∷◌ outcome rest ↦ get_frame outcome (record s { outcomes = rest })
]

module _ {M : Type 0} (f : Format M) where
  unfoldable pub write_msg : M → Exec Stream (Unit {0})
  unfolding write_frame
  write_msg m s = elim (f.encode m) [
    | err e ↦ (err (wrap "marshal proto" e), s)
    | ok frame ↦ write_frame frame s
  ]

  abbrev pub decoded : Result Bytes → Result M
  decoded (err e) = err (wrap "read msgio" e)
  decoded (ok frame) = map_error (wrap "unmarshal proto") (f.decode frame)

  unfoldable pub read_msg : Exec Stream M
  unfolding read_frame
  read_msg s = let (r, s') = read_frame s in (decoded r, s')

  decoded-ne-eof : (r : Result Bytes) → decoded r ≢ err eof
  decoded-ne-eof (err e) h = ground arith
  decoded-ne-eof (ok frame) h = elim (Result-cases (f.decode frame)) [
    | inl c ↦ ground arith
    | inr c ↦ ground arith
  ]

  -- `ReadMsg` wraps the errors of the stream, so that none of its errors equals `io.EOF`, for which the
  -- server's loop tests.
  pub read_msg-ne-eof : (s : Stream) → (read_msg s).0 ≢ err eof
  unfolding read_msg
  read_msg-ne-eof s h = decoded-ne-eof (read_frame s).0 h
