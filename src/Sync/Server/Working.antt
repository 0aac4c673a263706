-- ===== src/Sync/Server/Working.antt =====
-- internal/sync/server.go: a round of the main loop where the driver and the stream work.
use go_p2p_messenger.Base.{◌≡◌, refl, pos, Bytes, List, [], ◌∷◌, ◌++◌, ok}
use go_p2p_messenger.Storage.{MessageRow, Tables}
use go_p2p_messenger.Storage.Database.{Engine, with_tables}
use go_p2p_messenger.Storage.Messages.Since.{get_since_faultless}
use go_p2p_messenger.Storage.Messages.{since_rows}
use go_p2p_messenger.Sync.Wire.{FetchRequest, Codec}
use go_p2p_messenger.Sync.Stream.Exchange.{connected, write_msg-connected, read_msg-connected}
use go_p2p_messenger.Sync.Server.{fetch_limit, respond, handle_fetch, serve_once}
use go_p2p_messenger.Sync.Server.Fetch.{reply}

module _ (engine : Engine) (t : Tables) where
  -- The rows of which the response to a request is made.
  abbrev pub batch_for : FetchRequest → List MessageRow
  batch_for req = since_rows engine [] req.after_seq (pos (fetch_limit req.limit)) t.messages

  pub serve_once-connected :
      (codec : Codec) (req : FetchRequest) (request answer : Bytes) (inbox outbox : List Bytes)
      → codec.fetch.decode request ≡ ok req
      → codec.fetched.encode (reply req.after_seq (fetch_limit req.limit) (batch_for req))
        ≡ ok answer
      → serve_once engine codec
          (record { db = with_tables t; stream = connected (request ∷ inbox) outbox })
        ≡ (ok tt, record { db = with_tables t; stream = connected inbox (outbox ++ answer ∷ []) })
  unfolding serve_once
  serve_once-connected codec req request answer inbox outbox d e =
      rw (read_msg-connected codec.fetch req request inbox outbox d) (
        rw
          (
            handle_fetch,
            get_since_faultless engine [] req.after_seq (pos (fetch_limit req.limit)) t,
            respond,
          )
          (rw
            (write_msg-connected codec.fetched
              (reply req.after_seq (fetch_limit req.limit) (batch_for req)) answer inbox outbox e)
            refl))
