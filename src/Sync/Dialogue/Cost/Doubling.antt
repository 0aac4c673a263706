-- ===== src/Sync/Dialogue/Cost/Doubling.antt =====
-- internal/sync/client.go and internal/sync/server.go: the number of rounds of a whole dialogue.
use go_p2p_messenger.Base.{
  ℕ, suc, ◌+◌, ◌*◌, ◌^◌, ◌≤◌, ◌<◌, ◌≡◌, refl, sym, ap, subst, List, [], ◌∷◌, ◌++◌, length,
  length-append, arith, ok, Exec, some,
}
use go_p2p_messenger.Storage.{MessageRow}
use go_p2p_messenger.Storage.Database.{Engine}
use go_p2p_messenger.Storage.Messages.Save.{IsKeyed}
use go_p2p_messenger.Sync.Wire.{FetchRequest, SyncMessage, Codec, CodecLaws}
use go_p2p_messenger.Sync.Client.{Session, fetch_loop}
use go_p2p_messenger.Sync.Server.{Link, serve}
use go_p2p_messenger.Sync.Dialogue.Refinement.{Connected, fetch_loop-serve-Dialogue}
use go_p2p_messenger.Sync.Dialogue.{acknowledged, Dialogue, concludes, continues}
use go_p2p_messenger.Sync.Dialogue.Cost.{
  wanted, Ranked, Ranked-append, acked-Level, some_of_more, acknowledged_of_some, Ranked-first,
  wanted_few,
}

module _ {S : Type 0} (save_batch : List SyncMessage → Exec S (Unit {0})) where
  Dialogue-doubles :
      (rows : List MessageRow) (i k : ℕ) (qs : List FetchRequest) (n : ℕ) (s s' : S)
      → Dialogue save_batch rows qs n s s'
      → IsKeyed rows
      → 100 * k ≤ length (wanted rows)
      → suc (length qs) ≡ i
      → Ranked rows i qs
      → 2 ^ k < i + n
  Dialogue-doubles rows i k pending n u u' (concludes qs rest req resp s s' e q v f) keyed h c a =
      let (l, b, same) = Ranked-first rows i qs rest req (omega (arith, c)) e a in
      omega (arith, wanted_few rows i k req resp keyed q l f h)
  Dialogue-doubles rows i k pending n u u' (continues qs rest req resp m s s' s'' e q v f d) keyed h
        c a =
      let (l, b, same) = Ranked-first rows i qs rest req (omega (arith, c)) e a in
      let ack : FetchRequest = record { after_seq = resp.max_seq; limit = 0 } in
      let next = acknowledged_of_some rows resp resp.messages (some_of_more rows req resp q f) in
      omega (
        arith,
        Dialogue-doubles rows (suc i) k (rest ++ acknowledged resp resp.messages) m s' s'' d keyed h
            (omega
              (arith, c, same, length-append rest (ack ∷ []), ap (λ x. length (rest ++ x)) next))
            (subst (λ x. Ranked rows (suc i) (rest ++ x)) (sym next)
              (Ranked-append rows (suc i) rest ack b (
                acked-Level rows i (suc i + length rest) req resp 0 q l (omega (arith, c, same))))),
      )

  -- In the same setting as `fetch_loop-serve-Dialogue`, whatever the callback does: when the device's loop
  -- returns without an error and the node has at least `100 * k` messages with a positive sequence number,
  -- the node has sent at least `2 ^ k` responses.
  pub fetch_loop-doubles :
      (engine : Engine) (codec : Codec) (rounds fuel k : ℕ) (node : Link) (device : Session S)
      → let done = fetch_loop codec save_batch fuel device in
        CodecLaws codec
        → IsKeyed node.db.tables.messages
        → Connected device done.1 node (serve engine codec rounds node).1
        → done.0 ≡ some (ok tt)
        → 100 * k ≤ length (wanted node.db.tables.messages)
        → 2 ^ k ≤ length device.stream.inbox
  fetch_loop-doubles engine codec rounds fuel k node device laws keyed connected returned h =
      let done = fetch_loop codec save_batch fuel device in
      let rows = node.db.tables.messages in
      let (n, d, same) =
        fetch_loop-serve-Dialogue engine codec save_batch rounds fuel node device laws keyed
          connected returned in
      omega
        (arith, same, Dialogue-doubles rows 1 k [] n device.store done.1.store d keyed h refl tt)
