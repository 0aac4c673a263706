-- ===== src/Sync/Dialogue/Refinement.antt =====
-- internal/sync/client.go and internal/sync/server.go: a session in which both loops run over one stream
-- is a dialogue.
use go_p2p_messenger.Base.{
  ℕ, zero, suc, ◌≡◌, ◌≢◌, refl, sym, ◌∙◌, ap, subst, inl, inr, true, false, Option, some, List, [],
  ◌∷◌, ◌++◌, arith, Bytes, Error, append_assoc, append-nil, Result, ok, err, Result-cases, Exec,
  length, ◌+◌,
}
use mathlib.Core.List.{append_cancel_left}
use go_p2p_messenger.Storage.{MessageRow}
use go_p2p_messenger.Storage.Database.{Engine}
use go_p2p_messenger.Storage.Messages.Save.{IsKeyed}
use go_p2p_messenger.Sync.Wire.{FetchRequest, SyncMessage, Codec, CodecLaws}
use go_p2p_messenger.Sync.Stream.{End, closed, silent, waiting, unless_waiting}
use go_p2p_messenger.Sync.Client.{Session, round, looped, fetch_loop}
use go_p2p_messenger.Sync.Server.{Link, serve}
use go_p2p_messenger.Sync.Server.Trace.{Served, serve-IsSession}
use go_p2p_messenger.Sync.Dialogue.{acknowledged, Dialogue, concludes, continues}
use go_p2p_messenger.Sync.Dialogue.Steps.{Reads, Step, step}
use go_p2p_messenger.Sync.Dialogue.Rounds.{IsRound, round-IsRound}

not_ok : (e : Error) (end : End) → unless_waiting {A = Result (Unit {0})} end (err e) ≢ some (ok tt)
unfolding unless_waiting
not_ok e closed h = ground (arith, h)
not_ok e silent h = ground (arith, h)
not_ok e waiting h = ground (arith, h)

module _ {S : Type 0} (codec : Codec) (save_batch : List SyncMessage → Exec S (Unit {0})) where
  loop_fails :
      (fuel : ℕ) (l : Session S) (e : Error)
      → (round codec save_batch l).0 ≡ err e
      → (fetch_loop codec save_batch (suc fuel) l).0 ≢ some (ok tt)
  unfolding fetch_loop looped
  loop_fails fuel l e h k =
      let stops : (fetch_loop codec save_batch (suc fuel) l).0
          ≡ unless_waiting (round codec save_batch l).1.stream.ending (err e) =
        rw (h, looped) refl in
      not_ok e (round codec save_batch l).1.stream.ending (sym stops ∙ k)

  loop_stops :
      (fuel : ℕ) (l : Session S)
      → (round codec save_batch l).0 ≡ ok false
      → fetch_loop codec save_batch (suc fuel) l ≡ (some (ok tt), (round codec save_batch l).1)
  unfolding fetch_loop looped
  loop_stops fuel l h = ground arith

  loop_goes_on :
      (fuel : ℕ) (l : Session S)
      → (round codec save_batch l).0 ≡ ok true
      → fetch_loop codec save_batch (suc fuel) l
        ≡ fetch_loop codec save_batch fuel (round codec save_batch l).1
  unfolding fetch_loop looped
  loop_goes_on fuel l h = ground arith

  -- A loop that returns without an error has only appended frames.
  fetch_loop_extends :
      (fuel : ℕ) (l : Session S)
      → (fetch_loop codec save_batch fuel l).0 ≡ some (ok tt)
      → (w : List Bytes) × ((fetch_loop codec save_batch fuel l).1.stream.outbox
          ≡ l.stream.outbox ++ w)
  unfolding fetch_loop
  fetch_loop_extends zero l h = ground arith
  fetch_loop_extends (suc fuel) l h = elim (Result-cases (round codec save_batch l).0) [
    | inr (e, x) ↦ absurd (loop_fails fuel l e x h)
    | inl (false, x) ↦
        let r = round-IsRound codec save_batch l false x in
        (r.asked ∷ r.acks, ap (λ p. p.1.stream.outbox) (loop_stops fuel l x) ∙ r.outbox)
    | inl (true, x) ↦
        let r = round-IsRound codec save_batch l true x in
        let (w, e) =
          fetch_loop_extends fuel (round codec save_batch l).1
            (sym (ap (λ p. p.0) (loop_goes_on fuel l x)) ∙ h) in
        (
          (r.asked ∷ r.acks) ++ w,
          ap (λ p. p.1.stream.outbox) (loop_goes_on fuel l x)
              ∙ e
              ∙ ap (λ o. o ++ w) r.outbox
              ∙ append_assoc l.stream.outbox (r.asked ∷ r.acks) w,
        )
  ]

  module _ (engine : Engine) (rows : List MessageRow) (laws : CodecLaws codec) where
    -- A run of the loop and the dialogue that it is.
    abbrev IsDialogue :
        Session S → List FetchRequest → Option (Result (Unit {0})) × Session S → Type 0
    IsDialogue l qs p =
        (n : ℕ) × Dialogue save_batch rows qs n l.store p.1.store
        × (length l.stream.inbox ≡ n + length p.1.stream.inbox)

    concludes_by :
        (l l' : Session S) (qs : List FetchRequest) (base extra out : List Bytes)
        → IsRound codec save_batch l l' false
        → Step codec save_batch engine rows laws l l' false qs base extra out
        → IsDialogue l qs (some (ok tt), l')
    concludes_by l l' qs base extra out r t = (
      1,
      concludes qs t.requests t.req t.resp l.store l'.store t.oldest t.is_reply t.saves t.has_more,
      ap length r.inbox ∙ omega arith,
    )

    continues_by :
        (l l' : Session S) (p : Option (Result (Unit {0})) × Session S) (qs : List FetchRequest)
        (base extra out : List Bytes)
        → IsRound codec save_batch l l' true
        → (t : Step codec save_batch engine rows laws l l' true qs base extra out)
        → IsDialogue l' (t.requests ++ acknowledged t.resp t.resp.messages) p
        → IsDialogue l qs p
    continues_by l l' p qs base extra out r t d = (
      suc d.0,
      continues qs t.requests t.req t.resp d.0 l.store l'.store p.1.store t.oldest t.is_reply
          t.saves t.has_more d.1,
      omega (arith, ap length r.inbox, d.2),
    )

    follows :
        (fuel : ℕ) (l : Session S) (fs : List Bytes) (qs : List FetchRequest)
        (base read extra : List Bytes)
        → Reads codec fs qs
        → l.stream.outbox ≡ base ++ fs
        → Served engine codec rows read l.stream.inbox
        → (fetch_loop codec save_batch fuel l).0 ≡ some (ok tt)
        → (fetch_loop codec save_batch fuel l).1.stream.outbox ≡ base ++ (read ++ extra)
        → IsDialogue l qs (fetch_loop codec save_batch fuel l)
    unfolding fetch_loop
    follows zero l fs qs base read extra h o v k c = ground arith
    follows (suc fuel) l fs qs base read extra h o v k c =
        elim (Result-cases (round codec save_batch l).0) [
          | inr (e, x) ↦ absurd (loop_fails fuel l e x k)
          | inl (false, x) ↦
              let e = loop_stops fuel l x in
              let l' = (round codec save_batch l).1 in
              let r = round-IsRound codec save_batch l false x in
              subst (IsDialogue l qs) (sym e) (
                concludes_by l l' qs base extra l'.stream.outbox r (
                  step codec save_batch engine rows laws l l' false fs qs base read extra []
                    l'.stream.outbox r h o v (sym (append-nil l'.stream.outbox))
                    (sym (ap (λ p. p.1.stream.outbox) e) ∙ c)))
          | inl (true, x) ↦
              let e = loop_goes_on fuel l x in
              let l' = (round codec save_batch l).1 in
              let out = (fetch_loop codec save_batch fuel l').1.stream.outbox in
              let r = round-IsRound codec save_batch l true x in
              let k' = sym (ap (λ p. p.0) e) ∙ k in
              let (w, p) = fetch_loop_extends fuel l' k' in
              let t =
                step codec save_batch engine rows laws l l' true fs qs base read extra w out r h o v
                  p (sym (ap (λ p. p.1.stream.outbox) e) ∙ c) in
              subst (IsDialogue l qs) (sym e) (
                continues_by l l' (fetch_loop codec save_batch fuel l') qs base extra out r t (
                  follows fuel l' t.pending (t.requests ++ acknowledged t.resp t.resp.messages)
                    (base ++ t.frame ∷ []) t.read extra t.reads t.outbox t.served k' t.closed))
        ]

-- The device and the node on one stream: each finds in it what the other sends during its loop.
abbrev pub Connected :
    {S : Type 0}
    → (device : Session S) → (done : Session S) → (node : Link) → (served : Link) → Type 0
Connected device done node served =
    (done.stream.outbox ≡ device.stream.outbox ++ node.stream.inbox)
    × (served.stream.outbox ≡ node.stream.outbox ++ device.stream.inbox)

module _ {S : Type 0} (engine : Engine) (codec : Codec)
    (save_batch : List SyncMessage → Exec S (Unit {0})) where
  -- Of a node's loop over a table with unique sequence numbers and a device's loop, each of which receives
  -- the frames that the other sends, with calls that fail in any way: when the device's loop returns
  -- without an error, the two were a dialogue, in which the device took one response in each round, and
  -- its state is the one that the dialogue leaves.
  pub fetch_loop-serve-Dialogue :
      (rounds fuel : ℕ) (node : Link) (device : Session S)
      → let done = fetch_loop codec save_batch fuel device in
        CodecLaws codec
        → IsKeyed node.db.tables.messages
        → Connected device done.1 node (serve engine codec rounds node).1
        → done.0 ≡ some (ok tt)
        → (n : ℕ) × Dialogue save_batch node.db.tables.messages [] n device.store done.1.store
          × (length device.stream.inbox ≡ n + length done.1.stream.inbox)
  fetch_loop-serve-Dialogue rounds fuel node device laws keyed (c, c') k =
      let (read, left, sent, i, o, v) = serve-IsSession engine codec rounds node keyed in
      let base = device.stream.outbox in
      follows codec save_batch engine node.db.tables.messages laws fuel device [] [] base read left
        tt (sym (append-nil base))
        (subst (λ x. Served engine codec node.db.tables.messages read x)
          (append_cancel_left node.stream.outbox sent device.stream.inbox (sym o ∙ c')) v)
        k (c ∙ ap (λ x. base ++ x) i)
