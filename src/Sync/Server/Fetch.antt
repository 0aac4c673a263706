-- ===== src/Sync/Server/Fetch.antt =====
-- internal/sync/server.go: what `handleFetch` answers.
use go_p2p_messenger.Base.{
  ℕ, ◌≡◌, refl, sym, subst, ◌∙◌, ap, inl, inr, ◌⊎◌, ℤ, pos, ◌<ℤ◌, ◌≤ℤ◌, Bytes, true, List, [], ◌∷◌,
  ◌++◌, map, arith, All, In, length-map, Result, ok, err,
}
use go_p2p_messenger.Storage.{Message, MessageRow}
use go_p2p_messenger.Storage.Database.{Engine, Db}
use go_p2p_messenger.Storage.Messages.{eligible, seq_of, message_of, get_since}
use go_p2p_messenger.Storage.Messages.Save.{IsKeyed}
use go_p2p_messenger.Storage.Messages.Since.{
  IsBatch, get_since-IsBatch, seq_of-eligible, tables-get_since,
}
use go_p2p_messenger.Sync.Wire.{FetchRequest, FetchResponse, Codec}
use go_p2p_messenger.Sync.Stream.{Stream, write_msg}
use go_p2p_messenger.Sync.Stream.Exchange.{write_msg-IsWritten, IsWritten}
use go_p2p_messenger.Sync.Server.{
  Link, fetch_limit, higher, max_seq_of, response_of, respond, handle_fetch,
}

higher-cases :
    (highest seq : ℤ)
    → ((higher highest seq ≡ highest) × (seq ≤ℤ highest))
      ⊎ ((higher highest seq ≡ seq) × (highest ≤ℤ seq))
unfolding higher
higher-cases highest seq = ground arith

leq_trans : (a b c : ℤ) → a ≤ℤ b → b ≤ℤ c → a ≤ℤ c
leq_trans a b c h k = omega (arith, h, k)

-- The highest of a start and the sequence numbers of some messages.
pub max_seq_of-upper :
    (highest : ℤ) (msgs : List Message)
    → (highest ≤ℤ max_seq_of highest msgs) × All (λ m. m.global_seq ≤ℤ max_seq_of highest msgs) msgs
unfolding max_seq_of
max_seq_of-upper highest [] = (omega arith, tt)
max_seq_of-upper highest (m ∷ rest) =
    let h = max_seq_of-upper (higher highest m.global_seq) rest in
    elim (higher-cases highest m.global_seq) [
      | inl c ↦ (
        subst (λ x. x ≤ℤ max_seq_of (higher highest m.global_seq) rest) c.0 h.0,
        (
          leq_trans m.global_seq highest (max_seq_of (higher highest m.global_seq) rest) c.1
              (subst (λ x. x ≤ℤ max_seq_of (higher highest m.global_seq) rest) c.0 h.0),
          h.1,
        ),
      )
      | inr c ↦ (
        leq_trans highest m.global_seq (max_seq_of (higher highest m.global_seq) rest) c.1
            (subst (λ x. x ≤ℤ max_seq_of (higher highest m.global_seq) rest) c.0 h.0),
        (subst (λ x. x ≤ℤ max_seq_of (higher highest m.global_seq) rest) c.0 h.0, h.1),
      )
    ]

-- With a start and all numbers below a bound, so is the highest.
max_seq_of-below :
    (highest bound : ℤ) (msgs : List Message)
    → highest <ℤ bound
    → All (λ m. m.global_seq <ℤ bound) msgs
    → max_seq_of highest msgs <ℤ bound
unfolding max_seq_of
max_seq_of-below highest bound [] h k = h
max_seq_of-below highest bound (m ∷ rest) h k =
    max_seq_of-below (higher highest m.global_seq) bound rest
      (elim (higher-cases highest m.global_seq) [
        | inl c ↦ subst (λ x. x <ℤ bound) (sym c.0) h
        | inr c ↦ subst (λ x. x <ℤ bound) (sym c.0) k.0
      ])
      k.1

All-message_of :
    (bound : ℤ) (rows : List MessageRow)
    → All (λ s. seq_of s <ℤ bound) rows
    → All (λ m. m.global_seq <ℤ bound) (map message_of rows)
unfolding message_of
All-message_of bound [] h = tt
All-message_of bound (r ∷ rows) h = (h.0, All-message_of bound rows h.1)

-- The response that `handleFetch` makes of a batch of rows.
abbrev pub reply : ℤ → ℕ → List MessageRow → FetchResponse
reply after limit batch = response_of after limit (map message_of batch)

-- A response is made of a gap-free batch of the stored rows, and every other row above `after_seq` is
-- above `max_seq` and announced by `has_more`, so that a request for what is above `max_seq` finds it.
pub record IsReply (rows : List MessageRow) (req : FetchRequest) (resp : FetchResponse)
    : Type 0 where
  pub batch : List MessageRow
  pub is_batch : IsBatch [] req.after_seq (fetch_limit req.limit) rows batch
  pub is_reply : resp ≡ reply req.after_seq (fetch_limit req.limit) batch
  pub reaches : All (λ r. seq_of r ≤ℤ resp.max_seq) batch
  pub covers :
      (r : MessageRow)
      → In r rows
      → eligible [] req.after_seq r ≡ true
      → In r batch ⊎ ((resp.has_more ≡ true) × (resp.max_seq <ℤ seq_of r))

rows_of_messages :
    (bound : ℤ) (rows : List MessageRow)
    → All (λ m. m.global_seq ≤ℤ bound) (map message_of rows)
    → All (λ s. seq_of s ≤ℤ bound) rows
unfolding message_of
rows_of_messages bound [] h = tt
rows_of_messages bound (r ∷ rows) h = (h.0, rows_of_messages bound rows h.1)

reply-reaches :
    (after : ℤ) (limit : ℕ) (batch : List MessageRow)
    → All (λ r. seq_of r ≤ℤ (reply after limit batch).max_seq) batch
unfolding response_of
reply-reaches after limit batch =
    rows_of_messages (max_seq_of after (map message_of batch)) batch
      (max_seq_of-upper after (map message_of batch)).1

pub reply-covers :
    (rows : List MessageRow) (after : ℤ) (limit : ℕ) (batch : List MessageRow) (r : MessageRow)
    → IsBatch [] after limit rows batch
    → In r rows
    → eligible [] after r ≡ true
    → In r batch
      ⊎ (((reply after limit batch).has_more ≡ true)
          × ((reply after limit batch).max_seq <ℤ seq_of r))
unfolding response_of
reply-covers rows after limit batch r b i e = elim (b.complete r i e) [
  | inl j ↦ inl j
  | inr c ↦ inr (
    ground (arith, length-map message_of batch, c.0),
    max_seq_of-below after (seq_of r) (map message_of batch) (seq_of-eligible [] after r e).0
        (All-message_of (seq_of r) batch c.1),
  )
]

IsReply-of_batch :
    (req : FetchRequest) (rows batch : List MessageRow)
    → IsBatch [] req.after_seq (fetch_limit req.limit) rows batch
    → IsReply rows req (reply req.after_seq (fetch_limit req.limit) batch)
IsReply-of_batch req rows batch b = record {
  batch = batch;
  is_batch = b;
  is_reply = refl;
  reaches = reply-reaches req.after_seq (fetch_limit req.limit) batch;
  covers = λ r. reply-covers rows req.after_seq (fetch_limit req.limit) batch r b;
}

module _ (engine : Engine) (codec : Codec) (req : FetchRequest) where
  -- What `handleFetch` may do: fail without sending anything, or send one reply. It changes no table.
  abbrev pub IsAnswered : Link → Result (Unit {0}) × Link → Type 0
  IsAnswered l (err e, l') = (l'.stream.outbox ≡ l.stream.outbox) × (l'.db.tables ≡ l.db.tables)
  IsAnswered l (ok u, l') =
      (l'.db.tables ≡ l.db.tables)
      × ((resp : FetchResponse) × IsReply l.db.tables.messages req resp
          × ((frame : Bytes) × (codec.fetched.encode resp ≡ ok frame)
              × (l'.stream.outbox ≡ l.stream.outbox ++ frame ∷ [])))

  IsAnswered-of_write :
      (l : Link) (batch : List MessageRow) (db : Db) (r : Result (Unit {0})) (s : Stream)
      → db.tables ≡ l.db.tables
      → IsBatch [] req.after_seq (fetch_limit req.limit) l.db.tables.messages batch
      → IsWritten codec.fetched (reply req.after_seq (fetch_limit req.limit) batch) l.stream (r, s)
      → IsAnswered l (r, record { db = db; stream = s })
  IsAnswered-of_write l batch db (err e) s t b w = (w.0, t)
  IsAnswered-of_write l batch db (ok u) s t b w = (
    t,
    (
      reply req.after_seq (fetch_limit req.limit) batch,
      IsReply-of_batch req l.db.tables.messages batch b,
      (w.0, w.1, w.2),
    ),
  )

  unchanged :
      (l : Link) (r : Result (List Message)) (db : Db)
      → get_since engine [] req.after_seq (pos (fetch_limit req.limit)) l.db ≡ (r, db)
      → db.tables ≡ l.db.tables
  unchanged l r db e =
      sym (ap (λ p. p.1.tables) e)
      ∙ tables-get_since engine [] req.after_seq (pos (fetch_limit req.limit)) l.db

  respond-IsAnswered :
      (l : Link) (r : Result (List Message)) (db : Db)
      → IsKeyed l.db.tables.messages
      → get_since engine [] req.after_seq (pos (fetch_limit req.limit)) l.db ≡ (r, db)
      → IsAnswered l (respond engine codec req r (record l { db = db }))
  unfolding respond
  respond-IsAnswered l (err x) db k e = (refl, unchanged l (err x) db e)
  respond-IsAnswered l (ok msgs) db k e =
      let (batch, same, b) =
        get_since-IsBatch engine [] req.after_seq (fetch_limit req.limit) l.db msgs k
          (ap (λ p. p.0) e) in
      let resp = response_of req.after_seq (fetch_limit req.limit) msgs in
      IsAnswered-of_write l batch db (write_msg codec.fetched resp l.stream).0
        (write_msg codec.fetched resp l.stream).1 (unchanged l (ok msgs) db e) b
        (subst
          (λ ms.
            IsWritten codec.fetched (response_of req.after_seq (fetch_limit req.limit) ms) l.stream
              (write_msg codec.fetched resp l.stream))
          same (write_msg-IsWritten codec.fetched resp l.stream))

  -- Over a table with unique sequence numbers, and whatever fails: `handleFetch` changes no table, and it
  -- fails without sending anything, or it sends one response, made of a gap-free batch of at most `limit`
  -- stored messages above `after_seq`, none of them above `max_seq`; every other one above `after_seq` is
  -- also above `max_seq`, and then `has_more` is set.
  pub handle_fetch-IsAnswered :
      (l : Link) → IsKeyed l.db.tables.messages → IsAnswered l (handle_fetch engine codec req l)
  unfolding handle_fetch
  handle_fetch-IsAnswered l k =
      let (r, db) = get_since engine [] req.after_seq (pos (fetch_limit req.limit)) l.db in
      respond-IsAnswered l r db k refl
