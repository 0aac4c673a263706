-- ===== src/Storage/Messages/Since.antt =====
-- internal/storage/repository.go: what `GetSince` returns.
use go_p2p_messenger.Base.{
  ℕ, ◌≤◌, ◌≡◌, ◌≢◌, sym, inl, inr, ◌⊎◌, ℤ, pos, leb_ℤ_total, leb_ℤ_trans, ◌<ℤ◌, ◌≤ℤ◌, [], Text,
  true, some, List, ◌++◌, map, arith, select, All, AllPairs, In, In-select, In-select_inv,
  All-of_In, AllPairs-select, AllPairs-of_All, AllPairs-imp₂, AllPairs-take, AllPairs-append_inv,
  In-take, In-take_cases, In-positive, take, drop, take-append-drop, length, length-take,
  length-drop, order_by, order_by-perm, order_by-AllPairs, perm-AllPairs, perm-In, ok, wrap, Permᴰ,
  All-In,
}
use mathlib.Core.List.Permᴰ
use go_p2p_messenger.Storage.{Message, MessageRow, Tables}
use go_p2p_messenger.Storage.Database.{Engine, Db, with_tables}
use go_p2p_messenger.Storage.Database.Queries.{run_query_ok, run_query_faultless, tables-run_query}
use go_p2p_messenger.Storage.Messages.{
  clash, same_seq, eligible, seq_of, message_of, by_seq, since_rows, get_since,
}
use go_p2p_messenger.Storage.Messages.Save.{IsKeyed, Apart}

-- The rows that a query for at most `n` rows of a conversation above a sequence number may return:
-- stored rows that it asks for, ascending, and without a gap.
pub record IsBatch (conversation : Text) (after : ℤ) (n : ℕ) (rows result : List MessageRow)
    : Type 0 where
  pub ascending : AllPairs (λ r s. seq_of r <ℤ seq_of s) result
  pub sound : (r : MessageRow) → In r result → In r rows × (eligible conversation after r ≡ true)
  pub above : All (λ r. after <ℤ seq_of r) result
  pub short : length result ≤ n
  pub complete :
      (r : MessageRow)
      → In r rows
      → eligible conversation after r ≡ true
      → In r result ⊎ ((length result ≡ n) × All (λ s. seq_of s <ℤ seq_of r) result)

distinct_seqs :
    (conversation : Text) (after : ℤ) (r s : MessageRow)
    → eligible conversation after r ≡ true
    → eligible conversation after s ≡ true
    → Apart r s
    → seq_of r ≢ seq_of s
unfolding eligible clash same_seq seq_of
distinct_seqs conversation after r s h k a e = ground arith

pub seq_of-eligible :
    (conversation : Text) (after : ℤ) (r : MessageRow)
    → eligible conversation after r ≡ true
    → (after <ℤ seq_of r) × (r.global_seq ≡ some (seq_of r))
unfolding eligible seq_of
seq_of-eligible conversation after r h = ground arith

-- A row above 0 is at most at a number or above it.
pub still_eligible :
    (after : ℤ) (r : MessageRow)
    → eligible [] (pos 0) r ≡ true
    → (seq_of r ≤ℤ after) ⊎ (eligible [] after r ≡ true)
unfolding eligible seq_of
still_eligible after r h = ground arith

strictly : (r s : MessageRow) → by_seq r s ≡ true → seq_of r ≢ seq_of s → seq_of r <ℤ seq_of s
strictly r s h n = ground arith

module _ (engine : Engine) (conversation : Text) (after : ℤ) (rows : List MessageRow) where
  abbrev asked : List MessageRow
  asked = select (eligible conversation after) rows

  abbrev ordered : List MessageRow
  ordered = order_by by_seq (engine.scan MessageRow asked)

  ordered-perm : Permᴰ ordered asked
  ordered-perm =
      Permᴰ.trans (order_by-perm by_seq (engine.scan MessageRow asked))
        (engine.scan-perm MessageRow asked)

  asked-eligible : All (λ r. eligible conversation after r ≡ true) asked
  asked-eligible =
      All-of_In (λ r. eligible conversation after r ≡ true) asked
        (λ r h. (In-select_inv (eligible conversation after) r rows h).1)

  ordered-ascending : IsKeyed rows → AllPairs (λ r s. seq_of r <ℤ seq_of s) ordered
  ordered-ascending k =
      AllPairs-imp₂ (λ r s. by_seq r s ≡ true) (λ r s. seq_of r ≢ seq_of s)
        (λ r s. seq_of r <ℤ seq_of s) strictly ordered
        (order_by-AllPairs by_seq (λ r s. leb_ℤ_total (seq_of r) (seq_of s))
          (λ r s t. leb_ℤ_trans (seq_of r) (seq_of s) (seq_of t)) (engine.scan MessageRow asked))
        (perm-AllPairs (λ r s. seq_of r ≢ seq_of s) (λ r s h e. h (sym e)) (Permᴰ.symm ordered-perm)
          (AllPairs-of_All (λ r. eligible conversation after r ≡ true) Apart
            (λ r s. seq_of r ≢ seq_of s) (distinct_seqs conversation after) asked asked-eligible
            (AllPairs-select Apart (eligible conversation after) rows k)))

  ordered_complete :
      (r : MessageRow) → In r rows → eligible conversation after r ≡ true → In r ordered
  ordered_complete r h e =
      perm-In r (Permᴰ.symm ordered-perm) (In-select (eligible conversation after) r rows h e)

  cut_ascending :
      (n : ℕ)
      → IsKeyed rows
      → AllPairs (λ r s. seq_of r <ℤ seq_of s) (take n ordered ++ drop n ordered)
  cut_ascending n k = rw (take-append-drop n ordered) (ordered-ascending k)

  cut_complete :
      (n : ℕ) (r : MessageRow)
      → IsKeyed rows
      → In r ordered
      → In r (take n ordered)
        ⊎ ((length (take n ordered) ≡ n) × All (λ s. seq_of s <ℤ seq_of r) (take n ordered))
  cut_complete n r k h = elim (In-take_cases r n ordered h) [
    | inl i ↦ inl i
    | inr i ↦ inr (
      omega (arith, In-positive r (drop n ordered) i, length-drop n ordered, length-take n ordered),
      All-of_In (λ s. seq_of s <ℤ seq_of r) (take n ordered)
          (λ s j.
            All-In (λ x. seq_of s <ℤ seq_of x) r (drop n ordered)
              (All-In (λ s. All (λ x. seq_of s <ℤ seq_of x) (drop n ordered)) s (take n ordered)
                (AllPairs-append_inv (λ r s. seq_of r <ℤ seq_of s) (take n ordered) (drop n ordered)
                  (cut_ascending n k)).2
                j)
              i),
    )
  ]

  -- Over a table with unique sequence numbers the query returns the first `n` rows that it asks for.
  pub since_rows-IsBatch :
      (n : ℕ)
      → IsKeyed rows
      → IsBatch conversation after n rows (since_rows engine conversation after (pos n) rows)
  unfolding since_rows
  since_rows-IsBatch n k = record {
    ascending = AllPairs-take (λ r s. seq_of r <ℤ seq_of s) n ordered (ordered-ascending k);
    sound = λ r h.
        In-select_inv (eligible conversation after) r rows
          (perm-In r ordered-perm (In-take r n ordered h));
    above =
        All-of_In (λ r. after <ℤ seq_of r) (take n ordered)
          (λ r h.
            (seq_of-eligible conversation after r
              (In-select_inv (eligible conversation after) r rows
                (perm-In r ordered-perm (In-take r n ordered h))).1).0);
    short = omega (arith, length-take n ordered);
    complete = λ r h e. cut_complete n r k (ordered_complete r h e);
  }

pub get_since-IsBatch :
    (engine : Engine) (conversation : Text) (after : ℤ) (n : ℕ) (db : Db) (msgs : List Message)
    → IsKeyed db.tables.messages
    → (get_since engine conversation after (pos n) db).0 ≡ ok msgs
    → (batch : List MessageRow) × (msgs ≡ map message_of batch)
      × IsBatch conversation after n db.tables.messages batch
unfolding get_since
get_since-IsBatch engine conversation after n db msgs k e = (
  since_rows engine conversation after (pos n) db.tables.messages,
  run_query_ok (wrap "query messages") (wrap "scan message") message_of
      (since_rows engine conversation after (pos n) db.tables.messages) db msgs e,
  since_rows-IsBatch engine conversation after db.tables.messages n k,
)

pub get_since_faultless :
    (engine : Engine) (conversation : Text) (after limit : ℤ) (t : Tables)
    → get_since engine conversation after limit (with_tables t)
      ≡ (ok (map message_of (since_rows engine conversation after limit t.messages)), with_tables t)
unfolding get_since
get_since_faultless engine conversation after limit t =
    run_query_faultless (wrap "query messages") (wrap "scan message") message_of
      (since_rows engine conversation after limit t.messages) t

pub tables-get_since :
    (engine : Engine) (conversation : Text) (after limit : ℤ) (db : Db)
    → (get_since engine conversation after limit db).1.tables ≡ db.tables
unfolding get_since
tables-get_since engine conversation after limit db =
    tables-run_query (wrap "query messages") (wrap "scan message") message_of
      (since_rows engine conversation after limit db.tables.messages) db
