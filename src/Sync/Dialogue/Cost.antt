-- ===== src/Sync/Dialogue/Cost.antt =====
-- internal/sync/client.go and internal/sync/server.go: how many rounds a dialogue takes. The client asks
-- for everything from 0 in every round, and takes the node's answers to its acknowledgements in between.
pub mod Doubling
use go_p2p_messenger.Base.{
  ℕ, suc, ◌+◌, ◌*◌, ◌^◌, ◌≤◌, ◌<◌, ◌≡◌, ◌≢◌, refl, sym, ◌∙◌, ap, subst, inl, inr, ◌⊎◌, pos, ◌≤ℤ◌,
  ◌<ℤ◌, true, false, List, [], ◌∷◌, ◌++◌, map, length, length-append, length-map, ◌==◌, arith,
  select, AllPairs, AllPairs-select, AllPairs-imp, In, In-append_left, In-append_right,
  In-select_inv, length_le_of_In, ok, Exec, some,
}
use native.Mathlib.Nat.{two-pow-succ, pow-le-pow_right}
use go_p2p_messenger.Storage.{MessageRow}
use go_p2p_messenger.Storage.Database.{Engine}
use go_p2p_messenger.Storage.Messages.{clash, eligible, seq_of, message_of}
use go_p2p_messenger.Storage.Messages.Since.{seq_of-eligible, still_eligible}
use go_p2p_messenger.Storage.Messages.Save.{IsKeyed, Apart, clash_self}
use go_p2p_messenger.Sync.Wire.{FetchRequest, FetchResponse, SyncMessage, Codec, CodecLaws}
use go_p2p_messenger.Sync.Client.{Session, fetch_all, fetch_loop}
use go_p2p_messenger.Sync.Server.{Link, serve, fetch_limit, sync_message_of, response_of}
use go_p2p_messenger.Sync.Server.Fetch.{IsReply}
use go_p2p_messenger.Sync.Dialogue.Refinement.{Connected, fetch_loop-serve-Dialogue}
use go_p2p_messenger.Sync.Dialogue.{acknowledged, Dialogue, concludes, continues}

-- Of any limit in a request, the node takes one between 1 and 100.
pub fetch_limit_bounds : (limit : ℕ) → (0 < fetch_limit limit) × (fetch_limit limit ≤ 100)
unfolding fetch_limit
fetch_limit_bounds limit = ground arith

two_power_suc : (d i : ℕ) → 2 ^ d ≤ i → 2 ^ suc d ≤ i + i
two_power_suc d i h = omega (arith, h, two-pow-succ d)

module _ (rows : List MessageRow) where
  -- The rows of which a client is to have messages.
  abbrev pub wanted : List MessageRow
  wanted = select (eligible [] (pos 0)) rows

  -- The rows up to `after_seq` are among `100 * depth` ones.
  pub record Level (i : ℕ) (q : FetchRequest) : Type 0 where
    depth : ℕ
    got : List MessageRow
    early : 2 ^ depth ≤ i
    few : length got ≤ 100 * depth
    all_got :
        (r : MessageRow)
        → In r rows
        → eligible [] (pos 0) r ≡ true
        → seq_of r ≤ℤ q.after_seq
        → In r got

  -- The requests from the `i`th on.
  abbrev pub Ranked : ℕ → List FetchRequest → Type 0
  Ranked i [] = Unit {0}
  Ranked i (q ∷ qs) = Level i q × Ranked (suc i) qs

  pub Ranked-append :
      (i : ℕ) (qs : List FetchRequest) (q : FetchRequest)
      → Ranked i qs
      → Level (i + length qs) q
      → Ranked i (qs ++ q ∷ [])
  Ranked-append i [] q h l = (subst (λ j. Level j q) (omega arith) l, tt)
  Ranked-append i (p ∷ qs) q h l =
      (h.0, Ranked-append (suc i) qs q h.1 (subst (λ j. Level j q) (omega arith) l))

  fetch_all-Level : (i : ℕ) → 0 < i → Level i fetch_all
  fetch_all-Level i p = record {
    depth = 0;
    got = [];
    early = omega (arith, p);
    few = omega arith;
    all_got = λ r j e h. absurd (omega (arith, h, (seq_of-eligible [] (pos 0) r e).0));
  }

  distinct : IsKeyed rows → AllPairs (λ r s. r ≢ s) wanted
  distinct k =
      AllPairs-imp Apart (λ r s. r ≢ s)
        (λ r s a e. absurd (ground (arith, a, clash_self r, ap (λ x. clash r x) e))) wanted
        (AllPairs-select Apart (eligible [] (pos 0)) rows k)

  answered :
      (i : ℕ) (req : FetchRequest) (resp : FetchResponse) (r : MessageRow)
      (q : IsReply rows req resp) (l : Level i req)
      → In r rows
      → eligible [] (pos 0) r ≡ true
      → In r (l.got ++ q.batch) ⊎ ((resp.has_more ≡ true) × (resp.max_seq <ℤ seq_of r))
  answered i req resp r q l k e = elim (still_eligible req.after_seq r e) [
    | inl h ↦ inl (In-append_left r l.got q.batch (l.all_got r k e h))
    | inr h ↦ elim (q.covers r k h) [
      | inl j ↦ inl (In-append_right r l.got q.batch j)
      | inr c ↦ inr c
    ]
  ]

  -- The rows up to `max_seq` are those up to `after_seq` and the batch.
  pub acked-Level :
      (i j : ℕ) (req : FetchRequest) (resp : FetchResponse) (limit : ℕ)
      → IsReply rows req resp
      → Level i req
      → i + i ≤ j
      → Level j (record { after_seq = resp.max_seq; limit = limit })
  acked-Level i j req resp limit q l h = record {
    depth = suc l.depth;
    got = l.got ++ q.batch;
    early = omega (arith, h, two_power_suc l.depth i l.early);
    few =
        omega (
          arith,
          l.few,
          length-append l.got q.batch,
          q.is_batch.short,
          fetch_limit_bounds req.limit,
        );
    all_got = λ r k e b. elim (answered i req resp r q l k e) [
      | inl y ↦ y
      | inr c ↦ absurd (omega (arith, b, c.1))
    ];
  }

  more_of_full :
      (req : FetchRequest) (resp : FetchResponse) (q : IsReply rows req resp)
      → resp.has_more ≡ (length q.batch == fetch_limit req.limit)
  unfolding response_of
  more_of_full req resp q =
      ap (λ (x : FetchResponse). x.has_more) q.is_reply ∙ rw (length-map message_of q.batch) refl

  as_long :
      (req : FetchRequest) (resp : FetchResponse) (q : IsReply rows req resp)
      → length resp.messages ≡ length q.batch
  unfolding response_of
  as_long req resp q =
      ap (λ (x : FetchResponse). length x.messages) q.is_reply
      ∙ length-map sync_message_of (map message_of q.batch)
      ∙ length-map message_of q.batch

  short_of_last :
      (req : FetchRequest) (resp : FetchResponse) (q : IsReply rows req resp)
      → resp.has_more ≡ false
      → length q.batch < 100
  short_of_last req resp q f =
      ground (arith, more_of_full req resp q, q.is_batch.short, fetch_limit_bounds req.limit)

  pub some_of_more :
      (req : FetchRequest) (resp : FetchResponse) (q : IsReply rows req resp)
      → resp.has_more ≡ true
      → 0 < length resp.messages
  some_of_more req resp q f =
      ground (arith, more_of_full req resp q, as_long req resp q, fetch_limit_bounds req.limit)

  pub acknowledged_of_some :
      (resp : FetchResponse) (ms : List SyncMessage)
      → 0 < length ms
      → acknowledged resp ms ≡ record { after_seq = resp.max_seq; limit = 0 } ∷ []
  unfolding acknowledged
  acknowledged_of_some resp [] h = absurd (omega (arith, h))
  acknowledged_of_some resp (m ∷ ms) h = refl

  pub Ranked-first :
      (i : ℕ) (qs rest : List FetchRequest) (req : FetchRequest)
      → 0 < i
      → qs ++ fetch_all ∷ [] ≡ req ∷ rest
      → Ranked i qs
      → Level i req × Ranked (suc i) rest × (length rest ≡ length qs)
  Ranked-first i qs rest req p e h =
      let a =
        subst (Ranked i) e
          (Ranked-append i qs fetch_all h (fetch_all-Level (i + length qs) (omega (arith, p)))) in
      (a.0, a.1, omega (arith, ap length e, length-append qs (fetch_all ∷ [])))

  all_answered :
      (i : ℕ) (req : FetchRequest) (resp : FetchResponse) (r : MessageRow)
      (q : IsReply rows req resp) (l : Level i req)
      → resp.has_more ≡ false
      → In r rows × (eligible [] (pos 0) r ≡ true)
      → In r (l.got ++ q.batch)
  all_answered i req resp r q l f h = elim (answered i req resp r q l h.0 h.1) [
    | inl y ↦ y
    | inr c ↦ absurd (ground (arith, f, c.0))
  ]

  -- The last of `i` requests answers what is left after one hundred messages for each doubling of `i`.
  pub wanted_few :
      (i k : ℕ) (req : FetchRequest) (resp : FetchResponse)
      → IsKeyed rows
      → IsReply rows req resp
      → Level i req
      → resp.has_more ≡ false
      → 100 * k ≤ length wanted
      → 2 ^ k ≤ i
  wanted_few i k req resp keyed q l f h =
      let below =
        length_le_of_In wanted (l.got ++ q.batch) (distinct keyed)
          (λ r j. all_answered i req resp r q l f (In-select_inv (eligible [] (pos 0)) r rows j)) in
      let less : k ≤ l.depth =
        omega (arith, h, below, length-append l.got q.batch, l.few, short_of_last req resp q f) in
      omega (arith, l.early, pow-le-pow_right {n = 2} (omega arith) less)
