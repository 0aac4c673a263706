-- ===== src/Sync/Dialogue/Complete.antt =====
-- internal/sync/client.go and internal/sync/server.go: what the device has after a dialogue.
use go_p2p_messenger.Base.{
  ℕ, ◌≡◌, sym, subst, inl, inr, ◌⊎◌, ℤ, pos, ◌≤ℤ◌, ◌<ℤ◌, true, List, [], ◌∷◌, ◌++◌, map, arith, All,
  All-append, All-imp, In, ok, Exec,
}
use go_p2p_messenger.Storage.{MessageRow}
use go_p2p_messenger.Storage.Messages.{eligible, seq_of, message_of}
use go_p2p_messenger.Storage.Messages.Since.{seq_of-eligible, still_eligible}
use go_p2p_messenger.Sync.Wire.{FetchRequest, FetchResponse, SyncMessage}
use go_p2p_messenger.Sync.Client.{fetch_all}
use go_p2p_messenger.Sync.Server.{sync_message_of, response_of}
use go_p2p_messenger.Sync.Server.Fetch.{IsReply}
use go_p2p_messenger.Sync.Dialogue.{acknowledged, Saves, Dialogue, concludes, continues}

-- A stored message as the node sends it.
abbrev pub sent_as : MessageRow → SyncMessage
sent_as r = sync_message_of (message_of r)

pub In-messages :
    (P : SyncMessage → Type 0) (r : MessageRow) (batch : List MessageRow)
    → In r batch
    → All P (map sync_message_of (map message_of batch))
    → P (sent_as r)
In-messages P r [] i h = absurd i
In-messages P r (b ∷ batch) (inl e) h = subst (λ x. P (sent_as x)) (sym e) h.0
In-messages P r (b ∷ batch) (inr i) h = In-messages P r batch i h.1

module _ {S : Type 0} (save_batch : List SyncMessage → Exec S (Unit {0}))
    (Has : S → SyncMessage → Type 0) where
  -- What the completeness of a dialogue needs of the callback: without an error it leaves every message
  -- of the batch, and it loses none.
  pub record Keeps : Type 1 where
    pub adds : (ms : List SyncMessage) (s s' : S) → save_batch ms s ≡ (ok tt, s') → All (Has s') ms
    pub loses_none :
        (ms : List SyncMessage) (m : SyncMessage) (s s' : S)
        → save_batch ms s ≡ (ok tt, s')
        → Has s m
        → Has s' m

  module _ (keeps : Keeps) (rows : List MessageRow) where
    Saves-adds : (ms : List SyncMessage) (s s' : S) → Saves save_batch ms s s' → All (Has s') ms
    Saves-adds [] s s' h = tt
    Saves-adds (m ∷ ms) s s' h = keeps.adds (m ∷ ms) s s' h

    Saves-loses_none :
        (ms : List SyncMessage) (m : SyncMessage) (s s' : S)
        → Saves save_batch ms s s'
        → Has s m
        → Has s' m
    Saves-loses_none [] m s s' e h = subst (λ x. Has x m) (sym e) h
    Saves-loses_none (x ∷ ms) m s s' e h = keeps.loses_none (x ∷ ms) m s s' e h

    Dialogue-loses_none :
        (qs : List FetchRequest) (n : ℕ) (s s' : S) (m : SyncMessage)
        → Dialogue save_batch rows qs n s s'
        → Has s m
        → Has s' m
    Dialogue-loses_none pending n u u' m (concludes qs rest req resp s s' e i v f) h =
        Saves-loses_none resp.messages m s s' v h
    Dialogue-loses_none pending n u u' m (continues qs rest req resp k s s' s'' e i v t d) h =
        Dialogue-loses_none (rest ++ acknowledged resp resp.messages) k s' s'' m d
          (Saves-loses_none resp.messages m s s' v h)

    -- Everything between 0 and a number has arrived.
    abbrev Arrived : S → ℤ → Type 0
    Arrived s after =
        (r : MessageRow)
        → In r rows
        → eligible [] (pos 0) r ≡ true
        → seq_of r ≤ℤ after
        → Has s (sent_as r)

    batch_arrives :
        (s s' : S) (req : FetchRequest) (resp : FetchResponse) (q : IsReply rows req resp)
        (r : MessageRow)
        → Saves save_batch resp.messages s s'
        → In r q.batch
        → Has s' (sent_as r)
    unfolding response_of
    batch_arrives s s' req resp q r v i = In-messages (Has s') r q.batch i (
        subst (λ (x : FetchResponse). All (Has s') x.messages) q.is_reply
          (Saves-adds resp.messages s s' v))

    arrives :
        (s s' : S) (req : FetchRequest) (resp : FetchResponse) (r : MessageRow)
        → IsReply rows req resp
        → Saves save_batch resp.messages s s'
        → Arrived s req.after_seq
        → In r rows
        → eligible [] (pos 0) r ≡ true
        → Has s' (sent_as r) ⊎ ((resp.has_more ≡ true) × (resp.max_seq <ℤ seq_of r))
    arrives s s' req resp r q v a i e = elim (still_eligible req.after_seq r e) [
      | inl h ↦ inl (Saves-loses_none resp.messages (sent_as r) s s' v (a r i e h))
      | inr h ↦ elim (q.covers r i h) [
        | inl j ↦ inl (batch_arrives s s' req resp q r v j)
        | inr c ↦ inr c
      ]
    ]

    All-first :
        (P : FetchRequest → Type 0) (qs rest : List FetchRequest) (q req : FetchRequest)
        → qs ++ q ∷ [] ≡ req ∷ rest
        → All P qs
        → P q
        → P req × All P rest
    All-first P qs rest q req e h k = subst (All P) e (All-append P qs (q ∷ []) h (k, tt))

    asked_all : (s : S) → Arrived s fetch_all.after_seq
    asked_all s r i e h = absurd (omega (arith, h, (seq_of-eligible [] (pos 0) r e).0))

    acked_Arrived :
        (s : S) (resp : FetchResponse) (ms : List SyncMessage)
        → Arrived s resp.max_seq
        → All (λ q. Arrived s q.after_seq) (acknowledged resp ms)
    unfolding acknowledged
    acked_Arrived s resp [] h = tt
    acked_Arrived s resp (m ∷ ms) h = (h, tt)

    acked :
        (s s' : S) (req : FetchRequest) (resp : FetchResponse)
        → IsReply rows req resp
        → Saves save_batch resp.messages s s'
        → Arrived s req.after_seq
        → Arrived s' resp.max_seq
    acked s s' req resp q v a r i k z = elim (arrives s s' req resp r q v a i k) [
      | inl y ↦ y
      | inr c ↦ absurd (omega (arith, z, c.1))
    ]

    -- A dialogue leaves with the device every message of the node with a positive sequence number.
    pub Dialogue-complete :
        (qs : List FetchRequest) (n : ℕ) (s s' : S)
        → Dialogue save_batch rows qs n s s'
        → All (λ q. Arrived s q.after_seq) qs
        → (r : MessageRow) → In r rows
        → eligible [] (pos 0) r ≡ true
        → Has s' (sent_as r)
    Dialogue-complete pending n u u' (concludes qs rest req resp s s' e q v f) h r i k =
        elim (arrives s s' req resp r q v
          (All-first (λ x. Arrived s x.after_seq) qs rest fetch_all req e h (asked_all s)).0 i k) [
            | inl y ↦ y
            | inr c ↦ absurd (ground (arith, f, c.0))
          ]
    Dialogue-complete pending n u u' (continues qs rest req resp m s s' s'' e q v f d) h r i k =
        let (a, b) =
          All-first (λ x. Arrived s x.after_seq) qs rest fetch_all req e h (asked_all s) in
        let P : FetchRequest → Type 0 = λ x. Arrived s' x.after_seq in
        Dialogue-complete (rest ++ acknowledged resp resp.messages) m s' s'' d
          (All-append P rest (acknowledged resp resp.messages)
            (All-imp (λ x. Arrived s x.after_seq) P
              (λ x y r i k z. Saves-loses_none resp.messages (sent_as r) s s' v (y r i k z)) rest b)
            (acked_Arrived s' resp resp.messages (acked s s' req resp q v a)))
          r i k
