-- ===== src/Sync/Engine/Held.antt =====
-- internal/sync/engine.go and internal/storage/repository.go: what a save leaves of a message from the
-- Personal Node.
use go_p2p_messenger.Base.{
  Bytes, ◌≡◌, refl, inl, inr, ◌⊎◌, In, false, sym, ℤ, Text, true, some, List, [], ◌∷◌, arith, any,
}
use go_p2p_messenger.Storage.{MessageRow}
use go_p2p_messenger.Storage.Messages.{row_of, clash, is_null, insert_or_ignore}
use go_p2p_messenger.Storage.Messages.Save.{
  any-In, clash-SharesKey, insert_or_ignore-keeps, any-append_last, clash_self,
}
use go_p2p_messenger.Sync.Wire.{SyncMessage}
use go_p2p_messenger.Sync.Engine.{received_content, received_message}

-- A row with the message's id or its sequence number is stored, by the columns' own comparison.
abbrev pub IsCovered : List MessageRow → SyncMessage → Type 0
IsCovered rows m = any (clash (row_of (received_message m))) rows ≡ true

-- The same in terms of the message: a row has its id, or its sequence number.
abbrev pub IsKnown : List MessageRow → Text → ℤ → Type 0
IsKnown rows id seq = (r : MessageRow) × In r rows × ((r.id ≡ id) ⊎ (r.global_seq ≡ some seq))

IsCovered-IsKnown :
    (rows : List MessageRow) (m : SyncMessage) → IsCovered rows m → IsKnown rows m.id m.global_seq
unfolding row_of received_message
IsCovered-IsKnown rows m h =
    let (r, i, k) = any-In (clash (row_of (received_message m))) rows h in
    elim (clash-SharesKey (row_of (received_message m)) r k) [
      | inl e ↦ (r, i, inl (sym e))
      | inr (n, e, f) ↦ (r, i, inr (ground (arith, e, f)))
    ]

-- What a save of a message ensures: it is known, unless its content is empty.
abbrev pub IsHeld : List MessageRow → SyncMessage → Type 0
IsHeld rows m = (m.content ≡ []) ⊎ IsKnown rows m.id m.global_seq

empty_or_not : (b : Bytes) → (b ≡ []) ⊎ (is_null (received_content b) ≡ false)
unfolding is_null received_content
empty_or_not [] = inl refl
empty_or_not (x ∷ b) = inr refl

null_or_not :
    (m : SyncMessage) → (m.content ≡ []) ⊎ (is_null (row_of (received_message m)).content ≡ false)
unfolding row_of received_message
null_or_not m = empty_or_not m.content

insert-IsCovered :
    (m : SyncMessage) (rows : List MessageRow)
    → is_null (row_of (received_message m)).content ≡ false
    → IsCovered (insert_or_ignore (row_of (received_message m)) rows) m
unfolding insert_or_ignore
insert-IsCovered m rows h = ground (
  arith,
  any-append_last (clash (row_of (received_message m))) rows (row_of (received_message m)),
  clash_self (row_of (received_message m)),
  h,
)

pub insert-IsHeld :
    (m : SyncMessage) (rows : List MessageRow)
    → IsHeld (insert_or_ignore (row_of (received_message m)) rows) m
insert-IsHeld m rows = elim (null_or_not m) [
  | inl e ↦ inl e
  | inr h ↦ inr (
      IsCovered-IsKnown (insert_or_ignore (row_of (received_message m)) rows) m
        (insert-IsCovered m rows h))
]

pub insert-keeps_IsHeld :
    (r : MessageRow) (m : SyncMessage) (rows : List MessageRow)
    → IsHeld rows m
    → IsHeld (insert_or_ignore r rows) m
insert-keeps_IsHeld r m rows (inl e) = inl e
insert-keeps_IsHeld r m rows (inr (x, i, h)) = inr (x, insert_or_ignore-keeps r x rows i, h)

empty-is_null : (b : Bytes) → b ≡ [] → is_null (received_content b) ≡ true
unfolding is_null received_content
empty-is_null [] e = refl
empty-is_null (x ∷ b) e = absurd (ground (arith, e))

pub dropped :
    (m : SyncMessage) (rows : List MessageRow)
    → m.content ≡ []
    → insert_or_ignore (row_of (received_message m)) rows ≡ rows
unfolding insert_or_ignore row_of received_message
dropped m rows h = ground (arith, empty-is_null m.content h)
