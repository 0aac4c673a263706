-- ===== src/Sync/Engine/Progress.antt =====
-- internal/sync/engine.go and internal/storage/repository.go: the progress that is recorded after a batch.
use go_p2p_messenger.Base.{
  ◌≡◌, refl, inl, inr, ◌⊎◌, In, ap, subst, ◌∙◌, ℤ, Text, text_eq, text_eq_iff, Bool-cases, ◌++◌,
  Option, none, some, List, [], ◌∷◌, arith,
}
use go_p2p_messenger.Storage.{DeviceSyncState, Tables}
use go_p2p_messenger.Storage.Devices.{last_seq}
use go_p2p_messenger.Sync.Wire.{SyncMessage}
use go_p2p_messenger.Sync.Engine.{last_global_seq}

-- The progress recorded after a batch.
abbrev pub HasProgress : Text → Option ℤ → Tables → Tables → Type 0
HasProgress device none before t = t.device_sync_state ≡ before.device_sync_state
HasProgress device (some seq) before t = last_seq device t.device_sync_state ≡ some seq

-- The progress after a batch, by the rows: as before where the batch is empty, and otherwise the device has a
-- row with the sequence number of the last message.
abbrev pub HasAdvanced : Text → List SyncMessage → Tables → Tables → Type 0
HasAdvanced device ms before t =
    ((ms ≡ []) × (t.device_sync_state ≡ before.device_sync_state))
    ⊎ ((init : List SyncMessage) × (m : SyncMessage) × (row : DeviceSyncState) × (ms
          ≡ init ++ m ∷ [])
        × In row t.device_sync_state
        × (row.device_id ≡ device)
        × (row.last_synced_seq ≡ m.global_seq))

last_global_seq_last :
    (ms : List SyncMessage)
    → ((ms ≡ []) × (last_global_seq ms ≡ none))
      ⊎ ((init : List SyncMessage) × (m : SyncMessage) × (ms ≡ init ++ m ∷ [])
          × (last_global_seq ms ≡ some m.global_seq))
unfolding last_global_seq
last_global_seq_last [] = inl (refl, refl)
last_global_seq_last (x ∷ ms) = elim (last_global_seq_last ms) [
  | inl (e, h) ↦ inr ([], x, ap (λ y. x ∷ y) e, rw (h, last_global_seq) refl)
  | inr (init, m, e, h) ↦ inr (x ∷ init, m, ap (λ y. x ∷ y) e, rw (h, last_global_seq) refl)
]

last_seq-In :
    (device : Text) (seq : ℤ) (rows : List DeviceSyncState)
    → last_seq device rows ≡ some seq
    → (row : DeviceSyncState) × In row rows × (row.device_id ≡ device) × (row.last_synced_seq ≡ seq)
unfolding last_seq
last_seq-In device seq [] h = absurd (ground (arith, h))
last_seq-In device seq (r ∷ rows) h = elim (Bool-cases (text_eq r.device_id device)) [
  | inl t ↦ (r, inl refl, (text_eq_iff r.device_id device).0 t, ground (arith, h, t))
  | inr f ↦
      let (x, i, e, p) = last_seq-In device seq rows (ground (arith, h, f)) in (x, inr i, e, p)
]

pub HasAdvanced-of_HasProgress :
    (device : Text) (ms : List SyncMessage) (before t : Tables)
    → HasProgress device (last_global_seq ms) before t
    → HasAdvanced device ms before t
HasAdvanced-of_HasProgress device ms before t h = elim (last_global_seq_last ms) [
  | inl (e, l) ↦ inl (e, subst (λ x. HasProgress device x before t) l h)
  | inr (init, m, e, l) ↦
      let (row, i, p, q) =
        last_seq-In device m.global_seq t.device_sync_state
          (subst (λ x. HasProgress device x before t) l h) in
      inr (init, m, row, e, i, p, q)
]

pub transfer :
    (device : Text) (last : Option ℤ) (a b t : Tables)
    → a.device_sync_state ≡ b.device_sync_state
    → HasProgress device last a t
    → HasProgress device last b t
transfer device none a b t e h = h ∙ e
transfer device (some seq) a b t e h = h
