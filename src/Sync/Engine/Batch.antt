-- ===== src/Sync/Engine/Batch.antt =====
-- internal/sync/engine.go: what a batch of messages from the Personal Node leaves behind.
use go_p2p_messenger.Base.{
  codes, ◌≡◌, refl, sym, subst, ◌∙◌, ℤ, Text, text_eq_refl, true, Option, none, some, List, [], ◌∷◌,
  arith, All, ok,
}
use go_p2p_messenger.Event.{Bus, publish, topic_new_message}
use go_p2p_messenger.Event
use go_p2p_messenger.Storage.{Tables}
use go_p2p_messenger.Storage.Database.{with_tables}
use go_p2p_messenger.Storage.Messages.{row_of, insert_or_ignore}
use go_p2p_messenger.Storage.Messages.Save.{saved, save_faultless}
use go_p2p_messenger.Storage.Devices.Laws.{update_last_seq_faultless, updated, last_seq-upsert}
use go_p2p_messenger.State.{State}
use go_p2p_messenger.Sync.Wire.{SyncMessage}
use go_p2p_messenger.Sync.Engine.{
  received_message, received_event, last_global_seq, save_each, record_progress, save_batch,
}
use go_p2p_messenger.Sync.Engine.Held.{
  IsCovered, IsHeld, insert-IsHeld, insert-keeps_IsHeld, dropped,
}
use go_p2p_messenger.Sync.Engine.Progress.{
  HasProgress, HasAdvanced, HasAdvanced-of_HasProgress, transfer,
}

-- The tables and the bus after a batch on which nothing fails.
unfoldable saved_all : List SyncMessage → Tables → Tables
saved_all [] t = t
saved_all (m ∷ ms) t = saved_all ms (saved (received_message m) t)

-- The event of a message from the node, by its fields.
abbrev pub announcement_of : SyncMessage → Event.MessageEvent
announcement_of m = record {
  id = m.id;
  chat_id = m.conversation_id;
  sender_id = m.sender_id;
  text = m.content;
  timestamp = m.sent_at;
  is_incoming = true;
  status = codes "delivered";
}

unfoldable pub announced_all : List SyncMessage → Bus → Bus
announced_all [] b = b
announced_all (m ∷ ms) b =
    announced_all ms (publish topic_new_message (Event.message (announcement_of m)) b)

saved_all-keeps_IsHeld :
    (ms : List SyncMessage) (m : SyncMessage) (t : Tables)
    → IsHeld t.messages m
    → IsHeld (saved_all ms t).messages m
unfolding saved_all
saved_all-keeps_IsHeld [] m t h = h
saved_all-keeps_IsHeld (x ∷ ms) m t h =
    saved_all-keeps_IsHeld ms m (saved (received_message x) t)
      (insert-keeps_IsHeld (row_of (received_message x)) m t.messages h)

saved_all-IsHeld : (ms : List SyncMessage) (t : Tables) → All (IsHeld (saved_all ms t).messages) ms
unfolding saved_all
saved_all-IsHeld [] t = tt
saved_all-IsHeld (m ∷ ms) t = (
  saved_all-keeps_IsHeld ms m (saved (received_message m) t) (insert-IsHeld m t.messages),
  saved_all-IsHeld ms (saved (received_message m) t),
)

saved_all-sync_state :
    (ms : List SyncMessage) (t : Tables) → (saved_all ms t).device_sync_state ≡ t.device_sync_state
unfolding saved_all
saved_all-sync_state [] t = refl
saved_all-sync_state (m ∷ ms) t = saved_all-sync_state ms (saved (received_message m) t)

module _ {T : Type 0} where
  abbrev pub working : Tables → Bus → T → State T
  working t b tp = record { db = with_tables t; bus = b; tp = tp }

  save_each_faultless :
      (ms : List SyncMessage) (t : Tables) (b : Bus) (tp : T)
      → save_each ms (working t b tp) ≡ (ok tt, working (saved_all ms t) (announced_all ms b) tp)
  unfolding save_each saved_all announced_all received_event
  save_each_faultless [] t b tp = refl
  save_each_faultless (m ∷ ms) t b tp = rw (save_faultless (received_message m) t) (
      save_each_faultless ms (saved (received_message m) t)
        (publish topic_new_message (Event.message (announcement_of m)) b) tp)

  record_progress_faultless :
      (device : Text) (now : ℤ) (last : Option ℤ) (t : Tables) (b : Bus) (tp : T)
      → (t' : Tables) × (record_progress device now last (working t b tp)
          ≡ (ok tt, working t' b tp))
        × (t'.messages ≡ t.messages)
        × HasProgress device last t t'
  unfolding record_progress
  record_progress_faultless device now none t b tp = (t, refl, refl, refl)
  record_progress_faultless device now (some seq) t b tp = (
    updated device seq now t,
    rw (update_last_seq_faultless device seq now t) refl,
    refl,
    ground (arith, last_seq-upsert device device seq now t.device_sync_state, text_eq_refl device),
  )

  -- With a working driver, a batch is saved without an error: afterwards every message of it whose content
  -- is not empty has a stored row with its id or its sequence number, one event with its fields was
  -- published for each message in their order, and the progress of the device is the sequence number of
  -- the last message, or as before where there was none.
  pub save_batch-saves :
      (device : Text) (now : ℤ) (ms : List SyncMessage) (t : Tables) (b : Bus) (tp : T)
      → (t' : Tables) × (save_batch device now ms (working t b tp)
          ≡ (ok tt, working t' (announced_all ms b) tp))
        × All (IsHeld t'.messages) ms
        × HasAdvanced device ms t t'
  unfolding save_batch
  save_batch-saves device now ms t b tp =
      let (t', r, k, p) =
        record_progress_faultless device now (last_global_seq ms) (saved_all ms t)
          (announced_all ms b) tp in
      (
        t',
        rw (save_each_faultless ms t b tp) r,
        subst (λ rows. All (IsHeld rows) ms) (sym k) (saved_all-IsHeld ms t),
        HasAdvanced-of_HasProgress device ms t t' (
            transfer device (last_global_seq ms) (saved_all ms t) t t' (saved_all-sync_state ms t)
              p),
      )

saved_all_again :
    (ms : List SyncMessage) (t : Tables)
    → All (IsCovered t.messages) ms
    → (saved_all ms t).messages ≡ t.messages
unfolding saved_all insert_or_ignore
saved_all_again [] t h = refl
saved_all_again (m ∷ ms) t h =
    let same : insert_or_ignore (row_of (received_message m)) t.messages ≡ t.messages =
      ground (arith, h.0) in
    saved_all_again ms (saved (received_message m) t)
      (subst (λ rows. All (IsCovered rows) ms) (sym same) h.1)
    ∙ same

module _ {T : Type 0} where
  -- A batch of which every message is stored, with a working driver.
  pub save_batch_again :
      (device : Text) (now : ℤ) (ms : List SyncMessage) (t : Tables) (b : Bus) (tp : T)
      → All (IsCovered t.messages) ms
      → (t' : Tables) × (save_batch device now ms (working t b tp)
          ≡ (ok tt, working t' (announced_all ms b) tp))
        × (t'.messages ≡ t.messages)
  unfolding save_batch
  save_batch_again device now ms t b tp h =
      let (t', r, k, p) =
        record_progress_faultless device now (last_global_seq ms) (saved_all ms t)
          (announced_all ms b) tp in
      (t', rw (save_each_faultless ms t b tp) r, k ∙ saved_all_again ms t h)

  -- With a working driver, a message from the node whose content is empty is saved without an error and
  -- announced, and it is not stored.
  pub save_batch_drops :
      (device : Text) (now : ℤ) (m : SyncMessage) (t : Tables) (b : Bus) (tp : T)
      → m.content ≡ []
      → (t' : Tables) × (save_batch device now (m ∷ []) (working t b tp) ≡ (
        ok tt,
        working t' (publish topic_new_message (Event.message (announcement_of m)) b) tp,
      ))
        × (t'.messages ≡ t.messages)
  unfolding save_batch saved_all announced_all
  save_batch_drops device now m t b tp h =
      let (t', r, k, p) =
        record_progress_faultless device now (last_global_seq (m ∷ [])) (saved_all (m ∷ []) t)
          (announced_all (m ∷ []) b) tp in
      (t', rw (save_each_faultless (m ∷ []) t b tp) r, k ∙ dropped m t.messages h)
