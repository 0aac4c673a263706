-- ===== src/Ui/Screens/Composer.antt =====
-- internal/ui/screens/direct_chat_screen.go: the entry of a chat and `onSend`, step by step: the call of
-- `SendMessage` runs in a goroutine, which reads the entry when it runs.
pub mod Race
use go_p2p_messenger.Base.{
  ℕ, suc, Text, Bool, true, false, List, [], ◌∷◌, ◌++◌, text_eq, if◌then◌else◌, Result, ok, err,
  ◌≡◌,
}

-- Where the UI thread is in `onSend`: outside of it, or before `input.SetText("")`.
pub data Thread : Type 0 where
  idle : Thread
  clearing : Thread

-- The entry, the goroutines that have not run by the peers they captured, and the calls of `SendMessage`
-- so far, in their order, each with its recipient and its text.
pub record Composer : Type 0 where
  pub input : Text
  pub thread : Thread
  pub waiting : List Text
  pub calls : List (Text × Text)

unfoldable pub new_composer : Composer
new_composer = record { input = []; thread = idle; waiting = []; calls = [] }

-- After `peer.Decode(s.vm.GetPeerID())`.
unfoldable pub decoded : Result Text → Composer → Composer
decoded (err e) c = c
decoded (ok peer) c = record c { waiting = c.waiting ++ peer ∷ []; thread = clearing }

-- `onSend` up to its last statement.
unfoldable pub on_send : Result Text → Composer → Composer
unfolding decoded
on_send peer c = elim (text_eq c.input []) [ true ↦ c | false ↦ decoded peer c ]

-- `input.SetText("")`
unfoldable pub clear : Composer → Composer
clear c = record c { input = []; thread = idle }

unfoldable pub edit : Text → Composer → Composer
edit text c = record c { input = text }

-- The body of a goroutine.
unfoldable pub call : Text → List Text → Composer → Composer
call peer others c = record c { waiting = others; calls = c.calls ++ (peer, c.input) ∷ [] }

-- A step of the screen of one peer, whose id decodes as `peer` says. The UI thread edits the entry and
-- starts `onSend` only when it is idle; a waiting goroutine runs at any time.
pub data Step (peer : Result Text) : Composer → Composer → Type 0 where
  edits : (c : Composer) (text : Text) → c.thread ≡ idle → Step peer c (edit text c)
  sends : (c : Composer) → c.thread ≡ idle → Step peer c (on_send peer c)
  clears : (c : Composer) → c.thread ≡ clearing → Step peer c (clear c)
  runs :
      (c : Composer) (p : Text) (before after : List Text)
      → c.waiting ≡ before ++ p ∷ after
      → Step peer c (call p (before ++ after) c)

pub data Reachable (peer : Result Text) : Composer → Type 0 where
  starts : Reachable peer new_composer
  steps : (c c' : Composer) → Reachable peer c → Step peer c c' → Reachable peer c'
