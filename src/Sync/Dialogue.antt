-- ===== src/Sync/Dialogue.antt =====
-- internal/sync/client.go and internal/sync/server.go: what `FetchLoop` and the main loop of a session
-- do together, as a dialogue of requests and responses without frames.
pub mod Rounds
pub mod Steps
pub mod Refinement
pub mod Complete
pub mod Cost
pub mod Push
use go_p2p_messenger.Base.{
  ℕ, zero, suc, ◌≡◌, Bool, true, false, List, [], ◌∷◌, ◌++◌, Result, ok, Exec, pos,
}
use go_p2p_messenger.Storage.{MessageRow}
use go_p2p_messenger.Sync.Wire.{FetchRequest, FetchResponse, SyncMessage}
use go_p2p_messenger.Sync.Client.{fetch_all}
use go_p2p_messenger.Sync.Server.Fetch.{IsReply}

-- As the node reads it, an acknowledgement is a request for what is above `max_seq`; there is one where
-- the response has messages.
unfoldable pub acknowledged : FetchResponse → List SyncMessage → List FetchRequest
acknowledged resp [] = []
acknowledged resp (m ∷ ms) = record { after_seq = resp.max_seq; limit = 0 } ∷ []

module _ {S : Type 0} (save_batch : List SyncMessage → Exec S (Unit {0})) where
  -- What the client does with the messages of a response: without messages nothing, and otherwise the
  -- callback succeeds.
  abbrev pub Saves : List SyncMessage → S → S → Type 0
  Saves [] s s' = s' ≡ s
  Saves (m ∷ ms) s s' = save_batch (m ∷ ms) s ≡ (ok tt, s')

  module _ (rows : List MessageRow) where
    -- `Dialogue pending n s s'`: the node has yet to answer `pending`, and `n` responses later the client
    -- returns without an error. In every round the client asks for everything from 0, takes the answer
    -- to the oldest request that has none, saves its messages and acknowledges them.
    pub data Dialogue : List FetchRequest → ℕ → S → S → Type 0 where
      concludes :
          (pending rest : List FetchRequest) (req : FetchRequest) (resp : FetchResponse) (s s' : S)
          → pending ++ fetch_all ∷ [] ≡ req ∷ rest
          → IsReply rows req resp
          → Saves resp.messages s s'
          → resp.has_more ≡ false
          → Dialogue pending 1 s s'
      continues :
          (pending rest : List FetchRequest) (req : FetchRequest) (resp : FetchResponse) (n : ℕ)
          (s s' s'' : S)
          → pending ++ fetch_all ∷ [] ≡ req ∷ rest
          → IsReply rows req resp
          → Saves resp.messages s s'
          → resp.has_more ≡ true
          → Dialogue (rest ++ acknowledged resp resp.messages) n s' s''
          → Dialogue pending (suc n) s s''
