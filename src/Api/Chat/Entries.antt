-- ===== src/Api/Chat/Entries.antt =====
-- internal/api/chat.go: what one entry of `ListConversations` shows.
use go_p2p_messenger.Base.{
  Bytes, codes, Result-cases, ◌≡◌, ◌≢◌, refl, inl, inr, ◌⊎◌, Text, text_eq, text_eq_iff, Option,
  none, some, List, [], ◌∷◌, ◌++◌, arith, All, In, Bool-cases,
}
use go_p2p_messenger.Storage.{Contact, ConversationSummary}
use go_p2p_messenger.Logic.{decrypt}
use go_p2p_messenger.Logic.Envelope.{decrypt_iff}
use go_p2p_messenger.Api.Chat.{ConversationDto, shown, find_summary, summary_dto, contact_dto}

-- What is shown of the content of a message: what follows `ENC:`, or all of it where it does not begin so.
abbrev pub Reads : Bytes → Text → Type 0
Reads content text =
    (content ≡ codes "ENC:" ++ text)
    ⊎ ((text ≡ content) × ((rest : Bytes) → content ≢ codes "ENC:" ++ rest))

shown-Reads : (content : Bytes) → Reads content (shown content)
unfolding shown
shown-Reads content = elim (Result-cases (decrypt content)) [
  | inl (text, e) ↦ rw (e, shown) (inl ((decrypt_iff content text).0 e))
  | inr (x, e) ↦
      rw (e, shown)
        (inr (refl, λ rest h. absurd (ground (arith, (decrypt_iff content rest).1 h, e))))
]

-- An entry shows a summary.
abbrev pub Shows : ConversationSummary → ConversationDto → Type 0
Shows s d =
    Reads s.last_content d.last_message
    × (d.last_sent_at ≡ s.last_sent_at)
    × (d.unread_count ≡ s.unread_count)

pub summary_dto-Shows : (s : ConversationSummary) → Shows s (summary_dto s)
unfolding summary_dto
summary_dto-Shows s = (shown-Reads s.last_content, refl, refl)

pub summary_dto-id : (s : ConversationSummary) → (summary_dto s).id ≡ s.conversation_id
unfolding summary_dto
summary_dto-id s = refl

-- The entry of a contact: it shows a summary of the contact's conversation, or there is none, and it shows
-- the time at which the contact was made.
abbrev pub IsContactEntry : List ConversationSummary → Contact → ConversationDto → Type 0
IsContactEntry summaries c d =
    (d.id ≡ c.peer_id)
    × (((s : ConversationSummary) × In s summaries × (s.conversation_id ≡ c.peer_id) × Shows s d)
        ⊎ (All (λ s. s.conversation_id ≢ c.peer_id) summaries
            × (d.last_sent_at ≡ c.created_at)
            × (d.unread_count ≡ 0)))

-- A conversation's summary is found where there is one.
unfoldable pub IsFound : Text → List ConversationSummary → Option ConversationSummary → Type 0
IsFound id summaries none = All (λ s. s.conversation_id ≢ id) summaries
IsFound id summaries (some s) = In s summaries × (s.conversation_id ≡ id)

IsFound-cons :
    (id : Text) (s : ConversationSummary) (rest : List ConversationSummary)
    (o : Option ConversationSummary)
    → find_summary id rest ≡ o
    → IsFound id rest o
    → IsFound id (s ∷ rest) (find_summary id (s ∷ rest))
unfolding find_summary IsFound
IsFound-cons id s rest (some x) e h = rw (e, find_summary) (inr h.0, h.1)
IsFound-cons id s rest none e h = elim (Bool-cases (text_eq s.conversation_id id)) [
  | inl t ↦ rw (e, t, find_summary) (inl refl, (text_eq_iff s.conversation_id id).0 t)
  | inr f ↦ rw (e, f, find_summary) (ground (arith, text_eq_iff s.conversation_id id, f), h)
]

pub find_summary-IsFound :
    (id : Text) (summaries : List ConversationSummary)
    → IsFound id summaries (find_summary id summaries)
unfolding find_summary IsFound
find_summary-IsFound id [] = tt
find_summary-IsFound id (s ∷ rest) =
    IsFound-cons id s rest (find_summary id rest) refl (find_summary-IsFound id rest)

pub contact_dto-IsContactEntry :
    (summaries : List ConversationSummary) (c : Contact) (o : Option ConversationSummary)
    → IsFound c.peer_id summaries o
    → IsContactEntry summaries c (contact_dto c o)
unfolding contact_dto IsFound
contact_dto-IsContactEntry summaries c none h = (refl, inr (h, refl, refl))
contact_dto-IsContactEntry summaries c (some s) h =
    (refl, inl (s, h.0, h.1, (shown-Reads s.last_content, refl, refl)))
