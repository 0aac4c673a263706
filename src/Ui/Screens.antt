-- ===== src/Ui/Screens.antt =====
-- internal/ui/screens: what the screens put into their widgets, and what their buttons call.
pub mod Identity
pub mod Composer
use go_p2p_messenger.Base.{
  ℕ, zero, suc, Text, Bool, true, false, not, ◌&&◌, Option, none, some, List, [], ◌∷◌, text_eq,
  if◌then◌else◌,
}
use go_p2p_messenger.Api.Chat.{ConversationDto, MessageDto}
use go_p2p_messenger.Ui.ChatList.{ChatListViewModel}

-- The two labels of a row of the chat list.
pub record ChatRow : Type 0 where
  pub title : Text
  pub subtitle : Text

-- The function by which `NewListWithData` updates a row.
unfoldable pub chat_row : ConversationDto → ChatRow
chat_row conv = record { title = conv.id; subtitle = conv.last_message }

abbrev nth : {A : Type 0} → List A → ℕ → Option A
nth [] n = none
nth (x ∷ xs) zero = some x
nth (x ∷ xs) (suc n) = nth xs n

-- The id that `list.OnSelected` hands to `onSelect`; `none` where there is no such row, at which the type
-- assertion panics.
unfoldable pub on_selected : ChatListViewModel → ℕ → Option Text
on_selected vm id = elim (nth vm.conversations id) [ none ↦ none | some conv ↦ some conv.id ]

-- The peer id that the dialogue `Add Contact` hands to `AddContact`, from its answer and its entry.
unfoldable pub submitted_contact : Bool → Text → Option Text
submitted_contact confirmed entry = if confirmed && not (text_eq entry []) then some entry else none

-- The objects of a row of the chat.
pub data Part : Type 0 where
  spacer : Part
  card : Text → Part

-- The function by which `NewListWithData` updates a bubble.
unfoldable pub bubble : MessageDto → List Part
bubble msg = if msg.is_own then spacer ∷ card msg.content ∷ [] else card msg.content ∷ spacer ∷ []
