-- ===== src/Api/Chat/History.antt =====
-- internal/api/chat.go: a sent message in `GetMessages`.
use go_p2p_messenger.Base.{◌≡◌, refl, ℕ, ℤ, Text, Bytes, false, Result, ok}
use go_p2p_messenger.Logic.{decrypt, seal_message}
use go_p2p_messenger.Logic.Envelope.{seal_message-opens}
use go_p2p_messenger.Storage.Messages.{row_of, message_of, chat_message_of}
use go_p2p_messenger.Api.Chat.{shown, message_dto, outgoing_message, sent_dto}

shown_opens : (sealed content : Bytes) → decrypt sealed ≡ ok content → shown sealed ≡ content
unfolding shown
shown_opens sealed content h = rw (h, shown) refl

-- A message that `SendMessage` has sealed and saved is shown by `GetMessages` as `SendMessage` returned
-- it, with its content decrypted, but for `IsOwn`, which is false.
pub sent_message-shown :
    (conversation : Text) (content sealed sig : Bytes) (nano : ℕ) (now : ℤ)
    (key_pair : Result (Unit {0})) (sign : Bytes → Result Bytes)
    → seal_message key_pair sign content ≡ ok (sealed, sig)
    → message_dto (chat_message_of (row_of (outgoing_message conversation sealed sig nano now)))
      ≡ record (sent_dto (outgoing_message conversation sealed sig nano now) content) {
        is_own = false;
      }
unfolding message_dto chat_message_of message_of row_of outgoing_message sent_dto
sent_message-shown conversation content sealed sig nano now key_pair sign h =
    rw (shown_opens sealed content (seal_message-opens key_pair sign content sealed sig h).0) refl
