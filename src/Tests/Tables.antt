-- ===== src/Tests/Tables.antt =====
-- Small tables, and an engine that keeps the order of rows.
use go_p2p_messenger.Base.{
  text_eq, ℤ, pos, Text, codes, true, Option, none, some, List, [], ◌∷◌, refl, message,
}
use mathlib.Core.List.Permᴰ
use go_p2p_messenger.Storage.{Message, MessageRow, Contact, Tables}
use go_p2p_messenger.Storage.Database.{Engine, Db}
use go_p2p_messenger.Storage.Contacts
use go_p2p_messenger.Storage.Messages.Save.{IsKeyed}
use go_p2p_messenger.Storage.Messages.{clash, same_seq}

abbrev pub in_order : Engine
in_order = record { scan = λ A rows. rows; scan-perm = λ A rows. Permᴰ.refl rows }

abbrev pub row : Text → Text → Option ℤ → ℤ → MessageRow
row id conversation seq at = record {
  id = id;
  conversation_id = conversation;
  sender_id = conversation;
  content = some (codes "ENC:hi");
  global_seq = seq;
  sender_signature = [];
  sent_at = at;
  is_incoming = true;
  status = codes "delivered";
  chat_id = conversation;
  timestamp = at;
  delivered_at = none;
  read_at = none;
}

abbrev pub bob : Text
bob = codes "bob"

abbrev pub first_row : MessageRow
first_row = row (codes "msg_1") bob (some (pos 1)) (pos 10)

abbrev pub second_row : MessageRow
second_row = row (codes "in_2") bob (some (pos 2)) (pos 20)

abbrev pub two_rows : List MessageRow
two_rows = second_row ∷ first_row ∷ []

abbrev pub carol : Contact
carol = record {
  peer_id = codes "carol";
  public_key = [];
  multiaddr = none;
  alias = none;
  trusted = true;
  last_seen = pos 0;
  created_at = pos 5;
}

abbrev pub dave : Contact
dave = record carol { peer_id = codes "dave" }

abbrev pub empty_tables : Tables
empty_tables = record { messages = []; contacts = []; devices = []; device_sync_state = [] }

abbrev pub two_messages : Tables
two_messages = record empty_tables { messages = two_rows }

pub two_rows-IsKeyed : IsKeyed two_rows
unfolding clash same_seq text_eq
two_rows-IsKeyed = ((refl, tt), (tt, tt))

-- A message that arrives with a third sequence number.
abbrev pub third_message : Message
third_message = record {
  id = codes "m3";
  conversation_id = bob;
  sender_id = bob;
  content = some (codes "ENC:yes");
  global_seq = pos 3;
  sender_signature = [];
  sent_at = pos 30;
  is_incoming = true;
  status = codes "delivered";
  delivered_at = none;
  read_at = none;
}

abbrev pub two_contacts : Tables
two_contacts = record empty_tables { contacts = Contacts.row_of carol ∷ Contacts.row_of dave ∷ [] }

-- The driver fails at the second call.
abbrev pub failing : Tables → Db
failing t = record { tables = t; outcomes = none ∷ some (message "disk I/O error") ∷ [] }
