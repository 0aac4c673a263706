-- ===== src/Tests/Hundred.antt =====
-- The cost of a session of internal/sync with a node of one hundred messages.
use go_p2p_messenger.Base.{
  ℕ, zero, suc, ◌≤◌, ◌<◌, ◌^◌, ◌≡◌, refl, pos, false, some, Option, List, [], ◌∷◌, arith, All,
  All-imp, sym, subst, Bytes, length, Result, ok, Exec, text_eq, order_by, insert_by, select,
}
use go_p2p_messenger.Storage.{MessageRow, Tables}
use go_p2p_messenger.Storage.Database.{with_tables, run_query}
use go_p2p_messenger.Storage.Messages.{clash, same_seq, eligible, seq_of, message_of}
use go_p2p_messenger.Storage.Messages.Save.{IsKeyed}
use go_p2p_messenger.Sync.Wire.{SyncMessage}
use go_p2p_messenger.Sync.Stream.{read_msg, write_msg}
use go_p2p_messenger.Sync.Client.{Session, fetch_loop, round, looped}
use go_p2p_messenger.Sync.Server.{Link, serve, response_of}
use go_p2p_messenger.Sync.Server.Fetch.{reply}
use go_p2p_messenger.Sync.Stream.Exchange.{connected}
use go_p2p_messenger.Sync.Dialogue.Cost.{wanted}
use go_p2p_messenger.Sync.Dialogue.Cost.Doubling.{fetch_loop-doubles}
use go_p2p_messenger.Tests.{
  in_order, row, empty_tables, carrying_codec, carrying_codec_laws, put_response, put, get, put_int,
  get_int, put_message, get_message,
}

abbrev numbered : ℕ → MessageRow
numbered i = row (i ∷ []) [] (some (pos i)) (pos 0)

-- `n` rows, numbered from `i`.
abbrev rows_from : ℕ → ℕ → List MessageRow
rows_from i zero = []
rows_from i (suc n) = numbered i ∷ rows_from (suc i) n

abbrev Above : ℕ → MessageRow → Type 0
Above i r = (j : ℕ) × (i < j) × (r ≡ numbered j)

rows_from-Above : (i k n : ℕ) → i < k → All (Above i) (rows_from k n)
rows_from-Above i k zero h = tt
rows_from-Above i k (suc n) h = ((k, h, refl), rows_from-Above i (suc k) n (omega (arith, h)))

apart : (i : ℕ) (r : MessageRow) → Above i r → clash (numbered i) r ≡ false
unfolding clash same_seq text_eq
apart i r (j, h, e) = subst (λ x. clash (numbered i) x ≡ false) (sym e) (ground (arith, h))

rows_from-IsKeyed : (k n : ℕ) → IsKeyed (rows_from k n)
rows_from-IsKeyed k zero = tt
rows_from-IsKeyed k (suc n) = (
  All-imp (Above k) (λ r. clash (numbered k) r ≡ false) (apart k) (rows_from (suc k) n)
      (rows_from-Above k (suc k) n (omega arith)),
  rows_from-IsKeyed (suc k) n,
)

abbrev hundred : List MessageRow
hundred = rows_from 1 100

abbrev frames : List Bytes
frames = put_response (reply (pos 0) 100 hundred) ∷ put_response (reply (pos 100) 100 []) ∷ []

abbrev ignore : List SyncMessage → Exec (Unit {0}) (Unit {0})
ignore ms s = (ok tt, s)

abbrev run : Option (Result (Unit {0})) × Session (Unit {0})
run = fetch_loop carrying_codec ignore 2 (record { store = tt; stream = connected frames [] })

sends : run.1.stream.outbox ≡ (0 ∷ 100 ∷ []) ∷ (100 ∷ []) ∷ (0 ∷ 100 ∷ []) ∷ []
unfolding fetch_loop round looped write_msg read_msg put get put_int get_int put_message get_message
    response_of message_of
sends = refl

abbrev tables : Tables
tables = record empty_tables { messages = hundred }

abbrev node : Link
node = record {
  db = with_tables tables;
  stream = connected ((0 ∷ 100 ∷ []) ∷ (100 ∷ []) ∷ (0 ∷ 100 ∷ []) ∷ []) [];
}

answers : (serve in_order carrying_codec 2 node).1.stream.outbox ≡ frames
unfolding serve read_msg run_query order_by select eligible text_eq insert_by seq_of write_msg
answers = refl

stops : run.0 ≡ some (ok tt)
unfolding fetch_loop round looped write_msg read_msg put get put_int get_int put_message get_message
    response_of message_of
stops = refl

all_wanted : length (wanted hundred) ≡ 100
unfolding select eligible text_eq
all_wanted = refl

fetch_loop-doubles_example : 2 ^ 1 ≤ length frames
fetch_loop-doubles_example =
    fetch_loop-doubles ignore in_order carrying_codec 2 2 1 node
      (record { store = tt; stream = connected frames [] }) carrying_codec_laws
      (rows_from-IsKeyed 1 100) (sends, answers) stops (omega (arith, all_wanted))
