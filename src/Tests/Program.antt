-- ===== src/Tests/Program.antt =====
-- The theorems on the start of the program, on its screens and on the queues of the bus.
use go_p2p_messenger.Base.{
  ℕ, ◌<◌, Text, codes, text_eq, Bool, true, false, Option, none, some, List, [], ◌∷◌, ◌≡◌, ◌≢◌,
  refl, arith, Error, message, ok, err, pure, ap, length, order_by, select, any, text_lt, insert_by,
}
use go_p2p_messenger.Event.{Bus, new_bus, subscribe, listens, subscribed, topic_new_message}
use go_p2p_messenger.Event
use go_p2p_messenger.Event.Invariant.{new_bus-IsValid, subscribe-IsValid}
use go_p2p_messenger.Event.Queue.{
  Operation, publishes, subscribes, receives, queue_run, bus_run, view,
}
use go_p2p_messenger.Event.Queue.Refinement.{IsOpen, bus_run-queue_run}
use go_p2p_messenger.Storage.Database.{with_tables, run_query}
use go_p2p_messenger.Storage.Contacts.{get_contacts}
use go_p2p_messenger.Storage.Messages.{get_conversations, max_id}
use go_p2p_messenger.Api.Chat.{list_conversations}
use go_p2p_messenger.Storage.Database.Opening.{Driver, no_change, open_db}
use go_p2p_messenger.Storage.Database.Opening.Handles.{IsOpened, open_db-IsOpened}
use go_p2p_messenger.State.{State}
use go_p2p_messenger.Identity.{Identity, Disk, device_id, generate, write_file}
use go_p2p_messenger.Api.Node.{NodeService}
use go_p2p_messenger.Transport.Reachability.{unknown}
use go_p2p_messenger.Transport.Host.{Libp2p}
use go_p2p_messenger.Ui.ChatList.{ChatListViewModel, refresh, new_view_model, watch}
use go_p2p_messenger.Ui.Navigator.{split, set_split}
use go_p2p_messenger.Ui.Screens.{on_selected}
use go_p2p_messenger.Ui.Screens.Composer.{
  Reachable, starts, steps, new_composer, edit, edits, on_send, sends,
}
use go_p2p_messenger.Ui.Screens.Composer.Race.{IsComposed, Reachable-IsComposed, Ends, send-Ends}
use go_p2p_messenger.Ui.Screens.Identity.{render, copies, generates}
use go_p2p_messenger.Ui.Screens.Identity
use go_p2p_messenger.Ui.Screens.Identity.Presses.{IsLabelled, press_all, presses-IsLabelled}
use go_p2p_messenger.Program.{App, new_app, show_initial, show_main_chat, show_direct_chat}
use go_p2p_messenger.Program.Screens
use go_p2p_messenger.Program.Screens.Shown.{IsShown}
use go_p2p_messenger.Program.Screens.Shown.Reached.{Reachable-IsShown}
use go_p2p_messenger.Program.Start.{World, start}
use go_p2p_messenger.Program.Start.Order.{IsStarted, start-IsStarted}
use go_p2p_messenger.Tests.{toy, alice, in_order, bob, two_messages}

abbrev closed_driver : List (Option Error) → Driver
closed_driver outcomes = record {
  handles = 0;
  applied = [];
  max_open = 0;
  max_idle = 2;
  migrated = false;
  outcomes = outcomes;
}

-- The third setting fails.
abbrev locked : List (Option Error)
locked = none ∷ none ∷ none ∷ some (message "database is locked") ∷ []

open_db-IsOpened_example : IsOpened (closed_driver locked) (open_db (closed_driver locked))
open_db-IsOpened_example = open_db-IsOpened (closed_driver locked)

-- go-libp2p with a port in use.
abbrev busy : Libp2p (Unit {0}) ℕ
busy = record {
  Manager = ℕ;
  Host = ℕ;
  new_conn_manager = λ low high grace. pure low;
  new_host = λ options w. (err (message "address already in use"), w);
}

abbrev world : World (Unit {0})
world = record {
  directory = none;
  driver = closed_driver [];
  disk = record { file = none; outcomes = [] };
  network = tt;
}

start-IsStarted_example : IsStarted toy busy world (start toy busy no_change (3 ∷ []) world)
start-IsStarted_example = start-IsStarted toy busy no_change (3 ∷ []) world

abbrev service : NodeService toy
service = record { ident = alice; reachability = unknown }

abbrev keyless : Disk
keyless = record { file = none; outcomes = [] }

abbrev carl : Identity toy
carl = record { private_key = 2; public_key = 2; peer_id = 2 ∷ [] }

generates_carl : (generate toy (0 ∷ 0 ∷ []) keyless).0 ≡ ok carl
unfolding generate write_file
generates_carl = refl

presses-IsLabelled_example :
    IsLabelled toy
      (device_id toy alice)
      (press_all toy (copies ∷ generates (0 ∷ 0 ∷ []) ∷ []) (render toy service keyless))
    × (let s =
          Identity.copy toy (Identity.generate toy (0 ∷ 0 ∷ []) (render toy service keyless)) in
        (s.id_value ≡ device_id toy carl) × (s.clipboard ≡ some (device_id toy alice)))
presses-IsLabelled_example =
    presses-IsLabelled toy (copies ∷ generates (0 ∷ 0 ∷ []) ∷ []) (0 ∷ 0 ∷ []) service keyless carl
      generates_carl

abbrev hello : Text
hello = codes "hello"

sent_hello-Reachable : Reachable (ok bob) (on_send (ok bob) (edit hello new_composer))
unfolding edit new_composer
sent_hello-Reachable =
    steps (edit hello new_composer) (on_send (ok bob) (edit hello new_composer))
      (steps new_composer (edit hello new_composer) starts (edits new_composer hello refl))
      (sends (edit hello new_composer) refl)

Reachable-IsComposed_example : IsComposed (ok bob) (on_send (ok bob) (edit hello new_composer))
Reachable-IsComposed_example =
    Reachable-IsComposed (ok bob) (on_send (ok bob) (edit hello new_composer)) sent_hello-Reachable

hello_text : hello ≢ []
hello_text e = ground (arith, ap length e)

send-Ends_example :
    Ends (ok bob) ((bob, hello) ∷ []) []
    × Ends (ok bob) ((bob, codes "hm") ∷ []) (codes "hm")
    × Ends (ok bob) ((bob, []) ∷ []) []
send-Ends_example = send-Ends (ok bob) bob hello (codes "hm") refl hello_text

abbrev heard_bus : Bus
heard_bus = (subscribe topic_new_message new_bus).1

abbrev hears : Text → Bool
hears topic = listens heard_bus topic 0

open_first : 0 < heard_bus.next
unfolding subscribe new_bus
open_first = omega arith

heard_bus-IsOpen : IsOpen hears 0 heard_bus
heard_bus-IsOpen = record {
  valid = subscribe-IsValid topic_new_message new_bus new_bus-IsValid;
  open_channel = open_first;
  hearing = λ topic. refl;
}

abbrev operations : List Operation
operations =
    publishes topic_new_message (Event.string hello)
    ∷ subscribes topic_new_message
    ∷ receives 0
    ∷ receives 1
    ∷ []

bus_run-queue_run_example :
    view 0 (bus_run 0 operations ([], heard_bus))
    ≡ queue_run hears 0 operations (view 0 ([], heard_bus))
bus_run-queue_run_example = bus_run-queue_run hears 0 operations [] heard_bus heard_bus-IsOpen

abbrev phone : State (Unit {0})
phone = record { db = with_tables two_messages; bus = new_bus; tp = tt }

abbrev app : App (Unit {0})
app = show_initial in_order true (new_app phone)

abbrev chatting : App (Unit {0})
chatting = show_direct_chat in_order bob app

abbrev listed : ChatListViewModel × State (Unit {0})
listed = refresh in_order (new_view_model, phone)

abbrev channels : ℕ × ℕ × ℕ
channels = (watch listed.1.bus).0

in_messenger : app.nav.content ≡ split
unfolding show_initial show_main_chat set_split
in_messenger = refl

one_list : app.lists ≡ (channels, listed.0) ∷ []
unfolding show_initial show_main_chat new_app
one_list = refl

picks_bob : on_selected listed.0 0 ≡ some bob
unfolding on_selected refresh list_conversations get_contacts get_conversations run_query order_by
    select any max_id text_eq text_lt insert_by
picks_bob = refl

chatting-Reachable : Screens.Reachable in_order 1 chatting
chatting-Reachable =
    Screens.steps 0 1 app chatting (Screens.starts true phone)
      (Screens.selects app 0 channels listed.0 bob in_messenger one_list picks_bob)

Reachable-IsShown_example : IsShown 1 chatting
Reachable-IsShown_example = Reachable-IsShown in_order 1 chatting chatting-Reachable
