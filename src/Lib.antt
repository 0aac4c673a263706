-- ===== src/Lib.antt =====
-- Aether, a peer-to-peer messenger: a model of its Go code and what is proved of it.
--
-- The parts and how they interact. A device has an identity (internal/identity), a database
-- (internal/storage), an event bus (internal/event) and a transport (internal/transport). The chat service
-- (internal/api/chat.go) seals a message with the processor (internal/logic), saves it, hands it to the
-- transport and publishes an event; the processor opens what arrives, saves it and publishes an event; the
-- view models (internal/ui/viewmodel) reload their lists on events. A Personal Node serves the messages
-- with a sequence number to its devices (internal/sync/server.go), and a device fetches them in cycles
-- (internal/sync/client.go and engine.go).
--
-- The files. Each names the code it is about in its first lines.
--   Base: text as lists of bytes, int64 as integers, errors as values, and programs as functions from a
--     state to a result and the state after it. `Exec S A` is a function that changes `S` and may fail.
--   Event: internal/event/event.go. `publish` is Publish, `subscribe` Subscribe, `receive` a read of a
--     channel. A channel is a number into a heap of buffers. Event.Queue: what one receiver sees of it.
--   Storage: internal/storage. Storage.Database has WriteTransaction and the loop that reads rows,
--     Storage.Database.Opening has Open and RunMigrations;
--     Storage.Messages, Storage.Contacts and Storage.Devices have the three repositories.
--   State: the database, bus and transport that the services share.
--   Identity: internal/identity/identity_manager.go, and the first choice of cmd/aether/main.go.
--   Logic: internal/logic/processor.go.
--   Sync.Wire: the messages of proto/aether/sync.pb.go. Sync.Stream: internal/sync/io.go. Sync.Server:
--     internal/sync/server.go, one session; Sync.Server.Sessions: the server's state and the steps of its
--     goroutines. Sync.Client: internal/sync/client.go. Sync.Engine: internal/sync/engine.go.
--     Sync.Dialogue: the loops of a device and of its node on one stream, as requests and responses;
--     Sync.Dialogue.Push: a push in between. Sync.Engine.Success: a whole
--     cycle, from the handshake on.
--   Transport: internal/transport, with the interface, the mock, libp2p and its host, peer exchange and
--     discovery.
--   Api: internal/api. Ui: internal/ui, with the view models, the navigator and the screens.
--   Program: cmd/aether/main.go. Program.Start is its start, Program.Screens what its screens do then.
--   Tests: concrete data, and the theorems applied to it.
--
-- Failures. Each call of the database driver, the file system, a stream or the host fails or succeeds as a
-- list of outcomes in the state says, so that a theorem about every state covers every pattern of failures.
-- Where the list is used up, calls succeed. A statement on a state with no outcomes left is one on a driver
-- or stream that works.
--
-- Bounds and fuel. The loops of the server and of the client run on fuel. Each round that goes on takes one
-- frame from the stream, so that one more than the number of frames is enough; with it `serve` and
-- `fetch_loop` are proved to end, or to wait in a read. After its frames a stream is closed or silent, and a
-- read of a silent one never returns: `fetch_loop`, `sync_cycle` and `serve` then yield `none`. All other
-- loops are structural. A channel holds 100 values, a response 100 messages, a peer exchange 50 peers. int64
-- values are compared, and a time of the clock has 60 added, so that no overflow is near.
--
-- Slices. A []byte is a list of bytes, and where nil matters, in the content of a stored message, it is
-- `none`. The column is NOT NULL, so that INSERT OR IGNORE skips a nil content.
--
-- Concurrency. A mutex makes a publication and a write transaction one step each. The handlers of the
-- server interleave in rounds of their loops: `Step` lists what may happen next and `Reachable` what may
-- have happened. So do the entry of a chat with its goroutines (Ui.Screens.Composer) and the screens of the
-- program (Program.Screens). A stream's frames stand in it from the start: in Sync.Dialogue those that a
-- device finds are the ones that the node's loop sends for the ones that the device sends.
--
-- Parameters. go-libp2p's keys and ids (`Crypto`), protobuf (`Codec`) and SQLite's order of rows
-- (`Engine`), the building of a host (`Libp2p`) and the DHT (`Dht`) are not part of the repository. They are
-- arguments, with what they document as `CryptoLaws`, `CodecLaws`, `IsPushedByNumber` and the field
-- `scan-perm`. Random bytes and readings of the clock are arguments.
--
-- Not modelled: the arrangement of Fyne's widgets and the theme, the SQL migrations (the tables they make
-- are the records of Storage), the insides of go-libp2p, of golang-migrate and of SQLite, logging.
pub mod Base
pub mod Transport
pub mod Event
pub mod Storage
pub mod State
pub mod Identity
pub mod Logic
pub mod Sync
pub mod Api
pub mod Ui
pub mod Program
mod Tests
