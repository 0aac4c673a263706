-- ===== src/State.antt =====
-- What the services of internal/logic, internal/api and internal/sync share: the database, the event
-- bus and a transport, which cmd/aether/main.go hands to each of them.
use go_p2p_messenger.Base.{Text, ok, Exec}
use go_p2p_messenger.Event.{Bus, Payload, publish}
use go_p2p_messenger.Storage.Database.{Db, with_tables}

pub record State (T : Type 0) : Type 0 where
  pub db : Db
  pub bus : Bus
  pub tp : T

module _ {T A : Type 0} where
  -- A call of a repository.
  abbrev pub on_db : Exec Db A → Exec (State T) A
  on_db m s = let (r, db') = m s.db in (r, record s { db = db' })

  -- A call of the transport.
  abbrev pub on_tp : Exec T A → Exec (State T) A
  on_tp m s = let (r, tp') = m s.tp in (r, record s { tp = tp' })

-- `bus.Publish`
abbrev pub notify : {T : Type 0} → Text → Payload → Exec (State T) (Unit {0})
notify topic payload s = (ok tt, record s { bus = publish topic payload s.bus })

-- The state with a database whose driver works.
abbrev pub faultless : {T : Type 0} → State T → State T
faultless s = record s { db = with_tables s.db.tables }
