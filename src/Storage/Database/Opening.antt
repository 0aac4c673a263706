-- ===== src/Storage/Database/Opening.antt =====
-- internal/storage/db.go: `Open` and `RunMigrations`, over a driver whose calls succeed or fail as a list
-- of outcomes says; when it is used up they succeed.
pub mod Handles
use Prim.Native.String.{String}
use go_p2p_messenger.Base.{
  ℕ, suc, ◌-◌, Bool, true, false, Option, none, some, List, [], ◌∷◌, ◌++◌, Error, message, wrap,
  Result, ok, err, Exec, pure, fail, wrapping, ◌>>=◌, ◌>>◌,
}

-- The settings that `Open` makes, in the words of their PRAGMA.
pub data Pragma : Type 0 where
  journal_mode : Pragma
  synchronous : Pragma
  cache_size : Pragma
  mmap_size : Pragma
  temp_store : Pragma

abbrev pub pragmas : List Pragma
pragmas = journal_mode ∷ synchronous ∷ cache_size ∷ mmap_size ∷ temp_store ∷ []

-- `fmt.Errorf("exec pragma %q: %w", p, err)`
abbrev pub pragma_error : Pragma → String
pragma_error journal_mode = "exec pragma \"PRAGMA journal_mode = WAL;\""
pragma_error synchronous = "exec pragma \"PRAGMA synchronous = NORMAL;\""
pragma_error cache_size = "exec pragma \"PRAGMA cache_size = -64000;\""
pragma_error mmap_size = "exec pragma \"PRAGMA mmap_size = 268435456;\""
pragma_error temp_store = "exec pragma \"PRAGMA temp_store = MEMORY;\""

-- The driver: how many handles are open, the settings of the last one, and whether its schema is that of
-- all migrations.
pub record Driver : Type 0 where
  pub handles : ℕ
  pub applied : List Pragma
  pub max_open : ℕ
  pub max_idle : ℕ
  pub migrated : Bool
  pub outcomes : List (Option Error)

abbrev answer : Option Error → Driver → Result (Unit {0}) × Driver
answer none d = (ok tt, d)
answer (some e) d = (err e, d)

unfoldable pub driver_call : Exec Driver (Unit {0})
driver_call d = elim d.outcomes [
  | [] ↦ (ok tt, d)
  | ◌∷◌ outcome rest ↦ answer outcome (record d { outcomes = rest })
]

abbrev change : (Driver → Driver) → Exec Driver (Unit {0})
change f d = (ok tt, f d)

-- `sql.Open`
unfoldable pub sql_open : Exec Driver (Unit {0})
unfolding driver_call
sql_open =
    wrapping "open sqlite db" driver_call
    >> change (λ d. record d { handles = suc d.handles; applied = [] })

-- `db.Exec(p)`
unfoldable pub exec_pragma : Pragma → Exec Driver (Unit {0})
unfolding driver_call
exec_pragma p =
    wrapping (pragma_error p) driver_call
    >> change (λ d. record d { applied = d.applied ++ p ∷ [] })

-- `db.Close()`, whose error is not looked at.
unfoldable pub close : Driver → Driver
unfolding driver_call
close d = let (r, d') = driver_call d in record d' { handles = d'.handles - 1 }

-- After a failure the handle is closed.
unfoldable pub or_close : Result (Unit {0}) → Exec Driver (Unit {0}) → Exec Driver (Unit {0})
unfolding close
or_close (ok u) rest d = rest d
or_close (err e) rest d = (err e, close d)

-- The loop over the settings.
unfoldable pub exec_pragmas : List Pragma → Exec Driver (Unit {0})
unfolding exec_pragma or_close
exec_pragmas [] d = (ok tt, d)
exec_pragmas (p ∷ ps) d = let (r, d') = exec_pragma p d in or_close r (exec_pragmas ps) d'

-- `db.SetMaxOpenConns(16)` and `db.SetMaxIdleConns(4)`
unfoldable pub set_limits : Exec Driver (Unit {0})
set_limits = change (λ d. record d { max_open = 16; max_idle = 4 })

-- `Open`
unfoldable pub open_db : Exec Driver (Unit {0})
unfolding sql_open exec_pragmas set_limits
open_db = sql_open >> (exec_pragmas pragmas >> set_limits)

-- How `m.Up()` ends: it has applied migrations, it returns `migrate.ErrNoChange` where none is missing, or
-- it fails.
pub data Up : Type 0 where
  done : Up
  no_change : Up
  failed : Error → Up

-- After `m.Up()`.
unfoldable pub after_up : Up → Exec Driver (Unit {0})
after_up done d = (ok tt, record d { migrated = true })
after_up no_change d = (ok tt, record d { migrated = true })
after_up (failed e) d = (err (wrap "apply migrations" e), d)

-- `RunMigrations`
unfoldable pub run_migrations : Up → Exec Driver (Unit {0})
unfolding driver_call after_up
run_migrations up =
    wrapping "create iofs source" driver_call
    >> (wrapping "create sqlite driver" driver_call
        >> (wrapping "create migrate instance" driver_call >> after_up up))
