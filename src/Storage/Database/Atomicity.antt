-- ===== src/Storage/Database/Atomicity.antt =====
-- internal/storage/db.go: a transaction happens whole or not at all.
use go_p2p_messenger.Base.{
  ◌≡◌, refl, sym, ◌∙◌, Option, List, arith, Error, Result, ok, err, Exec, ap,
}
use go_p2p_messenger.Storage.{Tables}
use go_p2p_messenger.Storage.Database.{
  Db, answer, call, exec, rolled_back, committed, finish, begun, write_transaction, with_tables,
}

-- How a transaction with the body `fn` may end, from the tables `before`: with an error and these
-- tables, or with success and the tables that a successful run of the body left.
abbrev pub IsAtomic : Exec Db (Unit {0}) → Tables → Result (Unit {0}) × Db → Type 0
IsAtomic fn before (err e, db) = db.tables ≡ before
IsAtomic fn before (ok u, db) =
    (os : List (Option Error)) × ((fn (record { tables = before; outcomes = os })).0 ≡ ok tt)
    × ((fn (record { tables = before; outcomes = os })).1.tables ≡ db.tables)

pub tables-call : (db : Db) → (call db).1.tables ≡ db.tables
unfolding call
tables-call db = ground arith

committed-IsAtomic :
    (fn : Exec Db (Unit {0})) (os : List (Option Error)) (before : Tables) (r : Result (Unit {0}))
    (db : Db)
    → (fn (record { tables = before; outcomes = os })).0 ≡ ok tt
    → (fn (record { tables = before; outcomes = os })).1.tables ≡ db.tables
    → IsAtomic fn before (committed before r db)
unfolding committed
committed-IsAtomic fn os before (ok u) db e f = (os, e, f)
committed-IsAtomic fn os before (err x) db e f = refl

rolled_back-IsAtomic :
    (fn : Exec Db (Unit {0})) (before : Tables) (e : Error) (r : Result (Unit {0})) (db : Db)
    → IsAtomic fn before (rolled_back before e r db)
unfolding rolled_back
rolled_back-IsAtomic fn before e (ok u) db = refl
rolled_back-IsAtomic fn before e (err x) db = refl

finish-IsAtomic :
    (fn : Exec Db (Unit {0})) (os : List (Option Error)) (before : Tables) (r : Result (Unit {0}))
    (db : Db)
    → fn (record { tables = before; outcomes = os }) ≡ (r, db)
    → IsAtomic fn before (finish before r db)
unfolding finish
finish-IsAtomic fn os before (ok u) db e =
    committed-IsAtomic fn os before (call db).0 (call db).1 (ap (λ p. p.0) e)
      (ap (λ p. p.1.tables) e ∙ sym (tables-call db))
finish-IsAtomic fn os before (err x) db e = rolled_back-IsAtomic fn before x (call db).0 (call db).1

begun-IsAtomic :
    (fn : Exec Db (Unit {0})) (before : Tables) (r : Result (Unit {0})) (db : Db)
    → db.tables ≡ before
    → IsAtomic fn before (begun fn r db)
unfolding begun
begun-IsAtomic fn before (err e) db same = same
begun-IsAtomic fn before (ok u) db same =
    rw (← same) (finish-IsAtomic fn db.outcomes db.tables (fn db).0 (fn db).1 refl)

-- Whatever calls of the driver fail, a transaction that returns an error leaves the tables alone, and
-- one that returns none leaves the tables of a successful run of its body from the tables before it.
pub write_transaction-IsAtomic :
    (fn : Exec Db (Unit {0})) (db : Db) → IsAtomic fn db.tables (write_transaction fn db)
unfolding write_transaction
write_transaction-IsAtomic fn db =
    begun-IsAtomic fn db.tables (call db).0 (call db).1 (tables-call db)

-- A transaction of one statement changes the tables by that statement, or reports an error.
abbrev pub Changes : (Tables → Tables) → Tables → Result (Unit {0}) × Db → Type 0
Changes f before (err e, db) = db.tables ≡ before
Changes f before (ok u, db) = db.tables ≡ f before

exec_tables :
    (f : Tables → Tables) (db : Db) → (exec f db).0 ≡ ok tt → (exec f db).1.tables ≡ f db.tables
unfolding exec call answer
exec_tables f db h = ground arith

exec-Changes_of :
    (f : Tables → Tables) (before : Tables) (r : Result (Unit {0})) (db : Db)
    → IsAtomic (exec f) before (r, db)
    → Changes f before (r, db)
exec-Changes_of f before (err e) db h = h
exec-Changes_of f before (ok u) db h =
    sym h.2 ∙ exec_tables f (record { tables = before; outcomes = h.0 }) h.1

pub exec-Changes :
    (f : Tables → Tables) (db : Db) → Changes f db.tables (write_transaction (exec f) db)
exec-Changes f db =
    exec-Changes_of f db.tables (write_transaction (exec f) db).0 (write_transaction (exec f) db).1
      (write_transaction-IsAtomic (exec f) db)

-- With no fault the statement is executed.
pub exec_faultless :
    (f : Tables → Tables) (t : Tables)
    → write_transaction (exec f) (with_tables t) ≡ (ok tt, with_tables (f t))
unfolding write_transaction exec
exec_faultless f t = refl
