-- ===== src/Storage/Database.antt =====
-- internal/storage/db.go: transactions, and the loop by which every query reads its rows. The calls
-- of the driver succeed or fail as a list of outcomes says, one for each call; when the list is used
-- up they succeed. SQLite itself is not modelled, but for the order of rows, which it chooses.
pub mod Atomicity
pub mod Queries
pub mod Opening
use Prim.Native.String.{String}
use go_p2p_messenger.Base.{
  ℕ, ℤ, pos, negsuc, Option, none, some, List, [], ◌∷◌, Permᴰ, take, Error, Result, ok, err, wrap,
  pair, Exec, pure, fail, ◌>>=◌, ◌>>◌,
}
use go_p2p_messenger.Storage.{Tables}

-- The order in which SQLite visits rows where a query leaves it open: some reordering of them.
pub record Engine : Type 1 where
  pub scan : (A : Type 0) → List A → List A
  pub scan-perm : (A : Type 0) (rows : List A) → Permᴰ (scan A rows) rows

pub record Db : Type 0 where
  pub tables : Tables
  pub outcomes : List (Option Error)

unfoldable pub answer : Option Error → Result (Unit {0})
answer none = ok tt
answer (some e) = err e

-- A call of the database driver.
unfoldable pub call : Exec Db (Unit {0})
unfolding answer
call db = elim db.outcomes [
  | [] ↦ (ok tt, db)
  | ◌∷◌ outcome rest ↦ (answer outcome, record db { outcomes = rest })
]

-- `tx.ExecContext`
unfoldable pub exec : (Tables → Tables) → Exec Db (Unit {0})
unfolding call
exec change = call >> λ db. (ok tt, record db { tables = change db.tables })

-- After `tx.Rollback()`.
rolled_back : Tables → Error → Result (Unit {0}) → Exec Db (Unit {0})
rolled_back before e (ok _) db = (err e, record db { tables = before })
rolled_back before e (err failed) db =
    (err (pair "transaction failed" e failed), record db { tables = before })

-- After `tx.Commit()`.
committed : Tables → Result (Unit {0}) → Exec Db (Unit {0})
committed before (ok _) db = (ok tt, db)
committed before (err e) db = (err (wrap "commit transaction" e), record db { tables = before })

-- After `fn(tx)`.
finish : Tables → Result (Unit {0}) → Exec Db (Unit {0})
unfolding call rolled_back committed
finish before (err e) db = let (r, db') = call db in rolled_back before e r db'
finish before (ok _) db = let (r, db') = call db in committed before r db'

-- After `db.Begin()`.
begun : Exec Db (Unit {0}) → Result (Unit {0}) → Exec Db (Unit {0})
unfolding finish
begun fn (err e) db = (err (wrap "begin transaction" e), db)
begun fn (ok _) db = let (r, db') = fn db in finish db.tables r db'

-- `DB.WriteTransaction`. The mutex lets one transaction run at a time, so that it is one step. What a
-- transaction wrote is lost when it is not committed.
unfoldable pub write_transaction : Exec Db (Unit {0}) → Exec Db (Unit {0})
unfolding call begun
write_transaction fn db = let (r, db') = call db in begun fn r db'

abbrev pub add_value :
    {B : Type 0} → B → Result (List B × Option Error) → Result (List B × Option Error)
add_value b (ok (bs, stop)) = ok (b ∷ bs, stop)
add_value b (err e) = err e

-- `for rows.Next() { rows.Scan(…) }`: the values read, and what `rows.Err()` then returns. A failed
-- `Next` ends the loop, a failed `Scan` the whole query.
unfoldable pub read_rows :
    {A B : Type 0} → (Error → Error) → (A → B) → List A → Exec Db (List B × Option Error)
unfolding call
read_rows on_scan f [] db = (ok ([], none), db)
read_rows on_scan f (row ∷ rows) db =
    let (more, db₁) = call db in
    let (scanned, db₂) = call db₁ in
    let (rest, db₃) = read_rows on_scan f rows db₂ in
    elim more [
      | err e ↦ (ok ([], some e), db₁)
      | ok _ ↦ elim scanned [
        | err e ↦ (err (on_scan e), db₂)
        | ok _ ↦ (add_value (f row) rest, db₃)
      ]
    ]

-- `return values, rows.Err()`, to a caller that looks at the error first.
abbrev pub checked : {B : Type 0} → List B × Option Error → Exec Db (List B)
checked (bs, none) = pure bs
checked (bs, some e) = fail e

-- `QueryContext`, the loop over the rows, and `rows.Err()`: `on_query` and `on_scan` say how errors are
-- passed on.
unfoldable pub run_query :
    {A B : Type 0} → (Error → Error) → (Error → Error) → (A → B) → List A → Exec Db (List B)
unfolding call read_rows
run_query on_query on_scan f rows db =
    let (r, db') = call db in
    elim r [ ok _ ↦ (read_rows on_scan f rows >>= checked) db' | err e ↦ (err (on_query e), db') ]

-- `LIMIT n`: a negative limit is none.
abbrev pub limit_rows : {A : Type 0} → ℤ → List A → List A
limit_rows (pos n) rows = take n rows
limit_rows (negsuc n) rows = rows

abbrev pub with_tables : Tables → Db
with_tables t = record { tables = t; outcomes = [] }
