-- ===== src/Storage/Database/Queries.antt =====
-- internal/storage/db.go, repository.go: what a query returns.
use go_p2p_messenger.Base.{◌≡◌, refl, none, List, [], ◌∷◌, arith, Error, ok, map}
use go_p2p_messenger.Storage.{Tables}
use go_p2p_messenger.Storage.Database.{Db, call, read_rows, run_query, with_tables}
use go_p2p_messenger.Storage.Database.Atomicity.{tables-call}

-- With no fault a query reads every row.
pub read_rows_faultless :
    {A B : Type 0} (g : Error → Error) (f : A → B) (rows : List A) (t : Tables)
    → read_rows g f rows (with_tables t) ≡ (ok (map f rows, none), with_tables t)
unfolding read_rows
read_rows_faultless g f [] t = refl
read_rows_faultless g f (x ∷ rows) t = rw (read_rows_faultless g f rows t)

pub tables-read_rows :
    {A B : Type 0} (g : Error → Error) (f : A → B) (rows : List A) (db : Db)
    → (read_rows g f rows db).1.tables ≡ db.tables
unfolding read_rows
tables-read_rows g f [] db = refl
tables-read_rows g f (x ∷ rows) db =
    ground (
      arith,
      tables-call db,
      tables-call (call db).1,
      tables-read_rows g f rows (call (call db).1).1,
    )

-- Whatever fails, values that are read without an error are those of all the rows.
pub read_rows_complete :
    {A B : Type 0} (g : Error → Error) (f : A → B) (rows : List A) (db : Db) (bs : List B)
    → (read_rows g f rows db).0 ≡ ok (bs, none)
    → bs ≡ map f rows
unfolding read_rows
read_rows_complete g f [] db bs e = ground arith
read_rows_complete g f (x ∷ rows) db [] e = ground arith
read_rows_complete g f (x ∷ rows) db (b ∷ bs) e =
    ground (arith, read_rows_complete g f rows (call (call db).1).1 bs)

module _ {A B : Type 0} (on_query on_scan : Error → Error) (f : A → B) (rows : List A) where
  -- A query reads and does not write, and if it returns no error then it returns every row.
  pub run_query_ok :
      (db : Db) (bs : List B) → (run_query on_query on_scan f rows db).0 ≡ ok bs → bs ≡ map f rows
  unfolding run_query
  run_query_ok db bs e = ground (arith, read_rows_complete on_scan f rows (call db).1 bs)

  pub tables-run_query : (db : Db) → (run_query on_query on_scan f rows db).1.tables ≡ db.tables
  unfolding run_query
  tables-run_query db = ground (arith, tables-call db, tables-read_rows on_scan f rows (call db).1)

  pub run_query_faultless :
      (t : Tables)
      → run_query on_query on_scan f rows (with_tables t) ≡ (ok (map f rows), with_tables t)
  unfolding run_query
  run_query_faultless t = ground (arith, read_rows_faultless on_scan f rows t)
