-- ===== src/Storage/Messages/Save.antt =====
-- internal/storage/repository.go: what `Save` keeps.
use go_p2p_messenger.Base.{
  ◌≡◌, refl, sym, ◌∙◌, inl, inr, ◌⊎◌, ℤ, Text, text_eq, text_eq_iff, text_eq_refl, Bool, true,
  false, ◌||◌, Option, none, some, List, [], ◌∷◌, ◌++◌, arith, any, All, AllPairs, AllPairs-append,
  In, In-append_left, Bool-cases, Result, ok, err,
}
use go_p2p_messenger.Storage.{Message, MessageRow, Tables}
use go_p2p_messenger.Storage.Database.{Db}
use go_p2p_messenger.Storage.Database.Atomicity.{Changes, exec-Changes, exec_faultless}
use go_p2p_messenger.Storage.Messages.{row_of, same_seq, clash, is_null, insert_or_ignore, save}

-- No two rows have one id or one sequence number.
abbrev pub IsKeyed : List MessageRow → Type 0
IsKeyed rows = AllPairs (λ r s. clash r s ≡ false) rows

same_seq_comm : (m n : Option ℤ) → same_seq m n ≡ same_seq n m
unfolding same_seq
same_seq_comm none none = refl
same_seq_comm none (some n) = refl
same_seq_comm (some m) none = refl
same_seq_comm (some m) (some n) = ground arith

text_eq_comm : (s t : Text) → text_eq s t ≡ text_eq t s
text_eq_comm s t = ground (arith, text_eq_iff s t, text_eq_iff t s)

pub clash_comm : (r s : MessageRow) → clash r s ≡ clash s r
unfolding clash
clash_comm r s = rw (text_eq_comm r.id s.id, same_seq_comm r.global_seq s.global_seq) refl

pub clash_self : (r : MessageRow) → clash r r ≡ true
unfolding clash
clash_self r = rw (text_eq_refl r.id) refl

pub any-append_last :
    {A : Type 0} (p : A → Bool) (xs : List A) (x : A) → any p (xs ++ x ∷ []) ≡ (any p xs || p x)
unfolding any
any-append_last p [] x = ground arith
any-append_last p (y ∷ ys) x = ground (arith, any-append_last p ys x)

abbrev pub Apart : MessageRow → MessageRow → Type 0
Apart r s = clash r s ≡ false

no_clash :
    (row : MessageRow) (rows : List MessageRow)
    → any (clash row) rows ≡ false
    → All (λ r. All (Apart r) (row ∷ [])) rows
unfolding any
no_clash row [] h = tt
no_clash row (r ∷ rows) h =
    ((clash_comm r row ∙ ground arith, tt), no_clash row rows (ground arith))

pub insert_or_ignore-IsKeyed :
    (row : MessageRow) (rows : List MessageRow) → IsKeyed rows → IsKeyed (insert_or_ignore row rows)
unfolding insert_or_ignore
insert_or_ignore-IsKeyed row rows h =
    elim (Bool-cases (is_null row.content || any (clash row) rows)) [
      | inl t ↦ rw (t, insert_or_ignore) h
      | inr f ↦
          rw (f, insert_or_ignore)
            (AllPairs-append Apart rows (row ∷ []) h (tt, tt)
              (no_clash row rows (ground (arith, f))))
    ]

pub insert_or_ignore_twice :
    (row : MessageRow) (rows : List MessageRow)
    → insert_or_ignore row (insert_or_ignore row rows) ≡ insert_or_ignore row rows
unfolding insert_or_ignore
insert_or_ignore_twice row rows =
    ground (arith, any-append_last (clash row) rows row, clash_self row)

pub insert_or_ignore-keeps :
    (row r : MessageRow) (rows : List MessageRow) → In r rows → In r (insert_or_ignore row rows)
unfolding insert_or_ignore
insert_or_ignore-keeps row r rows h =
    elim (Bool-cases (is_null row.content || any (clash row) rows)) [
      | inl t ↦ rw (t, insert_or_ignore) h
      | inr f ↦ rw (f, insert_or_ignore) (In-append_left r rows (row ∷ []) h)
    ]

-- The tables after a successful `Save`.
abbrev pub saved : Message → Tables → Tables
saved m t = record t { messages = insert_or_ignore (row_of m) t.messages }

pub save-Changes : (m : Message) (db : Db) → Changes (saved m) db.tables (save m db)
unfolding save
save-Changes m db = exec-Changes (saved m) db

IsKeyed-of_Changes :
    (m : Message) (before : Tables) (r : Result (Unit {0})) (db : Db)
    → Changes (saved m) before (r, db)
    → IsKeyed before.messages
    → IsKeyed db.tables.messages
IsKeyed-of_Changes m before (err e) db c h = rw c h
IsKeyed-of_Changes m before (ok u) db c h =
    rw c (insert_or_ignore-IsKeyed (row_of m) before.messages h)

-- Whether it returns an error or not, `Save` keeps ids and sequence numbers unique.
pub save-IsKeyed :
    (m : Message) (db : Db) → IsKeyed db.tables.messages → IsKeyed (save m db).1.tables.messages
save-IsKeyed m db = IsKeyed-of_Changes m db.tables (save m db).0 (save m db).1 (save-Changes m db)

twice_of_Changes :
    (m : Message) (t before : Tables) (r : Result (Unit {0})) (db : Db)
    → before ≡ saved m t
    → Changes (saved m) before (r, db)
    → db.tables ≡ before
twice_of_Changes m t before (err e) db b c = c
twice_of_Changes m t before (ok u) db b c =
    c ∙ rw b (λ i. record t { messages = insert_or_ignore_twice (row_of m) t.messages i })

saved_of_ok :
    (m : Message) (before : Tables) (r : Result (Unit {0})) (db : Db)
    → Changes (saved m) before (r, db)
    → r ≡ ok tt
    → db.tables ≡ saved m before
saved_of_ok m before (err e) db c h = cc
saved_of_ok m before (ok u) db c h = c

pub save-ok :
    (m : Message) (db : Db) → (save m db).0 ≡ ok tt → (save m db).1.tables ≡ saved m db.tables
save-ok m db = saved_of_ok m db.tables (save m db).0 (save m db).1 (save-Changes m db)

-- Once a message has been saved, saving it again changes nothing, whatever calls of the driver fail.
pub save_twice :
    (m : Message) (db : Db)
    → (save m db).0 ≡ ok tt
    → (save m (save m db).1).1.tables ≡ (save m db).1.tables
save_twice m db h =
    let db' = (save m db).1 in
    twice_of_Changes m db.tables db'.tables (save m db').0 (save m db').1 (save-ok m db h)
      (save-Changes m db')

keeps_of_Changes :
    (m : Message) (row : MessageRow) (before : Tables) (r : Result (Unit {0})) (db : Db)
    → Changes (saved m) before (r, db)
    → In row before.messages
    → In row db.tables.messages
keeps_of_Changes m row before (err e) db c h = rw c h
keeps_of_Changes m row before (ok u) db c h =
    rw c (insert_or_ignore-keeps (row_of m) row before.messages h)

-- `Save` never removes or changes a stored row.
pub save-keeps :
    (m : Message) (row : MessageRow) (db : Db)
    → In row db.tables.messages
    → In row (save m db).1.tables.messages
save-keeps m row db =
    keeps_of_Changes m row db.tables (save m db).0 (save m db).1 (save-Changes m db)

pub save_faultless :
    (m : Message) (t : Tables)
    → save m (record { tables = t; outcomes = [] })
      ≡ (ok tt, record { tables = saved m t; outcomes = [] })
unfolding save
save_faultless m t = exec_faultless (saved m) t

pub any-In :
    {A : Type 0} (p : A → Bool) (xs : List A) → any p xs ≡ true → (x : A) × In x xs × (p x ≡ true)
unfolding any
any-In p [] h = absurd (ground (arith, h))
any-In p (x ∷ xs) h = elim (Bool-cases (p x)) [
  | inl t ↦ (x, inl refl, t)
  | inr f ↦ let (y, i, e) = any-In p xs (ground (arith, h, f)) in (y, inr i, e)
]

-- Two rows of one id, or of one sequence number.
abbrev pub SharesKey : MessageRow → MessageRow → Type 0
SharesKey r s = (r.id ≡ s.id) ⊎ ((n : ℤ) × (r.global_seq ≡ some n) × (s.global_seq ≡ some n))

same_seq-some : (m n : Option ℤ) → same_seq m n ≡ true → (k : ℤ) × (m ≡ some k) × (n ≡ some k)
unfolding same_seq
same_seq-some none n h = absurd (ground (arith, h))
same_seq-some (some m) none h = absurd (ground (arith, h))
same_seq-some (some m) (some n) h = (m, refl, ground (arith, h))

pub clash-SharesKey : (r s : MessageRow) → clash r s ≡ true → SharesKey r s
unfolding clash
clash-SharesKey r s h = elim (Bool-cases (text_eq r.id s.id)) [
  | inl t ↦ inl ((text_eq_iff r.id s.id).0 t)
  | inr f ↦ inr (same_seq-some r.global_seq s.global_seq (ground (arith, h, f)))
]

-- Of a row with content and without a sequence number: it is in the table now, at its end, or nothing has
-- changed, since its id was taken.
abbrev pub IsStored : MessageRow → Tables → Tables → Type 0
IsStored row before after =
    (after ≡ record before { messages = before.messages ++ row ∷ [] })
    ⊎ ((after ≡ before) × ((r : MessageRow) × In r before.messages × (r.id ≡ row.id)))

same_id : (row r : MessageRow) → row.global_seq ≡ none → SharesKey row r → r.id ≡ row.id
same_id row r e (inl h) = sym h
same_id row r e (inr h) = absurd (ground (arith, sym e ∙ h.1))

pub inserted-IsStored :
    (row : MessageRow) (t : Tables)
    → is_null row.content ≡ false
    → row.global_seq ≡ none
    → IsStored row t (record t { messages = insert_or_ignore row t.messages })
unfolding insert_or_ignore
inserted-IsStored row t c e =
    elim (Bool-cases (is_null row.content || any (clash row) t.messages)) [
      | inl h ↦
          let (r, i, k) = any-In (clash row) t.messages (ground (arith, h, c)) in
          inr (rw (h, insert_or_ignore) refl, (r, i, same_id row r e (clash-SharesKey row r k)))
      | inr h ↦ inl (rw (h, insert_or_ignore) refl)
    ]
