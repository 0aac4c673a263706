-- ===== src/Storage/Database/Opening/Handles.antt =====
-- internal/storage/db.go: `Open` leaves no handle behind when it fails.
use go_p2p_messenger.Base.{
  In, Option, none, some, suc, ◌-◌, ◌≡◌, refl, sym, ◌∙◌, ap, List, [], ◌∷◌, ◌++◌, append_assoc,
  append-nil, arith, Error, wrap, Result, ◌⊎◌, inl, inr, ok, err, map_error, and_then, ◌>>◌,
}
use go_p2p_messenger.Storage.Database.Opening.{
  Pragma, pragmas, pragma_error, Driver, driver_call, sql_open, exec_pragma, close, or_close,
  exec_pragmas, set_limits, open_db,
}

-- What the settings leave: all of them made on the open handle, or an error that tells which one failed and
-- why, and the handle closed.
abbrev IsConfigured : List Pragma → Driver → Result (Unit {0}) × Driver → Type 0
IsConfigured ps d (ok u, d') = (d'.handles ≡ d.handles) × (d'.applied ≡ d.applied ++ ps)
IsConfigured ps d (err e, d') =
    (d'.handles ≡ d.handles - 1)
    × ((p : Pragma) × (cause : Error) × In (some cause) d.outcomes
        × (e ≡ wrap (pragma_error p) cause))

close-handles : (d : Driver) → (close d).handles ≡ d.handles - 1
unfolding close driver_call
close-handles d = ground arith

IsConfigured-weaken :
    (p : Pragma) (ps : List Pragma) (d d' : Driver) (r : Result (Unit {0}) × Driver)
    → d'.handles ≡ d.handles
    → d'.applied ≡ d.applied ++ p ∷ []
    → ((o : Option Error) → In o d'.outcomes → In o d.outcomes)
    → IsConfigured ps d' r
    → IsConfigured (p ∷ ps) d r
IsConfigured-weaken p ps d d' (ok u, x) h a l s =
    (s.0 ∙ h, s.1 ∙ ap (λ y. y ++ ps) a ∙ append_assoc d.applied (p ∷ []) ps)
IsConfigured-weaken p ps d d' (err e, x) h a l s =
    let (q, cause, i, k) = s.1 in (s.0 ∙ ap (λ n. n - 1) h, (q, cause, l (some cause) i, k))

pub driver_call-keeps :
    (d : Driver) → ((driver_call d).1.handles ≡ d.handles) × ((driver_call d).1.applied ≡ d.applied)
unfolding driver_call
driver_call-keeps d = (ground arith, ground arith)

-- An error that a call returns is the outcome of that call, and the others are still to come.
pub driver_call-outcomes :
    (d : Driver)
    → ((e : Error) → (driver_call d).0 ≡ err e → In (some e) d.outcomes)
      × ((o : Option Error) → In o (driver_call d).1.outcomes → In o d.outcomes)
unfolding driver_call
driver_call-outcomes d = by_outcomes d.outcomes
  where
    by_outcomes :
        (os : List (Option Error))
        → ((e : Error) → (driver_call (record d { outcomes = os })).0 ≡ err e → In (some e) os)
          × ((o : Option Error)
              → In o (driver_call (record d { outcomes = os })).1.outcomes
              → In o os)
    by_outcomes [] = (λ e h. absurd (ground (arith, h)), λ o i. i)
    by_outcomes (none ∷ os) = (λ e h. absurd (ground (arith, h)), λ o i. inr i)
    by_outcomes (some x ∷ os) = (λ e h. inl (ground (arith, h)), λ o i. inr i)

-- After the call for the first setting.
called-IsConfigured :
    (p : Pragma) (ps : List Pragma) (d d' : Driver) (r : Result (Unit {0}))
    → (d'.handles ≡ d.handles) × (d'.applied ≡ d.applied)
    → ((e : Error) → r ≡ err e → In (some e) d.outcomes)
      × ((o : Option Error) → In o d'.outcomes → In o d.outcomes)
    → ((x : Driver) → IsConfigured ps x (exec_pragmas ps x))
    → IsConfigured (p ∷ ps) d (
        let (r', x) =
          and_then
            (λ u. λ (y : Driver). (ok tt, record y { applied = y.applied ++ p ∷ [] }))
            (map_error (wrap (pragma_error p)) r)
            d' in
        or_close r' (exec_pragmas ps) x)
unfolding or_close
called-IsConfigured p ps d d' (err e) k l ih =
    (close-handles d' ∙ ap (λ n. n - 1) k.0, (p, e, l.0 e refl, refl))
called-IsConfigured p ps d d' (ok u) k l ih =
    let x : Driver = record d' { applied = d'.applied ++ p ∷ [] } in
    IsConfigured-weaken p ps d x (exec_pragmas ps x) k.0 (ap (λ y. y ++ p ∷ []) k.1) l.1 (ih x)

exec_pragmas-IsConfigured : (ps : List Pragma) (d : Driver) → IsConfigured ps d (exec_pragmas ps d)
unfolding exec_pragmas exec_pragma
exec_pragmas-IsConfigured [] d = (refl, sym (append-nil d.applied))
exec_pragmas-IsConfigured (p ∷ ps) d =
    let (r, d') = driver_call d in
    called-IsConfigured p ps d d' r (driver_call-keeps d) (driver_call-outcomes d)
      (exec_pragmas-IsConfigured ps)

-- The outcome of `Open`: one more handle, with all five settings and the limits of its pool; or an error
-- that tells what failed, and as many handles open as before.
abbrev pub IsOpened : Driver → Result (Unit {0}) × Driver → Type 0
IsOpened d (ok u, d') =
    (d'.handles ≡ suc d.handles) × (d'.applied ≡ pragmas) × (d'.max_open ≡ 16) × (d'.max_idle ≡ 4)
IsOpened d (err e, d') =
    (d'.handles ≡ d.handles)
    × ((cause : Error) × In (some cause) d.outcomes
        × ((e ≡ wrap "open sqlite db" cause) ⊎ ((p : Pragma) × (e ≡ wrap (pragma_error p) cause))))

limited-IsOpened :
    (d d' : Driver) (r : Result (Unit {0})) (x : Driver)
    → d'.handles ≡ suc d.handles
    → d'.applied ≡ []
    → ((o : Option Error) → In o d'.outcomes → In o d.outcomes)
    → IsConfigured pragmas d' (r, x)
    → IsOpened d (and_then (λ u. set_limits) r x)
unfolding set_limits
limited-IsOpened d d' (ok u) x h a l s = (s.0 ∙ h, s.1 ∙ ap (λ y. y ++ pragmas) a, refl, refl)
limited-IsOpened d d' (err e) x h a l s =
    let (p, cause, i, k) = s.1 in (omega (arith, s.0, h), (cause, l (some cause) i, inr (p, k)))

called-IsOpened :
    (d d' : Driver) (r : Result (Unit {0}))
    → d'.handles ≡ d.handles
    → ((e : Error) → r ≡ err e → In (some e) d.outcomes)
      × ((o : Option Error) → In o d'.outcomes → In o d.outcomes)
    → IsOpened d (
        and_then
          (λ u. exec_pragmas pragmas >> set_limits)
          (and_then
            (λ u. λ (y : Driver). (ok tt, record y { handles = suc y.handles; applied = [] }))
            (map_error (wrap "open sqlite db") r)
            d').0
          (and_then
            (λ u. λ (y : Driver). (ok tt, record y { handles = suc y.handles; applied = [] }))
            (map_error (wrap "open sqlite db") r)
            d').1)
called-IsOpened d d' (err e) h l = (h, (e, l.0 e refl, inl refl))
called-IsOpened d d' (ok u) h l =
    let y : Driver = record d' { handles = suc d'.handles; applied = [] } in
    let (r, x) = exec_pragmas pragmas y in
    limited-IsOpened d y r x (ap (λ n. suc n) h) refl l.1 (exec_pragmas-IsConfigured pragmas y)

-- Whatever calls of the driver fail: `Open` succeeds with one more handle, on which all five settings were
-- made in their order and the pool is limited to 16 connections, 4 of them idle; or it fails with an error
-- that wraps the error of a call of the driver, with the step that it names, and no handle stays open.
pub open_db-IsOpened : (d : Driver) → IsOpened d (open_db d)
unfolding open_db sql_open
open_db-IsOpened d =
    let (r, d') = driver_call d in
    called-IsOpened d d' r (driver_call-keeps d).0 (driver_call-outcomes d)
