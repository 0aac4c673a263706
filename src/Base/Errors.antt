-- ===== src/Base/Errors.antt =====
-- Errors as values, and functions that change a state and may fail. `wrap` is
-- `fmt.Errorf("<prefix>: %w", err)`, `message` an error with a fixed text, `pair` one that shows two
-- others, `quoted` one that shows a text, and `external` an error that a library hands over.
use Prim.Native.Nat.{ℕ}
use Prim.Native.String.{String}
use mathlib.Core.List.{List}
use mathlib.Core.Path.{◌≡◌, refl, ap}
use native.Mathlib.Omega.{arith}
use mathlib.Core.Logic.{◌⊎◌, inl, inr}

pub data Error : Type 0 where
  external : ℕ → Error
  message : String → Error
  wrap : String → Error → Error
  pair : String → Error → Error → Error
  quoted : String → List ℕ → Error

pub data Result {ℓ} (A : Type ℓ) : Type ℓ where
  ok : A → Result A
  err : Error → Result A

abbrev pub map_error {ℓ} : {A : Type ℓ} → (Error → Error) → Result A → Result A
map_error f (ok a) = ok a
map_error f (err e) = err (f e)

-- What was changed before an error stays changed, so the state comes back beside the error too.
abbrev pub Exec : Type 0 → Type 0 → Type 0
Exec S A = S → Result A × S

module _ {S A : Type 0} where
  abbrev pub pure : A → Exec S A
  pure a s = (ok a, s)

  abbrev pub fail : Error → Exec S A
  fail e s = (err e, s)

  -- `if err != nil { return fmt.Errorf("<prefix>: %w", err) }`
  abbrev pub wrapping : String → Exec S A → Exec S A
  wrapping prefix m s = let (r, s') = m s in (map_error (wrap prefix) r, s')

-- The next step, unless there was an error.
abbrev pub and_then : {S A B : Type 0} → (A → Exec S B) → Result A → Exec S B
and_then f (ok a) s = f a s
and_then f (err e) s = (err e, s)

infixl 5 ◌>>=◌ ◌>>◌
abbrev pub ◌>>=◌ : {S A B : Type 0} → Exec S A → (A → Exec S B) → Exec S B
◌>>=◌ m f s = let (r, s') = m s in and_then f r s'

abbrev pub ◌>>◌ : {S A B : Type 0} → Exec S A → Exec S B → Exec S B
m >> k = m >>= λ _. k

abbrev value_or {ℓ} : {A : Type ℓ} → A → Result A → A
value_or a (ok x) = x
value_or a (err e) = a

pub ok-injective {ℓ} : {A : Type ℓ} {x y : A} → ok x ≡ ok y → x ≡ y
ok-injective {x} e = ap (value_or x) e

pub Result-cases {ℓ} :
    {A : Type ℓ} (r : Result A) → ((a : A) × (r ≡ ok a)) ⊎ ((e : Error) × (r ≡ err e))
Result-cases (ok a) = inl (a, refl)
Result-cases (err e) = inr (e, refl)

module _ {S A B : Type 0} (f : A → Exec S B) where
  bind_ok_of :
      (r : Result A) (s : S) (b : B)
      → (and_then f r s).0 ≡ ok b
      → (a : A) × (r ≡ ok a) × ((f a s).0 ≡ ok b)
  bind_ok_of (ok a) s b h = (a, refl, h)
  bind_ok_of (err e) s b h = ground arith

  -- Both steps of a chain without an error.
  pub bind_ok :
      (m : Exec S A) (s : S) (b : B)
      → ((m >>= f) s).0 ≡ ok b
      → (a : A) × ((m s).0 ≡ ok a) × ((f a (m s).1).0 ≡ ok b)
  bind_ok m s b h = bind_ok_of (m s).0 (m s).1 b h

  pub bind_runs : (m : Exec S A) (s : S) (a : A) → (m s).0 ≡ ok a → (m >>= f) s ≡ f a (m s).1
  bind_runs m s a h = ap (λ r. and_then f r (m s).1) h
