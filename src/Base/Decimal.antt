-- ===== src/Base/Decimal.antt =====
-- `fmt.Sprintf("%d", n)` for a number that is not negative.
use Prim.Native.Nat.{ℕ, zero, suc, ◌+◌, ◌*◌, ◌/◌, ◌%◌, ◌-◌, ◌<◌}
use mathlib.Core.Path.{◌≡◌, refl, sym, ap, ◌∙◌}
use mathlib.Core.Logic.{inl, inr}
use mathlib.Core.List.{[], ◌∷◌, ◌++◌}
use native.Mathlib.Omega.{arith}
use go_p2p_messenger.Base.Tests.{ltb, if◌then◌else◌, Bool-cases}
use go_p2p_messenger.Base.Strings.{Text}

-- The digits, with fuel; `n + 1` rounds are enough.
unfoldable pub digits : ℕ → ℕ → Text
digits zero n = []
digits (suc fuel) n =
    let front = digits fuel (n / 10) in
    if ltb n 10 then (48 + n) ∷ [] else front ++ (48 + n % 10) ∷ []

unfoldable pub decimal : ℕ → Text
unfolding digits
decimal n = digits (suc n) n

-- The number that a text of digits stands for.
unfoldable pub value : ℕ → Text → ℕ
value acc [] = acc
value acc (c ∷ s) = value (acc * 10 + (c - 48)) s

value-append_last :
    (acc : ℕ) (s : Text) (c : ℕ) → value acc (s ++ c ∷ []) ≡ value acc s * 10 + (c - 48)
unfolding value
value-append_last acc [] c = refl
value-append_last acc (d ∷ s) c = value-append_last (acc * 10 + (d - 48)) s c

value-digits : (fuel n : ℕ) → n < fuel → value 0 (digits fuel n) ≡ n
unfolding digits
value-digits zero n h = absurd (omega arith)
value-digits (suc fuel) n h = elim (Bool-cases (ltb n 10)) [
  | inl t ↦ rw (t, digits) (unfold value in ground arith)
  | inr f ↦
      rw (f, digits)
        (value-append_last 0 (digits fuel (n / 10)) (48 + n % 10)
          ∙ ground (arith, value-digits fuel (n / 10)))
]

pub value-decimal : (n : ℕ) → value 0 (decimal n) ≡ n
unfolding decimal
value-decimal n = value-digits (suc n) n (omega arith)

-- Different numbers are printed differently.
pub decimal-injective : (m n : ℕ) → decimal m ≡ decimal n → m ≡ n
decimal-injective m n e = sym (value-decimal m) ∙ ap (value 0) e ∙ value-decimal n
