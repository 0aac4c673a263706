-- ===== src/Base/Int.antt =====
-- Go's int64 values, as integers over the native numbers. The program compares them, and adds 60 to a
-- time of the clock, which stays far from the end of the range.
use Prim.Native.Nat.{ℕ, suc, ◌+◌, ◌-◌, ◌≤◌, ◌<◌}
use mathlib.Core.Path.{◌≡◌}
use mathlib.Core.Bool.{Bool, true, false}
use mathlib.Core.Logic.{◌↔◌}
use native.Mathlib.Omega.{arith}
use go_p2p_messenger.Base.Tests.{ltb, leb, ◌==◌, if◌then◌else◌}

-- `negsuc n` is -(n + 1).
pub data ℤ : Type 0 where
  pos : ℕ → ℤ
  negsuc : ℕ → ℤ

abbrev pub pos_part : ℤ → ℕ
pos_part (pos n) = n
pos_part (negsuc n) = 0

abbrev pub neg_part : ℤ → ℕ
neg_part (pos n) = 0
neg_part (negsuc n) = suc n

infix 50 ◌≤ℤ◌ ◌<ℤ◌
abbrev pub ◌≤ℤ◌ : ℤ → ℤ → Type 0
a ≤ℤ b = pos_part a + neg_part b ≤ pos_part b + neg_part a

abbrev pub ◌<ℤ◌ : ℤ → ℤ → Type 0
a <ℤ b = pos_part a + neg_part b < pos_part b + neg_part a

abbrev pub ltb_ℤ : ℤ → ℤ → Bool
ltb_ℤ a b = ltb (pos_part a + neg_part b) (pos_part b + neg_part a)

abbrev pub leb_ℤ : ℤ → ℤ → Bool
leb_ℤ a b = leb (pos_part a + neg_part b) (pos_part b + neg_part a)

abbrev pub eqb_ℤ : ℤ → ℤ → Bool
eqb_ℤ a b = pos_part a + neg_part b == pos_part b + neg_part a

pub eqb_ℤ_iff : (a b : ℤ) → (eqb_ℤ a b ≡ true) ↔ (a ≡ b)
eqb_ℤ_iff a b = ground arith

pub leb_ℤ_total : (a b : ℤ) → leb_ℤ a b ≡ false → leb_ℤ b a ≡ true
leb_ℤ_total a b h = ground arith

pub leb_ℤ_trans : (a b c : ℤ) → leb_ℤ a b ≡ true → leb_ℤ b c ≡ true → leb_ℤ a c ≡ true
leb_ℤ_trans a b c h k = ground arith

-- `m - n`
abbrev pub difference : ℕ → ℕ → ℤ
difference m n = if leb n m then pos (m - n) else negsuc (n - suc m)

infixl 65 ◌+ℤ◌
abbrev pub ◌+ℤ◌ : ℤ → ℤ → ℤ
a +ℤ b = difference (pos_part a + pos_part b) (neg_part a + neg_part b)
