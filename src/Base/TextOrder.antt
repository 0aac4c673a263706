-- ===== src/Base/TextOrder.antt =====
-- The order of byte strings is a linear order.
use mathlib.Core.Path.{◌≡◌, refl}
use mathlib.Core.Bool.{true, false}
use mathlib.Core.List.{[], ◌∷◌}
use native.Mathlib.Omega.{arith}
use go_p2p_messenger.Base.Strings.{Text, text_lt}

pub text_lt_irrefl : (s : Text) → text_lt s s ≡ false
unfolding text_lt
text_lt_irrefl [] = refl
text_lt_irrefl (a ∷ s) = ground (arith, text_lt_irrefl s)

-- `≥` is transitive.
pub text_ge_trans : (s t u : Text) → text_lt s t ≡ false → text_lt t u ≡ false → text_lt s u ≡ false
unfolding text_lt
text_ge_trans [] [] u h k = k
text_ge_trans [] (b ∷ t) u h k = ground arith
text_ge_trans (a ∷ s) t [] h k = refl
text_ge_trans (a ∷ s) [] (c ∷ u) h k = ground arith
text_ge_trans (a ∷ s) (b ∷ t) (c ∷ u) h k = ground (arith, text_ge_trans s t u)

pub text_lt-asymm : (s t : Text) → text_lt s t ≡ true → text_lt t s ≡ false
unfolding text_lt
text_lt-asymm [] [] h = refl
text_lt-asymm [] (b ∷ t) h = refl
text_lt-asymm (a ∷ s) [] h = ground arith
text_lt-asymm (a ∷ s) (b ∷ t) h = ground (arith, text_lt-asymm s t)

pub text_lt_antisymm : (s t : Text) → text_lt s t ≡ false → text_lt t s ≡ false → s ≡ t
unfolding text_lt
text_lt_antisymm [] [] h k = refl
text_lt_antisymm [] (b ∷ t) h k = ground arith
text_lt_antisymm (a ∷ s) [] h k = ground arith
text_lt_antisymm (a ∷ s) (b ∷ t) h k = ground (arith, text_lt_antisymm s t)
