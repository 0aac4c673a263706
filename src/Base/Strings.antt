-- ===== src/Base/Strings.antt =====
-- Go strings and byte slices, both as lists of bytes: `string(b)` and `[]byte(s)` keep the bytes.
use Prim.Native.Char.{code}
use Prim.Native.String.{String}
use Prim.Native.Nat.{ℕ}
use mathlib.Core.Path.{◌≡◌, refl}
use mathlib.Core.Bool.{Bool, true, false, ◌&&◌}
use mathlib.Core.Logic.{◌↔◌}
use mathlib.Core.List.{List, [], ◌∷◌}
use native.Mathlib.Omega.{arith}
use go_p2p_messenger.Base.Tests.{ltb, ◌==◌, if◌then◌else◌}

abbrev pub Bytes : Type 0
Bytes = List ℕ

abbrev pub Text : Type 0
Text = List ℕ

-- The bytes of an ASCII literal.
abbrev pub codes : String → Text
codes String.[] = []
codes (String.◌∷◌ c s) = code c ∷ codes s

unfoldable pub text_eq : Text → Text → Bool
text_eq [] [] = true
text_eq (a ∷ s) (b ∷ t) = a == b && text_eq s t
text_eq _ _ = false

text_eq_sound : (s t : Text) → text_eq s t ≡ true → s ≡ t
unfolding text_eq
text_eq_sound [] [] h = refl
text_eq_sound (a ∷ s) (b ∷ t) h = ground (arith, text_eq_sound s t)
text_eq_sound [] (b ∷ t) h = ground arith
text_eq_sound (a ∷ s) [] h = ground arith

pub text_eq_refl : (s : Text) → text_eq s s ≡ true
unfolding text_eq
text_eq_refl [] = refl
text_eq_refl (a ∷ s) = ground (arith, text_eq_refl s)

pub text_eq_iff : (s t : Text) → (text_eq s t ≡ true) ↔ (s ≡ t)
text_eq_iff s t = (text_eq_sound s t, λ e. rw e (text_eq_refl t))

-- `s < t` for byte strings: the order of SQLite's BINARY collation.
unfoldable pub text_lt : Text → Text → Bool
text_lt [] [] = false
text_lt [] (b ∷ t) = true
text_lt (a ∷ s) [] = false
text_lt (a ∷ s) (b ∷ t) =
    let rest = text_lt s t in if ltb a b then true else if a == b then rest else false
