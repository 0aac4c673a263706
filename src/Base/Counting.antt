-- ===== src/Base/Counting.antt =====
-- Lists without repetitions: as long as they are, so many elements has a list that they stand in.
use Prim.Native.Nat.{◌≤◌}
use mathlib.Core.List.{List, [], ◌∷◌, ◌++◌}
use mathlib.Core.Path.{◌≡◌, refl, sym, ap, subst}
use mathlib.Core.Logic.{◌≢◌, inl, inr}
use native.Mathlib.Omega.{arith}
use go_p2p_messenger.Base.Lists.{
  length, AllPairs, In, In-append_left, In-append_right, In-append_cases, All-In, length-append,
}

module _ {A : Type 0} where
  In-split :
      (a : A) (ys : List A)
      → In a ys
      → (before : List A) × (after : List A) × (ys ≡ before ++ a ∷ after)
  In-split a [] h = absurd h
  In-split a (y ∷ ys) (inl e) = ([], ys, ap (λ x. x ∷ ys) (sym e))
  In-split a (y ∷ ys) (inr h) =
      let (before, after, e) = In-split a ys h in (y ∷ before, after, ap (λ x. y ∷ x) e)

  In-without :
      (a b : A) (before after : List A)
      → In b (before ++ a ∷ after)
      → a ≢ b
      → In b (before ++ after)
  In-without a b before after h n = elim (In-append_cases b before (a ∷ after) h) [
    | inl i ↦ In-append_left b before after i
    | inr (inl e) ↦ absurd (n (sym e))
    | inr (inr i) ↦ In-append_right b before after i
  ]

  pub length_le_of_In :
      (xs ys : List A)
      → AllPairs (λ a b. a ≢ b) xs
      → ((a : A) → In a xs → In a ys)
      → length xs ≤ length ys
  length_le_of_In [] ys d h = omega arith
  length_le_of_In (x ∷ xs) ys d h =
      let (before, after, e) = In-split x ys (h x (inl refl)) in
      let ih = length_le_of_In xs (before ++ after) d.1 (λ a i.
        In-without x a before after (subst (In a) e (h a (inr i)))
          (All-In (λ b. x ≢ b) a xs d.0 i)) in
      omega (arith, ih, ap length e, length-append before (x ∷ after), length-append before after)
