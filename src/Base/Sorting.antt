-- ===== src/Base/Sorting.antt =====
-- The order of a query's rows: a stable insertion sort, and what a reordering of rows keeps.
use Prim.Native.Nat.{suc}
use mathlib.Core.Path.{◌≡◌, refl, ap, ◌∙◌, subst, subst₂}
use mathlib.Core.Logic.{inl, inr}
use mathlib.Core.Bool.{Bool, true, false}
use mathlib.Core.List.{List, [], ◌∷◌, Permᴰ}
use mathlib.Core.List.Permᴰ
use go_p2p_messenger.Base.Tests.{if◌then◌else◌, Bool-cases}
use go_p2p_messenger.Base.Lists.{length, All, All-imp, AllPairs, In}

module _ {A : Type 0} (le : A → A → Bool) where
  unfoldable pub insert_by : A → List A → List A
  insert_by x [] = x ∷ []
  insert_by x (y ∷ ys) = let rest = insert_by x ys in if le x y then x ∷ y ∷ ys else y ∷ rest

  -- `ORDER BY`: equal rows stay in the order in which they come.
  unfoldable pub order_by : List A → List A
  order_by [] = []
  order_by (x ∷ xs) = insert_by x (order_by xs)

  insert_by-perm : (x : A) (ys : List A) → Permᴰ (insert_by x ys) (x ∷ ys)
  unfolding insert_by
  insert_by-perm x [] = Permᴰ.refl (x ∷ [])
  insert_by-perm x (y ∷ ys) = elim (Bool-cases (le x y)) [
    | inl t ↦ rw t (Permᴰ.refl (x ∷ y ∷ ys))
    | inr f ↦ rw f (Permᴰ.trans (Permᴰ.cons refl (insert_by-perm x ys)) (Permᴰ.swap refl refl))
  ]

  pub order_by-perm : (xs : List A) → Permᴰ (order_by xs) xs
  unfolding order_by
  order_by-perm [] = Permᴰ.refl []
  order_by-perm (x ∷ xs) =
      Permᴰ.trans (insert_by-perm x (order_by xs)) (Permᴰ.cons refl (order_by-perm xs))

module _ {A : Type 0} (P : A → Type 0) where
  pub perm-All : {xs ys : List A} → Permᴰ xs ys → All P xs → All P ys
  perm-All Permᴰ.nil h = tt
  perm-All (Permᴰ.cons e p) h = (subst P e h.0, perm-All p h.1)
  perm-All (Permᴰ.swap e f) h = (subst P f h.1.0, (subst P e h.0, h.1.1))
  perm-All (Permᴰ.trans p q) h = perm-All q (perm-All p h)

pub perm-In : {A : Type 0} (a : A) {xs ys : List A} → Permᴰ xs ys → In a xs → In a ys
perm-In a Permᴰ.nil h = h
perm-In a (Permᴰ.cons e p) (inl d) = inl (d ∙ e)
perm-In a (Permᴰ.cons e p) (inr h) = inr (perm-In a p h)
perm-In a (Permᴰ.swap e f) (inl d) = inr (inl (d ∙ e))
perm-In a (Permᴰ.swap e f) (inr (inl d)) = inl (d ∙ f)
perm-In a (Permᴰ.swap e f) (inr (inr h)) = inr (inr h)
perm-In a (Permᴰ.trans p q) h = perm-In a q (perm-In a p h)

pub perm-length : {A : Type 0} {xs ys : List A} → Permᴰ xs ys → length xs ≡ length ys
perm-length Permᴰ.nil = refl
perm-length (Permᴰ.cons e p) = ap suc (perm-length p)
perm-length (Permᴰ.swap e f) = refl
perm-length (Permᴰ.trans p q) = perm-length p ∙ perm-length q

module _ {A : Type 0} (R : A → A → Type 0) (R-symm : (a b : A) → R a b → R b a) where
  pub perm-AllPairs : {xs ys : List A} → Permᴰ xs ys → AllPairs R xs → AllPairs R ys
  perm-AllPairs Permᴰ.nil h = tt
  perm-AllPairs (Permᴰ.cons {l₂ = l} e p) h =
      (subst (λ a. All (R a) l) e (perm-All (R _) p h.0), perm-AllPairs p h.1)
  perm-AllPairs (Permᴰ.swap {a = a} {b = b} {l = l} e f) h = (
    (subst₂ R f e (R-symm a b h.0.0), subst (λ x. All (R x) l) f h.1.0),
    (subst (λ x. All (R x) l) e h.0.1, h.1.1),
  )
  perm-AllPairs (Permᴰ.trans p q) h = perm-AllPairs q (perm-AllPairs p h)

-- `ORDER BY` sorts, where the test is a total preorder.
module _ {A : Type 0} (le : A → A → Bool) (le_total : (a b : A) → le a b ≡ false → le b a ≡ true)
    (le_trans : (a b c : A) → le a b ≡ true → le b c ≡ true → le a c ≡ true) where
  abbrev Below : A → A → Type 0
  Below a b = le a b ≡ true

  insert_by-AllPairs :
      (x : A) (ys : List A) → AllPairs Below ys → AllPairs Below (insert_by le x ys)
  unfolding insert_by
  insert_by-AllPairs x [] h = (tt, tt)
  insert_by-AllPairs x (y ∷ ys) h = elim (Bool-cases (le x y)) [
    | inl t ↦ rw t ((t, All-imp (Below y) (Below x) (λ a p. le_trans x y a t p) ys h.0), h)
    | inr f ↦ rw f (
      perm-All (Below y) (Permᴰ.symm (insert_by-perm le x ys)) (le_total x y f, h.0),
      insert_by-AllPairs x ys h.1,
    )
  ]

  pub order_by-AllPairs : (xs : List A) → AllPairs Below (order_by le xs)
  unfolding order_by
  order_by-AllPairs [] = tt
  order_by-AllPairs (x ∷ xs) = insert_by-AllPairs x (order_by le xs) (order_by-AllPairs xs)
