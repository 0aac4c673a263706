-- ===== src/Base/Lists.antt =====
-- Lists measured by native numbers, predicates by recursion, and selection by a Boolean test.
use Prim.Native.Nat.{ℕ, zero, suc, ◌+◌, ◌-◌, ◌≤◌, ◌<◌, min}
use mathlib.Core.Path.{◌≡◌, refl, ap}
use mathlib.Core.Logic.{◌⊎◌, inl, inr}
use mathlib.Core.Bool.{Bool, true, false, ◌||◌}
use mathlib.Core.List.{List, [], ◌∷◌, ◌++◌, map}
use native.Mathlib.Omega.{arith}
use go_p2p_messenger.Base.Tests.{if◌then◌else◌, Bool-cases}

module _ {ℓ} {A : Type ℓ} where
  abbrev pub length : List A → ℕ
  length [] = 0
  length (x ∷ xs) = suc (length xs)

  abbrev pub take : ℕ → List A → List A
  take zero xs = []
  take (suc n) [] = []
  take (suc n) (x ∷ xs) = x ∷ take n xs

  abbrev pub drop : ℕ → List A → List A
  drop zero xs = xs
  drop (suc n) [] = []
  drop (suc n) (x ∷ xs) = drop n xs

  abbrev pub All {κ} : (A → Type κ) → List A → Type κ
  All P [] = Unit
  All P (x ∷ xs) = P x × All P xs

  -- `R` holds of every two elements, the earlier one first.
  abbrev pub AllPairs {κ} : (A → A → Type κ) → List A → Type κ
  AllPairs R [] = Unit
  AllPairs R (x ∷ xs) = All (R x) xs × AllPairs R xs

  -- The elements that pass a test, in order.
  unfoldable pub select : (A → Bool) → List A → List A
  select p [] = []
  select p (x ∷ xs) = let rest = select p xs in if p x then x ∷ rest else rest

  unfoldable pub any : (A → Bool) → List A → Bool
  any p [] = false
  any p (x ∷ xs) = p x || any p xs

module _ {A : Type 0} where
  abbrev pub In : A → List A → Type 0
  In a [] = ⊥
  In a (x ∷ xs) = (a ≡ x) ⊎ In a xs

  pub In-append_left : (a : A) (xs ys : List A) → In a xs → In a (xs ++ ys)
  In-append_left a (x ∷ xs) ys (inl e) = inl e
  In-append_left a (x ∷ xs) ys (inr h) = inr (In-append_left a xs ys h)
  In-append_left a [] ys h = absurd h

  pub In-append_right : (a : A) (xs ys : List A) → In a ys → In a (xs ++ ys)
  In-append_right a [] ys h = h
  In-append_right a (x ∷ xs) ys h = inr (In-append_right a xs ys h)

  pub In-append_cases : (a : A) (xs ys : List A) → In a (xs ++ ys) → In a xs ⊎ In a ys
  In-append_cases a [] ys h = inr h
  In-append_cases a (x ∷ xs) ys (inl e) = inl (inl e)
  In-append_cases a (x ∷ xs) ys (inr h) = elim (In-append_cases a xs ys h) [
    | inl l ↦ inl (inr l)
    | inr r ↦ inr r
  ]

  pub In-select : (p : A → Bool) (a : A) (xs : List A) → In a xs → p a ≡ true → In a (select p xs)
  unfolding select
  In-select p a (x ∷ xs) (inl e) h = rw ((rw e at h)) (inl e)
  In-select p a (x ∷ xs) (inr i) h = elim (Bool-cases (p x)) [
    | inl t ↦ rw t (inr (In-select p a xs i h))
    | inr f ↦ rw f (In-select p a xs i h)
  ]
  In-select p a [] h k = absurd h

  pub In-select_inv :
      (p : A → Bool) (a : A) (xs : List A) → In a (select p xs) → In a xs × (p a ≡ true)
  unfolding select
  In-select_inv p a [] h = absurd h
  In-select_inv p a (x ∷ xs) h = elim (Bool-cases (p x)) [
    | inl t ↦
        (let h' : In a (x ∷ select p xs) = rw t at h in
          elim h' [
            | inl e ↦ (inl e, rw e t)
            | inr i ↦ let r = In-select_inv p a xs i in (inr r.0, r.1)
          ])
    | inr f ↦ let r = In-select_inv p a xs (rw f at h) in (inr r.0, r.1)
  ]

  pub All-In {κ} : (P : A → Type κ) (a : A) (xs : List A) → All P xs → In a xs → P a
  All-In P a (x ∷ xs) h (inl e) = rw e h.0
  All-In P a (x ∷ xs) h (inr i) = All-In P a xs h.1 i
  All-In P a [] h i = absurd i

  pub All-of_In {κ} : (P : A → Type κ) (xs : List A) → ((a : A) → In a xs → P a) → All P xs
  All-of_In P [] h = tt
  All-of_In P (x ∷ xs) h = (h x (inl refl), All-of_In P xs (λ a i. h a (inr i)))

module _ {ℓ} {A : Type ℓ} where
  pub length-append : (xs ys : List A) → length (xs ++ ys) ≡ length xs + length ys
  length-append [] ys = omega arith
  length-append (x ∷ xs) ys = omega (arith, length-append xs ys)

  pub length-take : (n : ℕ) (xs : List A) → length (take n xs) ≡ min n (length xs)
  length-take zero xs = omega arith
  length-take (suc n) [] = omega arith
  length-take (suc n) (x ∷ xs) = omega (arith, length-take n xs)

  pub length-drop : (n : ℕ) (xs : List A) → length (drop n xs) ≡ length xs - n
  length-drop zero xs = omega arith
  length-drop (suc n) [] = omega arith
  length-drop (suc n) (x ∷ xs) = omega (arith, length-drop n xs)

  pub take-append-drop : (n : ℕ) (xs : List A) → take n xs ++ drop n xs ≡ xs
  take-append-drop zero xs = refl
  take-append-drop (suc n) [] = refl
  take-append-drop (suc n) (x ∷ xs) = ap (◌∷◌ x) (take-append-drop n xs)

  pub take-all : (n : ℕ) (xs : List A) → length xs ≤ n → take n xs ≡ xs
  take-all zero [] h = refl
  take-all zero (x ∷ xs) h = absurd (omega arith)
  take-all (suc n) [] h = refl
  take-all (suc n) (x ∷ xs) h = ap (◌∷◌ x) (take-all n xs (omega arith))

  pub length-map {κ} : {B : Type κ} (f : A → B) (xs : List A) → length (map f xs) ≡ length xs
  length-map f [] = refl
  length-map f (x ∷ xs) = ap suc (length-map f xs)

module _ {ℓ κ} {A : Type ℓ} (P : A → Type κ) where
  pub All-append : (xs ys : List A) → All P xs → All P ys → All P (xs ++ ys)
  All-append [] ys hx hy = hy
  All-append (x ∷ xs) ys hx hy = (hx.0, All-append xs ys hx.1 hy)

  pub All-append_left : (xs ys : List A) → All P (xs ++ ys) → All P xs
  All-append_left [] ys h = tt
  All-append_left (x ∷ xs) ys h = (h.0, All-append_left xs ys h.1)

  pub All-append_right : (xs ys : List A) → All P (xs ++ ys) → All P ys
  All-append_right [] ys h = h
  All-append_right (x ∷ xs) ys h = All-append_right xs ys h.1

  pub All-select : (p : A → Bool) (xs : List A) → All P xs → All P (select p xs)
  unfolding select
  All-select p [] h = tt
  All-select p (x ∷ xs) h = elim (Bool-cases (p x)) [
    | inl t ↦ rw t (h.0, All-select p xs h.1)
    | inr f ↦ rw f (All-select p xs h.1)
  ]

module _ {ℓ κ} {A : Type ℓ} (R : A → A → Type κ) where
  pub AllPairs-append :
      (xs ys : List A)
      → AllPairs R xs
      → AllPairs R ys
      → All (λ x. All (R x) ys) xs
      → AllPairs R (xs ++ ys)
  AllPairs-append [] ys hx hy h = hy
  AllPairs-append (x ∷ xs) ys hx hy h =
      (All-append (R x) xs ys hx.0 h.0, AllPairs-append xs ys hx.1 hy h.1)

  pub AllPairs-append_inv :
      (xs ys : List A)
      → AllPairs R (xs ++ ys)
      → AllPairs R xs × AllPairs R ys × All (λ x. All (R x) ys) xs
  AllPairs-append_inv [] ys h = (tt, h, tt)
  AllPairs-append_inv (x ∷ xs) ys h =
      let r = AllPairs-append_inv xs ys h.1 in
      ((All-append_left (R x) xs ys h.0, r.0), r.1, (All-append_right (R x) xs ys h.0, r.2))

  pub AllPairs-select : (p : A → Bool) (xs : List A) → AllPairs R xs → AllPairs R (select p xs)
  unfolding select
  AllPairs-select p [] h = tt
  AllPairs-select p (x ∷ xs) h = elim (Bool-cases (p x)) [
    | inl t ↦ rw t (All-select (R x) p xs h.0, AllPairs-select p xs h.1)
    | inr f ↦ rw f (AllPairs-select p xs h.1)
  ]

module _ {ℓ κ μ} {A : Type ℓ} (P : A → Type κ) (Q : A → Type μ) where
  pub All-imp : ((a : A) → P a → Q a) → (xs : List A) → All P xs → All Q xs
  All-imp f [] h = tt
  All-imp f (x ∷ xs) h = (f x h.0, All-imp f xs h.1)

module _ {ℓ κ μ ν} {A : Type ℓ} (P : A → Type κ) (Q : A → Type μ) (R : A → Type ν) where
  pub All-imp₂ : ((a : A) → P a → Q a → R a) → (xs : List A) → All P xs → All Q xs → All R xs
  All-imp₂ f [] h k = tt
  All-imp₂ f (x ∷ xs) h k = (f x h.0 k.0, All-imp₂ f xs h.1 k.1)

module _ {ℓ} {A : Type ℓ} where
  pub AllPairs-imp₂ {κ μ ν} :
      (R : A → A → Type κ) (S : A → A → Type μ) (T : A → A → Type ν)
      → ((a b : A) → R a b → S a b → T a b)
      → (xs : List A) → AllPairs R xs
      → AllPairs S xs
      → AllPairs T xs
  AllPairs-imp₂ R S T f [] h k = tt
  AllPairs-imp₂ R S T f (x ∷ xs) h k =
      (All-imp₂ (R x) (S x) (T x) (f x) xs h.0 k.0, AllPairs-imp₂ R S T f xs h.1 k.1)

  pub AllPairs-of_All {κ μ ν} :
      (P : A → Type κ) (R : A → A → Type μ) (T : A → A → Type ν)
      → ((a b : A) → P a → P b → R a b → T a b)
      → (xs : List A) → All P xs
      → AllPairs R xs
      → AllPairs T xs
  AllPairs-of_All P R T f [] h k = tt
  AllPairs-of_All P R T f (x ∷ xs) h k = (
    All-imp₂ P (R x) (T x) (λ b p r. f x b h.0 p r) xs h.1 k.0,
    AllPairs-of_All P R T f xs h.1 k.1,
  )

  pub All-take {κ} : (P : A → Type κ) (n : ℕ) (xs : List A) → All P xs → All P (take n xs)
  All-take P n xs h = All-append_left P (take n xs) (drop n xs) (rw (take-append-drop n xs) h)

  pub AllPairs-take {κ} :
      (R : A → A → Type κ) (n : ℕ) (xs : List A) → AllPairs R xs → AllPairs R (take n xs)
  AllPairs-take R n xs h =
      (AllPairs-append_inv R (take n xs) (drop n xs) (rw (take-append-drop n xs) h)).0

module _ {A : Type 0} where
  pub In-take : (a : A) (n : ℕ) (xs : List A) → In a (take n xs) → In a xs
  In-take a n xs h = rw (← take-append-drop n xs) (In-append_left a (take n xs) (drop n xs) h)

  pub In-take_cases : (a : A) (n : ℕ) (xs : List A) → In a xs → In a (take n xs) ⊎ In a (drop n xs)
  In-take_cases a n xs h = In-append_cases a (take n xs) (drop n xs) (rw (take-append-drop n xs) h)

  pub In-positive : (a : A) (xs : List A) → In a xs → 0 < length xs
  In-positive a [] h = absurd h
  In-positive a (x ∷ xs) h = omega arith

module _ {ℓ κ μ} {A : Type ℓ} (R : A → A → Type κ) (S : A → A → Type μ) where
  pub AllPairs-imp : ((a b : A) → R a b → S a b) → (xs : List A) → AllPairs R xs → AllPairs S xs
  AllPairs-imp f [] h = tt
  AllPairs-imp f (x ∷ xs) h = (All-imp (R x) (S x) (f x) xs h.0, AllPairs-imp f xs h.1)
