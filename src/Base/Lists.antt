-- ===== src/Base/Lists.antt =====
-- Lists measured by native numbers and tested by Boolean functions, as the source's array methods.
use Prim.Native.Nat.{ℕ, zero, suc, ◌+◌}
use mathlib.Core.Path.{◌≡◌, refl, ap}
use mathlib.Core.Bool.{Bool, true, false, ◌&&◌, ◌||◌}
use mathlib.Core.List.{List, [], ◌∷◌, ◌++◌, map, Memᴰ}
use mathlib.Core.Logic.{inl, inr}
use mathlib.Core.Option.{Option, none, some}
use native.Mathlib.Omega.{arith}
use llm_hub.Base.Tests.{Bool-cases, if◌then◌else◌}

module _ {ℓ} {A : Type ℓ} where
  abbrev pub length : List A → ℕ
  length [] = 0
  length (x ∷ xs) = suc (length xs)

  -- `const [row] = rows`
  abbrev pub head : List A → Option A
  head [] = none
  head (x ∷ xs) = some x

  -- `xs[k]`
  abbrev pub nth : ℕ → List A → Option A
  nth k [] = none
  nth zero (x ∷ xs) = some x
  nth (suc k) (x ∷ xs) = nth k xs

  abbrev pub any : (A → Bool) → List A → Bool
  any p [] = false
  any p (x ∷ xs) = p x || any p xs

  abbrev pub keep : (A → Bool) → List A → List A
  keep p [] = []
  keep p (x ∷ xs) = let rest = keep p xs in if p x then x ∷ rest else rest

  -- Applies `f` where the test holds, and leaves the rest as it is.
  abbrev pub change : (A → Bool) → (A → A) → List A → List A
  change p f [] = []
  change p f (x ∷ xs) = (if p x then f x else x) ∷ change p f xs

  abbrev pub count : (A → Bool) → List A → ℕ
  count p xs = length (keep p xs)

module _ {ℓ κ} {A : Type ℓ} (P : A → Type κ) where
  abbrev pub All : List A → Type κ
  All [] = Unit
  All (x ∷ xs) = P x × All xs

  pub All-append : (xs ys : List A) → All xs → All ys → All (xs ++ ys)
  All-append [] ys hx hy = hy
  All-append (x ∷ xs) ys hx hy = (hx.0, All-append xs ys hx.1 hy)

module _ {ℓ} {A : Type ℓ} where
  pub length-append : (xs ys : List A) → length (xs ++ ys) ≡ length xs + length ys
  length-append [] ys = omega arith
  length-append (x ∷ xs) ys = omega (arith, length-append xs ys)

  -- Keeping what nothing passes leaves nothing, and what everything passes leaves all.
  pub keep-none : (p : A → Bool) (xs : List A) → any p xs ≡ false → keep p xs ≡ []
  keep-none p [] h = refl
  keep-none p (x ∷ xs) h = ground (arith, keep-none p xs)

  pub any-none : (p : A → Bool) (xs : List A) → keep p xs ≡ [] → any p xs ≡ false
  any-none p [] h = refl
  any-none p (x ∷ xs) h = ground (arith, any-none p xs)

  pub change-none : (p : A → Bool) (f : A → A) (xs : List A) → any p xs ≡ false → change p f xs ≡ xs
  change-none p f [] h = refl
  change-none p f (x ∷ xs) h = ground (arith, change-none p f xs)

  -- A change that touches no row of a class leaves the rows of that class.
  pub keep-change :
      (q p : A → Bool) (f : A → A) (xs : List A)
      → ((x : A) → p x ≡ true → (q x ≡ false) × (q (f x) ≡ false))
      → keep q (change p f xs) ≡ keep q xs
  keep-change q p f [] h = refl
  keep-change q p f (x ∷ xs) h = ground (arith, keep-change q p f xs h, h x)

  pub keep-and : (p q : A → Bool) (xs : List A) → keep (λ x. p x && q x) xs ≡ keep q (keep p xs)
  keep-and p q [] = refl
  keep-and p q (x ∷ xs) = ground (arith, keep-and p q xs)

  pub keep-holds : (p : A → Bool) (a : A) (xs : List A) → keep p xs ≡ a ∷ [] → p a ≡ true
  keep-holds p a [] h = cc
  keep-holds p a (x ∷ xs) h = elim (Bool-cases (p x)) [
    | inl here ↦ let same : x ≡ a = ground (arith, here) in rw (← same) here
    | inr there ↦ keep-holds p a xs (ground (arith, there))
  ]

  pub keep-append : (q : A → Bool) (xs ys : List A) → keep q (xs ++ ys) ≡ keep q xs ++ keep q ys
  keep-append q [] ys = refl
  keep-append q (x ∷ xs) ys = ground (arith, keep-append q xs ys)

module _ {ℓ κ} {A : Type ℓ} {B : Type κ} where
  pub Memᴰ-map : (f : A → B) {a : A} {xs : List A} → Memᴰ a xs → Memᴰ (f a) (map f xs)
  Memᴰ-map f (Memᴰ.head e) = Memᴰ.head (ap f e)
  Memᴰ-map f (Memᴰ.tail m) = Memᴰ.tail (Memᴰ-map f m)
