-- ===== src/Base/Distinct.antt =====
-- Lists without two clashing members, as a table under a unique index, and what keeps them so.
use mathlib.Core.Path.{◌≡◌, refl}
use mathlib.Core.Bool.{true, Bool, false, ◌||◌}
use mathlib.Core.List.{List, [], ◌∷◌, ◌++◌}
use mathlib.Core.Logic.{inl, inr}
use native.Mathlib.Omega.{arith}
use llm_hub.Base.Tests.{Bool-cases}
use llm_hub.Base.Lists.{any, keep, change, All}

module _ {A : Type 0} where
  -- No member clashes with a later one.
  abbrev pub Distinct : (A → A → Bool) → List A → Type 0
  Distinct clash [] = Unit
  Distinct clash (x ∷ xs) = (any (clash x) xs ≡ false) × Distinct clash xs

  pub any-change :
      (q p : A → Bool) (f : A → A) (xs : List A)
      → ((x : A) → q (f x) ≡ q x)
      → any q (change p f xs) ≡ any q xs
  any-change q p f [] same = refl
  any-change q p f (x ∷ xs) same = ground (arith, any-change q p f xs same, same x)

  pub any-append : (q : A → Bool) (xs ys : List A) → any q (xs ++ ys) ≡ (any q xs || any q ys)
  any-append q [] ys = refl
  any-append q (x ∷ xs) ys = ground (arith, any-append q xs ys)

  pub any-keep : (q p : A → Bool) (xs : List A) → any q xs ≡ false → any q (keep p xs) ≡ false
  any-keep q p [] h = refl
  any-keep q p (x ∷ xs) h = ground (arith, any-keep q p xs)

  module _ (clash : A → A → Bool) where
    -- A change of what does not matter to the clash keeps the members distinct.
    pub Distinct-change :
        (p : A → Bool) (f : A → A) (xs : List A)
        → ((x y : A) → clash x (f y) ≡ clash x y)
        → ((x y : A) → clash (f x) y ≡ clash x y)
        → Distinct clash xs
        → Distinct clash (change p f xs)
    Distinct-change p f [] right left d = tt
    Distinct-change p f (x ∷ xs) right left d = (
      elim (Bool-cases (p x)) [
        | inl hit ↦ rw (hit, any-change (clash (f x)) p f xs (right (f x))) (any_left x xs left d.0)
        | inr miss ↦ rw (miss, any-change (clash x) p f xs (right x)) d.0
      ],
      Distinct-change p f xs right left d.1,
    )
      where
        any_left :
            (x : A) (ys : List A)
            → ((x y : A) → clash (f x) y ≡ clash x y)
            → any (clash x) ys ≡ false
            → any (clash (f x)) ys ≡ false
        any_left x [] left h = refl
        any_left x (y ∷ ys) left h = ground (arith, left x y, any_left x ys left)

    -- A new member that clashes with none can be added at the end.
    pub Distinct-snoc :
        (xs : List A) (x : A)
        → ((y : A) → clash y x ≡ clash x y)
        → Distinct clash xs
        → any (clash x) xs ≡ false
        → Distinct clash (xs ++ x ∷ [])
    Distinct-snoc [] x symmetric d h = (refl, tt)
    Distinct-snoc (y ∷ xs) x symmetric d h = (
      rw (any-append (clash y) xs (x ∷ [])) (ground (arith, d.0, symmetric y, h)),
      Distinct-snoc xs x symmetric d.1 (ground (arith, h)),
    )

    pub Distinct-keep :
        (p : A → Bool) (xs : List A) → Distinct clash xs → Distinct clash (keep p xs)
    Distinct-keep p [] d = tt
    Distinct-keep p (x ∷ xs) d = elim (Bool-cases (p x)) [
      | inl here ↦ rw here (any-keep (clash x) p xs d.0, Distinct-keep p xs d.1)
      | inr there ↦ rw there (Distinct-keep p xs d.1)
    ]

  pub All-change {κ} :
      (P : A → Type κ) (p : A → Bool) (f : A → A) (xs : List A)
      → ((x : A) → P x → P (f x))
      → All P xs
      → All P (change p f xs)
  All-change P p f [] step h = tt
  All-change P p f (x ∷ xs) step h = (
    elim (Bool-cases (p x)) [ inl hit ↦ rw hit (step x h.0) | inr miss ↦ rw miss h.0 ],
    All-change P p f xs step h.1,
  )

  pub All-keep {κ} : (P : A → Type κ) (p : A → Bool) (xs : List A) → All P xs → All P (keep p xs)
  All-keep P p [] h = tt
  All-keep P p (x ∷ xs) h = elim (Bool-cases (p x)) [
    | inl here ↦ rw here (h.0, All-keep P p xs h.1)
    | inr there ↦ rw there (All-keep P p xs h.1)
  ]

  pub All-weaken {κ μ} :
      (P : A → Type κ) (Q : A → Type μ) (xs : List A) → ((x : A) → P x → Q x) → All P xs → All Q xs
  All-weaken P Q [] step h = tt
  All-weaken P Q (x ∷ xs) step h = (step x h.0, All-weaken P Q xs step h.1)

  -- A change whose test is known to hold where it is made.
  pub All-change_where {κ} :
      (P : A → Type κ) (p : A → Bool) (f : A → A) (xs : List A)
      → ((x : A) → p x ≡ true → P x → P (f x))
      → All P xs
      → All P (change p f xs)
  All-change_where P p f [] step h = tt
  All-change_where P p f (x ∷ xs) step h = (
    elim (Bool-cases (p x)) [ inl hit ↦ rw hit (step x hit h.0) | inr miss ↦ rw miss h.0 ],
    All-change_where P p f xs step h.1,
  )
