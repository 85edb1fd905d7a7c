-- ===== src/Sql/Facts.antt =====
-- What the proofs use of rows in an unknown order.
use mathlib.Core.List.{Permᴰ}
use llm_hub.Base.{
  any, any-none, true, false, ◌++◌, Memᴰ, some, Option-cases, inl, inr, suc, ◌≡◌, refl, ap, ◌∙◌,
  Bool, List, [], ◌∷◌, map, length, keep, count, none, arith,
}
use llm_hub.Sql.{Sql}

module _ {A : Type 0} where
  length-permᴰ : {xs ys : List A} → Permᴰ xs ys → length xs ≡ length ys
  length-permᴰ Permᴰ.nil = refl
  length-permᴰ (Permᴰ.cons e p) = ap suc (length-permᴰ p)
  length-permᴰ (Permᴰ.swap e f) = refl
  length-permᴰ (Permᴰ.trans p q) = length-permᴰ p ∙ length-permᴰ q

  perm-nil : {xs ys : List A} → Permᴰ xs ys → ys ≡ [] → xs ≡ []
  perm-nil Permᴰ.nil e = refl
  perm-nil (Permᴰ.cons a p) e = cc
  perm-nil (Permᴰ.swap a b) e = cc
  perm-nil (Permᴰ.trans p q) e = perm-nil p (perm-nil q e)

  -- One row can be returned in one order only.
  perm-singleton : {xs ys : List A} (a : A) → Permᴰ xs ys → ys ≡ a ∷ [] → xs ≡ a ∷ []
  perm-singleton a Permᴰ.nil e = cc
  perm-singleton a (Permᴰ.cons {l₁ = xs} {l₂ = ys} h p) e =
      let rest : ys ≡ [] = ground arith in
      let same : xs ≡ [] = perm-nil p rest in ground (arith, h, same)
  perm-singleton a (Permᴰ.swap x y) e = cc
  perm-singleton a (Permᴰ.trans p q) e = perm-singleton a p (perm-singleton a q e)

  length-map : (f : A → A) (xs : List A) → length (map f xs) ≡ length xs
  length-map f [] = refl
  length-map f (x ∷ xs) = ap suc (length-map f xs)

module _ (sql : Sql) {Row : Type 0} (p : Row → Bool) (f : Row → Row) (rows : List Row) where
  -- `returning` gives one row for each that passes the test.
  pub length-returning : length (sql.returning p f rows) ≡ count p rows
  length-returning = length-permᴰ (sql.returning_lem p f rows) ∙ length-map f (keep p rows)

  pub returning-nil : keep p rows ≡ [] → sql.returning p f rows ≡ []
  returning-nil e = perm-nil (sql.returning_lem p f rows) (ap (map f) e)

  pub returning-singleton : (r : Row) → keep p rows ≡ r ∷ [] → sql.returning p f rows ≡ f r ∷ []
  returning-singleton r e = perm-singleton (f r) (sql.returning_lem p f rows) (ap (map f) e)

module _ (sql : Sql) {Row : Type 0} (clash : Row → Bool) (row : Row) (rows : List Row) where
  -- The unique index decides an insert.
  pub insert-taken : any clash rows ≡ true → sql.insert clash row rows ≡ none
  insert-taken taken = rw (sql.insert_lem, taken)

  pub insert-free : any clash rows ≡ false → sql.insert clash row rows ≡ some (rows ++ row ∷ [])
  insert-free free = rw (sql.insert_lem, free)

-- A query for one row finds one exactly if there is one.
module _ (sql : Sql) {Row : Type 0} (p : Row → Bool) (rows : List Row) where
  no_member : (s : Row) (xs : List Row) → any p xs ≡ false → p s ≡ true → ¬ Memᴰ s xs
  no_member s xs none_there holds (Memᴰ.head {x = x} e) = ground (arith, rw e at holds)
  no_member s xs none_there holds (Memᴰ.tail {xs = ys} m) = no_member s ys (ground arith) holds m

  pub first-found : any p rows ≡ true → (r : Row) × (sql.first p rows ≡ some r)
  first-found there = elim (Option-cases (sql.first p rows)) [
    | inl missing ↦ absurd (ground (arith, any-none p rows (sql.first-none p rows missing)))
    | inr (r, found) ↦ (r, found)
  ]

  pub first-missing : any p rows ≡ false → sql.first p rows ≡ none
  first-missing none_there = elim (Option-cases (sql.first p rows)) [
    | inl missing ↦ missing
    | inr (r, found) ↦
        let (holds, listed) = sql.first-some p rows r found in
        absurd (no_member r rows none_there holds listed)
  ]
