-- ===== src/Sql/Reference.antt =====
-- The interface met by plain lists: every query answers in the order of creation.
use mathlib.Core.List.{Memᴰ, Permᴰ}
use llm_hub.Base.{
  leb, ◌&&◌, ◌≤◌, inl, inr, ◌≡◌, refl, Bool, true, not, none, some, List, [], ◌∷◌, ◌++◌, map, any,
  keep, change, head, if◌then◌else◌, arith, Bool-cases,
}
use llm_hub.Base.Int.{ℤ, pos_part, neg_part}
use llm_hub.Sql.{Sql, date_limit}

module _ {A : Type 0} (p : A → Bool) where
  pub head-keep-some :
      (rows : List A) (r : A) → head (keep p rows) ≡ some r → (p r ≡ true) × Memᴰ r rows
  head-keep-some [] r e = cc
  head-keep-some (x ∷ rows) r e = elim (Bool-cases (p x)) [
    | inl here ↦ let same : x ≡ r = ground arith in (ground (arith, same), Memᴰ.head (ground arith))
    | inr there ↦
        let (holds, listed) = head-keep-some rows r (ground arith) in (holds, Memᴰ.tail listed)
  ]

  pub head-keep-none : (rows : List A) → head (keep p rows) ≡ none → keep p rows ≡ []
  head-keep-none rows e = ground arith

pub in_order : {A : Type 0} (xs : List A) → Permᴰ xs xs
in_order [] = Permᴰ.nil
in_order (x ∷ xs) = Permᴰ.cons refl (in_order xs)

abbrev pub dates : ℤ → Bool
dates ms = leb (pos_part ms) date_limit && leb (neg_part ms) date_limit

pub in_limit : (ms : ℤ) → dates ms ≡ true → (pos_part ms ≤ date_limit) × (neg_part ms ≤ date_limit)
in_limit ms h = (ground arith, ground arith)

abbrev pub lists : Sql
lists = record {
  takes_date = dates;
  takes_date_lem = in_limit;
  select = keep;
  select_lem = λ p rows. in_order _;
  first = λ p rows. head (keep p rows);
  first-some = head-keep-some;
  first-none = head-keep-none;
  order_by = λ key rows. rows;
  order_by_lem = λ key rows. in_order _;
  update = change;
  update_lem = λ p f rows. refl;
  returning = λ p f rows. map f (keep p rows);
  returning_lem = λ p f rows. in_order _;
  remove = λ p rows. keep (λ r. not (p r)) rows;
  remove_lem = λ p rows. refl;
  insert = λ clash row rows. if any clash rows then none else some (rows ++ row ∷ []);
  insert_lem = λ clash row rows. refl;
  upsert = λ clash f row rows. if any clash rows then change clash f rows else rows ++ row ∷ [];
  upsert_lem = λ clash f row rows. refl;
}
