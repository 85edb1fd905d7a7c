-- ===== src/Sql.antt =====
-- What the program asks of Postgres through drizzle, as an interface. A table is the list of its
-- rows in the order in which they were created, which no statement shows: what a query returns is
-- in an order of the planner's. Each statement is atomic; the database is reachable.
pub mod Reference
pub mod Facts
use mathlib.Core.List.{Memᴰ, Permᴰ}
use llm_hub.Base.Int.{ℤ, pos_part, neg_part}
use llm_hub.Base.{
  ℕ, ◌≤◌, ◌≡◌, String, Bool, true, not, Option, none, some, List, [], ◌∷◌, ◌++◌, map, any, keep,
  change, if◌then◌else◌,
}

-- What a JavaScript Date holds: at most this many milliseconds from 1970 on either side.
abbrev pub date_limit : ℕ
date_limit = 8640000000000000

pub record Sql : Type 1 where
  -- whether a timestamp column takes `new Date(ms)`, which is invalid outside the limit
  pub takes_date : ℤ → Bool
  pub takes_date_lem :
      (ms : ℤ) → takes_date ms ≡ true → (pos_part ms ≤ date_limit) × (neg_part ms ≤ date_limit)
  -- select ... where p
  pub select : {Row : Type 0} → (Row → Bool) → List Row → List Row
  pub select_lem :
      {Row : Type 0} (p : Row → Bool) (rows : List Row) → Permᴰ (select p rows) (keep p rows)
  -- select ... where p limit 1
  pub first : {Row : Type 0} → (Row → Bool) → List Row → Option Row
  pub first-some :
      {Row : Type 0} (p : Row → Bool) (rows : List Row) (r : Row)
      → first p rows ≡ some r
      → (p r ≡ true) × Memᴰ r rows
  pub first-none :
      {Row : Type 0} (p : Row → Bool) (rows : List Row) → first p rows ≡ none → keep p rows ≡ []
  -- ... order by key asc
  pub order_by : {Row : Type 0} → (Row → String) → List Row → List Row
  pub order_by_lem :
      {Row : Type 0} (key : Row → String) (rows : List Row) → Permᴰ (order_by key rows) rows
  -- update ... set f where p, and what its `returning` gives
  pub update : {Row : Type 0} → (Row → Bool) → (Row → Row) → List Row → List Row
  pub update_lem :
      {Row : Type 0} (p : Row → Bool) (f : Row → Row) (rows : List Row)
      → update p f rows ≡ change p f rows
  pub returning : {Row : Type 0} → (Row → Bool) → (Row → Row) → List Row → List Row
  pub returning_lem :
      {Row : Type 0} (p : Row → Bool) (f : Row → Row) (rows : List Row)
      → Permᴰ (returning p f rows) (map f (keep p rows))
  -- delete ... where p
  pub remove : {Row : Type 0} → (Row → Bool) → List Row → List Row
  pub remove_lem :
      {Row : Type 0} (p : Row → Bool) (rows : List Row) → remove p rows ≡ keep (λ r. not (p r)) rows
  -- insert under a unique index: `clash` holds of a row with the new row's key
  pub insert : {Row : Type 0} → (Row → Bool) → Row → List Row → Option (List Row)
  pub insert_lem :
      {Row : Type 0} (clash : Row → Bool) (row : Row) (rows : List Row)
      → insert clash row rows ≡ (if any clash rows then none else some (rows ++ row ∷ []))
  -- insert ... on conflict do update set f
  pub upsert : {Row : Type 0} → (Row → Bool) → (Row → Row) → Row → List Row → List Row
  pub upsert_lem :
      {Row : Type 0} (clash : Row → Bool) (f : Row → Row) (row : Row) (rows : List Row)
      → upsert clash f row rows ≡ (if any clash rows then change clash f rows else rows ++ row ∷ [])
