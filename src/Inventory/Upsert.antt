-- ===== src/Inventory/Upsert.antt =====
-- `recordInventory` of domain/nodes.ts, with the device table as a map from a node and a local id: what an upsert and a report do to it.
use mathlib.Core.Option
use llm_hub.Base.{
  ◌≡◌, refl, String, ◌==◌, eq_iff, true, false, ◌&&◌, List, [], ◌∷◌, ◌++◌, any, change, Option,
  none, some, arith, if◌then◌else◌, Bool-cases, inl, inr,
}
use llm_hub.Result.{ok}
use llm_hub.Schema.{DeviceFacts, DeviceRow}
use llm_hub.Sql.{Sql}
use llm_hub.Tenancy.{device_owned}
use llm_hub.Inventory.{KnownDevice, is_at, set_facts, new_device, upsert_device}

-- The first row at a node and a local id; the unique index allows no second.
abbrev pub find_at : String → String → List DeviceRow → Option DeviceRow
find_at n l [] = none
find_at n l (r ∷ rows) = if is_at n l r then some r else find_at n l rows

pub is_at-eq :
    (n l : String) (r : DeviceRow) → is_at n l r ≡ true → (r.node_id ≡ n) × (r.local_id ≡ l)
is_at-eq n l r h = ground (arith, eq_iff r.node_id n, eq_iff r.local_id l)

-- One row is at one place only.
pub is_at_unique :
    (n l m k : String) (r : DeviceRow) → is_at n l r ≡ true → is_at m k r ≡ (n == m && l == k)
is_at_unique n l m k r h = let (a, b) = is_at-eq n l r h in rw (a, b)

module _ (m k : String) (facts : DeviceFacts) where
  find_at-change :
      (n l : String) (rows : List DeviceRow)
      → find_at n l (change (is_at m k) (set_facts facts) rows) ≡ (
          if n == m && l == k
          then Option.map (set_facts facts) (find_at n l rows)
          else find_at n l rows)
  find_at-change n l [] = ground arith
  find_at-change n l (r ∷ rows) = ground (arith, find_at-change n l rows, is_at_unique n l m k r)

any-find_at :
    (n l : String) (rows : List DeviceRow) → any (is_at n l) rows ≡ false → find_at n l rows ≡ none
any-find_at n l [] h = refl
any-find_at n l (r ∷ rows) h = ground (arith, any-find_at n l rows)

find_at-any :
    (n l : String) (rows : List DeviceRow)
    → any (is_at n l) rows ≡ true
    → (r : DeviceRow) × (find_at n l rows ≡ some r)
find_at-any n l [] h = cc
find_at-any n l (r ∷ rows) h = elim (Bool-cases (is_at n l r)) [
  | inl here ↦ (r, rw here)
  | inr there ↦ let (s, found) = find_at-any n l rows (ground arith) in (s, rw (there, found))
]

find_at-append :
    (n l : String) (new : DeviceRow) (rows : List DeviceRow)
    → find_at n l (rows ++ new ∷ []) ≡ elim (find_at n l rows) [
      | none ↦ if is_at n l new then some new else none
      | some r ↦ some r
    ]
find_at-append n l new [] = ground arith
find_at-append n l new (r ∷ rows) = ground (arith, find_at-append n l new rows)

-- What an upsert makes of the row that was there, or was not.
abbrev pub upserted : String → String → String → KnownDevice → Option DeviceRow → DeviceRow
upserted id org node_id d none = new_device id org node_id d
upserted id org node_id d (some r) = set_facts d.facts r

same_place :
    (n l m k : String) (rows : List DeviceRow)
    → (n == m && l == k) ≡ true
    → find_at n l rows ≡ find_at m k rows
same_place n l m k rows h =
    let a : n ≡ m = (eq_iff n m).0 (ground arith) in
    let b : l ≡ k = (eq_iff l k).0 (ground arith) in rw (a, b)

is_at_new :
    (n l id org m : String) (d : KnownDevice)
    → is_at n l (new_device id org m d) ≡ (n == m && l == d.local_id)
is_at_new n l id org m d =
    ground (arith, eq_iff m n, eq_iff n m, eq_iff d.local_id l, eq_iff l d.local_id)

-- The table after an update or an insert, whichever the conflict decides.
find_at-put :
    (id org m : String) (d : KnownDevice) (rows : List DeviceRow) (n l : String)
    → find_at n l (
        if any (is_at m d.local_id) rows
        then change (is_at m d.local_id) (set_facts d.facts) rows
        else rows ++ new_device id org m d ∷ [])
      ≡ (if n == m && l == d.local_id
          then some (upserted id org m d (find_at n l rows))
          else find_at n l rows)
find_at-put id org m d rows n l = elim (Bool-cases (any (is_at m d.local_id) rows)) [
  | inl old ↦
      let (r, found) = find_at-any m d.local_id rows old in
      rw (old, find_at-change m d.local_id d.facts n l rows)
        (ground (arith, found, same_place n l m d.local_id rows))
  | inr new ↦
      let missing = any-find_at m d.local_id rows new in
      rw (new, find_at-append n l (new_device id org m d) rows)
        (ground (arith, is_at_new n l id org m d, missing, same_place n l m d.local_id rows))
]

module _ (sql : Sql) (org node_id : String) where
  pub find_at-upsert :
      (id : String) (d : KnownDevice) (rows rows' : List DeviceRow) (n l : String)
      → upsert_device sql org node_id id d rows ≡ ok rows'
      → find_at n l rows' ≡ (
          if n == node_id && l == d.local_id
          then some (upserted id org node_id d (find_at n l rows))
          else find_at n l rows)
  unfolding upsert_device
  find_at-upsert id d rows rows' n l e =
      let clash = is_at node_id d.local_id in
      let put = sql.upsert clash (set_facts d.facts) (new_device id org node_id d) rows in
      let stored : put ≡ rows' = ground arith in
      rw (← stored, sql.upsert_lem) (find_at-put id org node_id d rows n l)
