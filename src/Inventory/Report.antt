-- ===== src/Inventory/Report.antt =====
-- `recordInventory` of domain/nodes.ts: the devices of a node after a report.
use llm_hub.Base.{
  ℕ, suc, ◌≡◌, ◌≢◌, refl, String, ◌==◌, eq_iff, eq_refl, Bool, true, false, not, ◌&&◌, ◌||◌, List,
  [], ◌∷◌, any, keep, change, Option, none, some, arith, if◌then◌else◌, All, All-append, Bool-cases,
  inl, inr,
}
use llm_hub.Result.{ok, Result-cases}
use llm_hub.Schema.{DeviceFacts, DeviceReading, DeviceRow}
use llm_hub.Sql.{Sql}
use llm_hub.Tenancy.{scoped, device_owned}
use llm_hub.Inventory.{
  KnownDevice, is_at, set_facts, new_device, no_reading, upsert_device, upsert_all, is_vanished,
}
use llm_hub.Inventory.Upsert.{find_at, find_at-upsert, is_at-eq}

-- The facts of the last report of a device, if it is reported at all.
unfoldable pub last_report : String → List KnownDevice → Option DeviceFacts
last_report l [] = none
last_report l (d ∷ ds) = elim (last_report l ds) [
  | none ↦ if l == d.local_id then some d.facts else none
  | some facts ↦ some facts
]

abbrev pub facts_at : String → String → List DeviceRow → Option DeviceFacts
facts_at n l rows = elim (find_at n l rows) [ none ↦ none | some r ↦ some r.facts ]

abbrev pub reading_at : String → String → List DeviceRow → Option DeviceReading
reading_at n l rows = elim (find_at n l rows) [ none ↦ none | some r ↦ some r.reading ]

abbrev or_else {ℓ} : {A : Type ℓ} → Option A → Option A → Option A
or_else none o = o
or_else (some a) o = some a

-- A device that is new with the report has the reading of a device never sampled.
abbrev pub reading_after : Option DeviceFacts → Option DeviceReading → Option DeviceReading
reading_after none old = old
reading_after (some facts) none = some no_reading
reading_after (some facts) (some reading) = some reading

-- A device row of the node carries the node's organization.
abbrev pub is_own : String → String → DeviceRow → Bool
is_own org node_id r = not (r.node_id == node_id) || r.org_id == org

abbrev pub AllOwn : String → String → List DeviceRow → Type 0
AllOwn org node_id rows = All (λ r. is_own org node_id r ≡ true) rows

module _ (sql : Sql) (org node_id : String) (supply : ℕ → String) where
  pub upsert_all-cons :
      (i : ℕ) (d : KnownDevice) (ds : List KnownDevice) (rows rows' : List DeviceRow)
      → upsert_all sql org node_id supply i (d ∷ ds) rows ≡ ok rows'
      → (mid : List DeviceRow) × (upsert_device sql org node_id (supply i) d rows ≡ ok mid)
        × (upsert_all sql org node_id supply (suc i) ds mid ≡ ok rows')
  unfolding upsert_all
  upsert_all-cons i d ds rows rows' e =
      elim (Result-cases (upsert_device sql org node_id (supply i) d rows)) [
        | inl (c, failed) ↦ absurd (ground (arith, failed))
        | inr (mid, stored) ↦ (mid, stored, ground (arith, stored))
      ]

  pub facts_at-upsert_all :
      (i : ℕ) (ds : List KnownDevice) (rows rows' : List DeviceRow) (l : String)
      → upsert_all sql org node_id supply i ds rows ≡ ok rows'
      → facts_at node_id l rows' ≡ or_else (last_report l ds) (facts_at node_id l rows)
  unfolding last_report upsert_all
  facts_at-upsert_all i [] rows rows' l e = ground arith
  facts_at-upsert_all i (d ∷ ds) rows rows' l e =
      let (mid, stored, rest) = upsert_all-cons i d ds rows rows' e in
      ground (
        arith,
        facts_at-upsert_all (suc i) ds mid rows' l rest,
        find_at-upsert sql org node_id (supply i) d rows mid node_id l stored,
        eq_refl node_id,
      )

  pub reading_at-upsert_all :
      (i : ℕ) (ds : List KnownDevice) (rows rows' : List DeviceRow) (l : String)
      → upsert_all sql org node_id supply i ds rows ≡ ok rows'
      → reading_at node_id l rows' ≡ reading_after (last_report l ds) (reading_at node_id l rows)
  unfolding last_report upsert_all
  reading_at-upsert_all i [] rows rows' l e = ground arith
  reading_at-upsert_all i (d ∷ ds) rows rows' l e =
      let (mid, stored, rest) = upsert_all-cons i d ds rows rows' e in
      ground (
        arith,
        reading_at-upsert_all (suc i) ds mid rows' l rest,
        find_at-upsert sql org node_id (supply i) d rows mid node_id l stored,
        eq_refl node_id,
      )

  -- The rows of other nodes are found as before.
  pub find_at-upsert_all :
      (i : ℕ) (ds : List KnownDevice) (rows rows' : List DeviceRow) (n l : String)
      → n ≢ node_id
      → upsert_all sql org node_id supply i ds rows ≡ ok rows'
      → find_at n l rows' ≡ find_at n l rows
  unfolding upsert_all
  find_at-upsert_all i [] rows rows' n l h e = ground arith
  find_at-upsert_all i (d ∷ ds) rows rows' n l h e =
      let (mid, stored, rest) = upsert_all-cons i d ds rows rows' e in
      ground (
        arith,
        find_at-upsert_all (suc i) ds mid rows' n l h rest,
        find_at-upsert sql org node_id (supply i) d rows mid n l stored,
        eq_iff n node_id,
      )

-- Deletion reads the report by local ids; a device is reported exactly when it has facts in it.
pub any-last_report :
    (l : String) (ds : List KnownDevice)
    → any (λ (d : KnownDevice). l == d.local_id) ds
      ≡ (elim (last_report l ds) [ none ↦ false | some facts ↦ true ])
unfolding last_report
any-last_report l [] = refl
any-last_report l (d ∷ ds) = ground (arith, any-last_report l ds)

module _ (org node_id : String) (known : List KnownDevice) where
  unfoldable pub stays : DeviceRow → Bool
  stays r = not (scoped org (is_vanished node_id known) r)

  -- The deletion removes the node's unreported devices and nothing else.
  pub find_at-remove :
      (n l : String) (rows : List DeviceRow)
      → AllOwn org node_id rows
      → find_at n l (keep stays rows) ≡ (
          if n == node_id && not (any (λ (d : KnownDevice). l == d.local_id) known)
          then none
          else find_at n l rows)
  unfolding stays
  find_at-remove n l [] own = ground arith
  find_at-remove n l (r ∷ rows) own = elim (Bool-cases (is_at n l r)) [
    | inl here ↦
        let (a, b) = is_at-eq n l r here in
        let ih = rw (← a, ← b) at (find_at-remove n l rows own.1) in
        rw (← a, ← b) (ground (arith, ih, own.0, eq_refl r.node_id, eq_refl r.local_id))
    | inr there ↦ ground (arith, find_at-remove n l rows own.1)
  ]

-- Every row of a changed or extended table of a node's devices is the node's organization's still.
AllOwn-change :
    (org node_id : String) (p : DeviceRow → Bool) (facts : DeviceFacts) (rows : List DeviceRow)
    → AllOwn org node_id rows
    → AllOwn org node_id (change p (set_facts facts) rows)
AllOwn-change org node_id p facts [] own = tt
AllOwn-change org node_id p facts (r ∷ rows) own =
    (ground (arith, own.0), AllOwn-change org node_id p facts rows own.1)

module _ (sql : Sql) (org node_id : String) (supply : ℕ → String) where
  pub upsert-AllOwn :
      (id : String) (d : KnownDevice) (rows rows' : List DeviceRow)
      → AllOwn org node_id rows
      → upsert_device sql org node_id id d rows ≡ ok rows'
      → AllOwn org node_id rows'
  unfolding upsert_device
  upsert-AllOwn id d rows rows' own e =
      let new = new_device id org node_id d in
      let clash = is_at node_id d.local_id in
      let put = sql.upsert clash (set_facts d.facts) new rows in
      let stored : put ≡ rows' = ground arith in
      rw (← stored, sql.upsert_lem)
        (elim (Bool-cases (any clash rows)) [
          | inl old ↦ rw old (AllOwn-change org node_id clash d.facts rows own)
          | inr fresh ↦ rw fresh (
              All-append (λ r. is_own org node_id r ≡ true) rows (new ∷ []) own
                (ground (arith, eq_refl org), tt))
        ])

  pub upsert_all-AllOwn :
      (i : ℕ) (ds : List KnownDevice) (rows rows' : List DeviceRow)
      → AllOwn org node_id rows
      → upsert_all sql org node_id supply i ds rows ≡ ok rows'
      → AllOwn org node_id rows'
  unfolding upsert_all
  upsert_all-AllOwn i [] rows rows' own e =
      let same : rows ≡ rows' = ground arith in rw (← same) own
  upsert_all-AllOwn i (d ∷ ds) rows rows' own e =
      let (mid, stored, rest) = upsert_all-cons sql org node_id supply i d ds rows rows' e in
      upsert_all-AllOwn (suc i) ds mid rows' (upsert-AllOwn (supply i) d rows mid own stored) rest
