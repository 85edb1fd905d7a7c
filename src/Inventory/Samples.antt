-- ===== src/Inventory/Samples.antt =====
-- `recordSamples` of domain/nodes.ts: what a batch of samples leaves in the database.
use mathlib.Core.Option
use llm_hub.Base.{
  any, ◌≡◌, ◌≢◌, refl, String, ◌==◌, eq_iff, eq_refl, Bool, true, false, ◌&&◌, List, [], ◌∷◌,
  change, Option, none, some, arith, if◌then◌else◌, Bool-cases, inl, inr,
}
use llm_hub.Base.Int.{ℤ}
use llm_hub.Proto.{DeviceSample}
use llm_hub.Result.{ok, err}
use llm_hub.Schema.{DeviceReading, DeviceRow, Db}
use llm_hub.Sql.{Sql}
use llm_hub.Storable.{refuses_sample}
use llm_hub.Tenancy.{bad_value, scoped, device_owned}
use llm_hub.Inventory.{is_at, set_reading, reading_of, apply_samples, store_samples, record_samples}
use llm_hub.Inventory.Upsert.{find_at, is_at_unique}
use llm_hub.Inventory.Report.{facts_at, reading_at, AllOwn, is_own}

-- The reading of the last sample of a device, if it is sampled at all.
unfoldable pub last_sample : String → List DeviceSample → Option DeviceReading
last_sample l [] = none
last_sample l (s ∷ ss) = elim (last_sample l ss) [
  | none ↦ if l == s.local_id then some (reading_of s) else none
  | some reading ↦ some reading
]

-- A sample of a device that is not there is lost; any other device has its last sample.
abbrev pub resampled : Option DeviceReading → Option DeviceReading → Option DeviceReading
resampled new none = none
resampled none (some old) = some old
resampled (some new) (some old) = some new

module _ (org node_id : String) (k : String) (reading : DeviceReading) where
  -- The row after the update, if it is at the place that is asked for.
  touched_here :
      (n l : String) (r : DeviceRow)
      → is_at n l r ≡ true
      → is_own org node_id r ≡ true
      → scoped org (is_at node_id k) r ≡ (n == node_id && l == k)
  touched_here n l r here own = ground (arith, is_at_unique n l node_id k r)

  touched_at :
      (n l : String) (r : DeviceRow)
      → is_at n l r ≡ true
      → (b : Bool) → is_at n l (if b then set_reading reading r else r) ≡ true
  touched_at n l r here true = here
  touched_at n l r here false = here

  touched_at_none :
      (n l : String) (r : DeviceRow)
      → is_at n l r ≡ false
      → is_at n l (if scoped org (is_at node_id k) r then set_reading reading r else r) ≡ false
  touched_at_none n l r there = elim (Bool-cases (scoped org (is_at node_id k) r)) [
    | inl hit ↦ rw hit there
    | inr miss ↦ rw miss there
  ]

  find_at-sample :
      (n l : String) (rows : List DeviceRow)
      → AllOwn org node_id rows
      → find_at n l (change (scoped org (is_at node_id k)) (set_reading reading) rows) ≡ (
          if n == node_id && l == k
          then Option.map (set_reading reading) (find_at n l rows)
          else find_at n l rows)
  find_at-sample n l [] own = ground arith
  find_at-sample n l (r ∷ rows) own = elim (Bool-cases (is_at n l r)) [
    | inl here ↦ rw (touched_here n l r here own.0, here) (ground (arith, touched_at n l r here))
    | inr there ↦ rw (touched_at_none n l r there, there) (find_at-sample n l rows own.1)
  ]

  AllOwn-sample :
      (p : DeviceRow → Bool) (rows : List DeviceRow)
      → AllOwn org node_id rows
      → AllOwn org node_id (change p (set_reading reading) rows)
  AllOwn-sample p [] own = tt
  AllOwn-sample p (r ∷ rows) own = (ground (arith, own.0), AllOwn-sample p rows own.1)

module _ (sql : Sql) (org node_id : String) where
  apply_samples_lem :
      (samples : List DeviceSample) (rows : List DeviceRow) (n l : String)
      → AllOwn org node_id rows
      → (facts_at n l (apply_samples sql org node_id samples rows) ≡ facts_at n l rows)
        × (reading_at node_id l (apply_samples sql org node_id samples rows)
            ≡ resampled (last_sample l samples) (reading_at node_id l rows))
        × (n ≢ node_id
            → find_at n l (apply_samples sql org node_id samples rows) ≡ find_at n l rows)
  unfolding apply_samples last_sample
  apply_samples_lem [] rows n l own = (refl, ground arith, λ h. refl)
  apply_samples_lem (s ∷ ss) rows n l own =
      let p = scoped org (is_at node_id s.local_id) in
      let reading = reading_of s in
      let (facts, readings, others) =
        apply_samples_lem ss (change p (set_reading reading) rows) n l
          (AllOwn-sample org node_id s.local_id reading p rows own) in
      rw (sql.update_lem) (
        ground (arith, facts, find_at-sample org node_id s.local_id reading n l rows own),
        ground (
          arith,
          readings,
          find_at-sample org node_id s.local_id reading node_id l rows own,
          eq_refl node_id,
        ),
        λ h. ground (
          arith,
          others h,
          find_at-sample org node_id s.local_id reading n l rows own,
          eq_iff n node_id,
        ),
      )

  pub store_samples_lem :
      (now : ℤ) (samples : List DeviceSample) (db : Db) (n l : String)
      → AllOwn org node_id db.devices
      → let db' = store_samples sql org node_id now samples db in
        (facts_at n l db'.devices ≡ facts_at n l db.devices)
        × (reading_at node_id l db'.devices
            ≡ resampled (last_sample l samples) (reading_at node_id l db.devices))
        × (n ≢ node_id → find_at n l db'.devices ≡ find_at n l db.devices)
  unfolding store_samples
  store_samples_lem now samples db n l own = apply_samples_lem samples db.devices n l own

  pub record_samples-ok :
      (now : ℤ) (samples : List DeviceSample) (db : Db)
      → any (refuses_sample sql) samples ≡ false
      → record_samples sql org node_id now samples db
        ≡ ok (store_samples sql org node_id now samples db)
  unfolding record_samples
  record_samples-ok now samples db taken = rw taken

  pub record_samples-err :
      (now : ℤ) (samples : List DeviceSample) (db : Db)
      → any (refuses_sample sql) samples ≡ true
      → record_samples sql org node_id now samples db ≡ err bad_value
  unfolding record_samples
  record_samples-err now samples db bad = rw bad

  -- A batch that is stored came without a value that the columns refuse.
  pub record_samples-eq-ok :
      (now : ℤ) (samples : List DeviceSample) (db db' : Db)
      → record_samples sql org node_id now samples db ≡ ok db'
      → store_samples sql org node_id now samples db ≡ db'
  record_samples-eq-ok now samples db db' e = elim (Bool-cases (any (refuses_sample sql) samples)) [
    | inl bad ↦ absurd (cc (record_samples-err now samples db bad, e))
    | inr taken ↦ cc (record_samples-ok now samples db taken, e)
  ]

  -- A batch of samples with a value that its column does not take (a byte count of 2 ^ 63 or more,
  -- a NUL in a local id, a time that no date holds) fails as a whole; any other batch is stored,
  -- and gives each device of the node that is in the table the reading of its last sample in the
  -- batch, or leaves its reading; no facts change, no device comes or goes, and other nodes'
  -- devices are as they were. Hypothesis: the node's devices belong to its organization.
  pub record_samples_lem :
      (now : ℤ) (samples : List DeviceSample) (db : Db) (n l : String)
      → AllOwn org node_id db.devices
      → (any (refuses_sample sql) samples ≡ true
          → record_samples sql org node_id now samples db ≡ err bad_value)
        × (any (refuses_sample sql) samples ≡ false
            → (db' : Db) × (record_samples sql org node_id now samples db ≡ ok db')
              × (facts_at n l db'.devices ≡ facts_at n l db.devices)
              × (reading_at node_id l db'.devices
                  ≡ resampled (last_sample l samples) (reading_at node_id l db.devices))
              × (n ≢ node_id → find_at n l db'.devices ≡ find_at n l db.devices))
  record_samples_lem now samples db n l own =
      let (facts, readings, rest) = store_samples_lem now samples db n l own in
      (
        record_samples-err now samples db,
        λ taken. (
          store_samples sql org node_id now samples db,
          record_samples-ok now samples db taken,
          facts,
          readings,
          rest,
        ),
      )
