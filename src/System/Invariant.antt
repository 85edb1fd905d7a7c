-- ===== src/System/Invariant.antt =====
-- The invariant of the tables: kept by every step, and what follows for a node's calls.
use llm_hub.Base.{
  ℕ, ◌≡◌, refl, String, false, List, [], ◌∷◌, any, keep, Bool-cases, inl, inr, none, some,
}
use llm_hub.Base.Int.{ℤ, pos, ◌+ℤ◌}
use llm_hub.Enrollment.{EnrollInput, has_key, new_node, insert_node}
use llm_hub.Env.{Env}
use llm_hub.Inventory.{
  known_devices, is_at, is_node, set_reading, reading_of, seen_now, greeted, apply_samples,
  record_inventory, store_samples, set_online,
}
use llm_hub.Inventory.Laws.{record_inventory-eq-ok}
use llm_hub.Inventory.Report.{stays}
use llm_hub.Pairing.{
  Unicode, Hmac, Redeemed, has_hash, has_id, is_claimable, hash_code, generate_code,
  mint_pairing_code,
}
use llm_hub.Proto.{Device, DeviceSample}
use llm_hub.Result.{ok}
use llm_hub.Schema.{NodeRow, DeviceRow, PairingRow, Db}
use llm_hub.Sql.{Sql}
use llm_hub.Storable.{has_nul}
use llm_hub.Storable.{refuses_node}
use llm_hub.Sql.Facts.{insert-taken, insert-free}
use llm_hub.Sweeper.{goes_offline, goes_degraded, set_status}
use llm_hub.Tenancy.{scoped, node_owned, device_owned}
use llm_hub.System.{
  IsEnrolled, Step, mint, claim, release, enroll, greet, report, sample, sweep_offline,
  sweep_degraded, Steps, here, next,
}
use llm_hub.System.WellFormed.{WellFormed}
use llm_hub.System.Tables.{
  nodes-WellFormed, codes-WellFormed, new_code-WellFormed, new_node-WellFormed, DevicesWell,
  devices-WellFormed, DevicesWell-change, DevicesWell-keep, upsert_all-DevicesWell,
}

module _ (unicode : Unicode) (hmac : Hmac) (sql : Sql) (env : Env) where
  mint-WellFormed :
      (random : ℕ → ℕ) (id : String) (now : ℤ) (org_id user_id node_name : String) (db : Db)
      → any (has_id id) db.pairing_codes ≡ false
      → WellFormed db
      → WellFormed
          (mint_pairing_code unicode hmac sql env random id now org_id user_id node_name db).0
  unfolding mint_pairing_code
  mint-WellFormed random id now org_id user_id node_name db fresh w =
      let hash = hash_code unicode hmac env (generate_code random) in
      let row : PairingRow = record {
        id = id;
        org_id = org_id;
        code_hash = hash;
        node_name = node_name;
        created_by = user_id;
        expires_at = now +ℤ pos env.pairing_code_ttl_ms;
        used_at = none;
      } in
      elim (Bool-cases (has_nul node_name)) [
        | inl bad ↦ rw (bad, mint_pairing_code) w
        | inr good ↦ elim (Bool-cases (any (has_hash hash) db.pairing_codes)) [
          | inl taken ↦
              rw
                (
                  good,
                  insert-taken sql (has_hash hash) row db.pairing_codes taken,
                  mint_pairing_code,
                )
                w
          | inr free ↦
              rw
                (good, insert-free sql (has_hash hash) row db.pairing_codes free, mint_pairing_code)
                (new_code-WellFormed row db free fresh w)
        ]
      ]

  enroll-WellFormed :
      (id : String) (input : EnrollInput) (claimed : Redeemed) (db : Db)
      → any (is_node id) db.nodes ≡ false
      → WellFormed db
      → WellFormed (insert_node unicode hmac sql env id input claimed db).0
  unfolding insert_node
  enroll-WellFormed id input claimed db fresh w =
      let key = has_key input.public_key in
      let new = new_node id input claimed in
      elim (Bool-cases (refuses_node new)) [
        | inl bad ↦ rw (bad, insert_node) w
        | inr good ↦ elim (Bool-cases (any key db.nodes)) [
          | inl taken ↦ rw (good, insert-taken sql key new db.nodes taken, insert_node) w
          | inr free ↦
              rw (good, insert-free sql key new db.nodes free, insert_node)
                (new_node-WellFormed new db fresh free refl w)
        ]
      ]

  samples-DevicesWell :
      (org node_id : String) (samples : List DeviceSample) (nodes : List NodeRow)
      (rows : List DeviceRow)
      → DevicesWell nodes rows
      → DevicesWell nodes (apply_samples sql org node_id samples rows)
  unfolding apply_samples
  samples-DevicesWell org node_id [] nodes rows w = w
  samples-DevicesWell org node_id (s ∷ ss) nodes rows w =
      samples-DevicesWell org node_id ss nodes _ (
        rw (sql.update_lem) (
          DevicesWell-change nodes (scoped org (is_at node_id s.local_id))
            (set_reading (reading_of s)) rows (λ d. refl) (λ d. refl) (λ d. refl) w))

  sample-WellFormed :
      (org node_id : String) (now : ℤ) (samples : List DeviceSample) (db : Db)
      → WellFormed db
      → WellFormed (store_samples sql org node_id now samples db)
  unfolding store_samples
  sample-WellFormed org node_id now samples db w = rw (sql.update_lem) (
      nodes-WellFormed (scoped org (is_node node_id)) (seen_now now)
        (record db { devices = apply_samples sql org node_id samples db.devices }) (λ n. refl)
        (λ n. refl) (λ n. refl) (λ n h. refl)
        (devices-WellFormed (apply_samples sql org node_id samples db.devices) db
          (samples-DevicesWell org node_id samples db.nodes db.devices
            (record { places = w.places; owners = w.owners }))
          w))

  report-WellFormed :
      (org node_id : String) (supply : ℕ → String) (reported : List Device) (db db' : Db)
      → IsEnrolled org node_id db
      → record_inventory sql org node_id supply reported db ≡ ok db'
      → WellFormed db
      → WellFormed db'
  report-WellFormed org node_id supply reported db db' enrolled e w =
      let (rows, stored, same) = record_inventory-eq-ok sql org node_id supply reported db db' e in
      let well =
        upsert_all-DevicesWell sql org node_id db.nodes enrolled supply 0 (known_devices reported)
          db.devices rows (record { places = w.places; owners = w.owners }) stored in
      rw same (
        devices-WellFormed (keep (stays org node_id (known_devices reported)) rows) db
          (DevicesWell-keep db.nodes (stays org node_id (known_devices reported)) rows well) w)

  pub Step-WellFormed : {a b : Db} → Step unicode hmac sql env a b → WellFormed a → WellFormed b
  unfolding set_online
  Step-WellFormed {a} (mint random id now org_id user_id node_name fresh) w =
      mint-WellFormed random id now org_id user_id node_name a fresh w
  Step-WellFormed {a} (claim now hash) w =
      rw (sql.update_lem) (codes-WellFormed (is_claimable hash) (some now) a w)
  Step-WellFormed {a} (release id) w = rw (sql.update_lem) (codes-WellFormed (has_id id) none a w)
  Step-WellFormed {a} (enroll id input claimed fresh) w =
      enroll-WellFormed id input claimed a fresh w
  Step-WellFormed {a} (greet org node_id now host) w = rw (sql.update_lem) (
      nodes-WellFormed (scoped org (is_node node_id)) (greeted now host) a (λ n. refl) (λ n. refl)
        (λ n. refl) (λ n h. refl) w)
  Step-WellFormed {a} {b} (report org node_id supply reported enrolled e) w =
      report-WellFormed org node_id supply reported a b enrolled e w
  Step-WellFormed {a} (sample org node_id now samples) w =
      sample-WellFormed org node_id now samples a w
  Step-WellFormed {a} (sweep_offline now) w = rw (sql.update_lem) (
      nodes-WellFormed (goes_offline env now) (set_status "offline") a (λ n. refl) (λ n. refl)
        (λ n. refl) (λ n h. refl) w)
  Step-WellFormed {a} (sweep_degraded now) w = rw (sql.update_lem) (
      nodes-WellFormed (goes_degraded env now) (set_status "degraded") a (λ n. refl) (λ n. refl)
        (λ n. refl) (λ n h. refl) w)

  -- The tables stay well formed, whatever calls and sweeps run and however their statements
  -- interleave, a new id being one that no row has: node ids, public keys, a node's local ids,
  -- code hashes and code ids each stay without a duplicate, every status is online, degraded or
  -- offline, and every device has its node in the table, in the device's organization.
  pub Steps-WellFormed : {a b : Db} → Steps unicode hmac sql env a b → WellFormed a → WellFormed b
  Steps-WellFormed here w = w
  Steps-WellFormed (next run step) w = Step-WellFormed step (Steps-WellFormed run w)
