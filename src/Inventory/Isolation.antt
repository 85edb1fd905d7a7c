-- ===== src/Inventory/Isolation.antt =====
-- domain/nodes.ts: what a node's writes do to other organizations.
use llm_hub.Base.{
  ℕ, suc, ◌≡◌, ◌≢◌, refl, ◌∙◌, String, eq_iff, Bool, false, not, ◌&&◌, List, [], ◌∷◌, ◌++◌, any,
  keep, change, keep-change, arith, Bool-cases, inl, inr,
}
use llm_hub.Base.Int.{ℤ}
use llm_hub.Proto.{Device, DeviceSample}
use llm_hub.Result.{ok}
use llm_hub.Schema.{HostColumns, DeviceFacts, DeviceRow, Db}
use llm_hub.Sql.{Sql}
use llm_hub.Tenancy.{
  SameOrg, Owned, rows_of, scoped, node_owned, device_owned, visible, pairing_owned,
}
use llm_hub.Inventory.{
  KnownDevice, is_at, is_node, is_vanished, known_devices, set_facts, set_reading, reading_of,
  new_device, upsert_device, upsert_all, record_inventory, apply_samples, store_samples, set_online,
  seen_now, greeted,
}
use llm_hub.Inventory.Report.{stays, upsert_all-cons}
use llm_hub.Inventory.Laws.{record_inventory-eq-ok}

module _ (org other : String) (h : other ≢ org) where
  -- A scoped update that keeps the owner touches no row of another organization.
  rows_of-update :
      {Row : Type 0} ⦃o : Owned Row⦄ (p : Row → Bool) (f : Row → Row) (rows : List Row)
      → ((r : Row) → o.owner (f r) ≡ o.owner r)
      → rows_of other (change (scoped org p) f rows) ≡ rows_of other rows
  rows_of-update ⦃o⦄ p f rows same =
      keep-change (visible other) (scoped org p) f rows
        λ r passed. ground (arith, same r, eq_iff (o.owner r) org, eq_iff (o.owner r) other)

  rows_of-remove :
      (p : DeviceRow → Bool) (rows : List DeviceRow)
      → rows_of other (keep (λ r. not (scoped org p r)) rows) ≡ rows_of other rows
  rows_of-remove p [] = refl
  rows_of-remove p (r ∷ rows) =
      ground (arith, rows_of-remove p rows, eq_iff r.org_id org, eq_iff r.org_id other)

  rows_of-conflict :
      (node_id l : String) (facts : DeviceFacts) (rows : List DeviceRow)
      → any (λ r. is_at node_id l r && not (visible org r)) rows ≡ false
      → rows_of other (change (is_at node_id l) (set_facts facts) rows) ≡ rows_of other rows
  rows_of-conflict node_id l facts [] e = refl
  rows_of-conflict node_id l facts (r ∷ rows) e =
      ground
        (arith, rows_of-conflict node_id l facts rows, eq_iff r.org_id org, eq_iff r.org_id other)

  rows_of-insert :
      (id node_id : String) (d : KnownDevice) (rows : List DeviceRow)
      → rows_of other (rows ++ new_device id org node_id d ∷ []) ≡ rows_of other rows
  rows_of-insert id node_id d [] = ground (arith, eq_iff org other)
  rows_of-insert id node_id d (r ∷ rows) = ground (arith, rows_of-insert id node_id d rows)

  module _ (sql : Sql) (node_id : String) where
    rows_of-upsert :
        (id : String) (d : KnownDevice) (rows rows' : List DeviceRow)
        → upsert_device sql org node_id id d rows ≡ ok rows'
        → rows_of other rows' ≡ rows_of other rows
    unfolding upsert_device
    rows_of-upsert id d rows rows' e =
        let clash = is_at node_id d.local_id in
        let put = sql.upsert clash (set_facts d.facts) (new_device id org node_id d) rows in
        let stored : put ≡ rows' = ground arith in
        let seen : any (λ r. is_at node_id d.local_id r && not (visible org r)) rows ≡ false =
          ground arith in
        rw (← stored, sql.upsert_lem)
          (elim (Bool-cases (any clash rows)) [
            | inl old ↦ rw old (rows_of-conflict node_id d.local_id d.facts rows seen)
            | inr new ↦ rw new (rows_of-insert id node_id d rows)
          ])

    rows_of-upsert_all :
        (supply : ℕ → String) (i : ℕ) (ds : List KnownDevice) (rows rows' : List DeviceRow)
        → upsert_all sql org node_id supply i ds rows ≡ ok rows'
        → rows_of other rows' ≡ rows_of other rows
    unfolding upsert_all
    rows_of-upsert_all supply i [] rows rows' e = ground arith
    rows_of-upsert_all supply i (d ∷ ds) rows rows' e =
        let (mid, stored, rest) = upsert_all-cons sql org node_id supply i d ds rows rows' e in
        rows_of-upsert_all supply (suc i) ds mid rows' rest
        ∙ rows_of-upsert (supply i) d rows mid stored

    -- A stored report, whatever is in it and whatever node id it is for, changes no row of another
    -- organization.
    pub record_inventory-SameOrg :
        (supply : ℕ → String) (reported : List Device) (db db' : Db)
        → record_inventory sql org node_id supply reported db ≡ ok db'
        → SameOrg other db' db
    unfolding stays
    record_inventory-SameOrg supply reported db db' e =
        let known = known_devices reported in
        let (rows, stored, same) =
          record_inventory-eq-ok sql org node_id supply reported db db' e in
        rw same (record {
          same_nodes = refl;
          same_devices =
              rows_of-remove (is_vanished node_id known) rows
              ∙ rows_of-upsert_all supply 0 known db.devices rows stored;
          same_pairing_codes = refl;
        })

    rows_of-samples :
        (samples : List DeviceSample) (rows : List DeviceRow)
        → rows_of other (apply_samples sql org node_id samples rows) ≡ rows_of other rows
    unfolding apply_samples
    rows_of-samples [] rows = refl
    rows_of-samples (s ∷ ss) rows =
        rows_of-samples ss _
        ∙ rw (sql.update_lem) (
            rows_of-update (is_at node_id s.local_id) (set_reading (reading_of s)) rows (λ r. refl))

    -- A batch of samples, whatever is in it and whatever node id it is for, changes no row of
    -- another organization.
    pub store_samples-SameOrg :
        (now : ℤ) (samples : List DeviceSample) (db : Db)
        → SameOrg other (store_samples sql org node_id now samples db) db
    unfolding store_samples
    store_samples-SameOrg now samples db = record {
      same_nodes =
          rw (sql.update_lem)
            (rows_of-update (is_node node_id) (seen_now now) db.nodes (λ r. refl));
      same_devices = rows_of-samples samples db.devices;
      same_pairing_codes = refl;
    }

    -- A greeting changes no row of another organization.
    pub set_online-SameOrg :
        (now : ℤ) (host : HostColumns) (db : Db)
        → SameOrg other (set_online sql org node_id now host db) db
    unfolding set_online
    set_online-SameOrg now host db = record {
      same_nodes =
          rw (sql.update_lem)
            (rows_of-update (is_node node_id) (greeted now host) db.nodes (λ r. refl));
      same_devices = refl;
      same_pairing_codes = refl;
    }
