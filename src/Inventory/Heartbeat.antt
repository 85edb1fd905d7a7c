-- ===== src/Inventory/Heartbeat.antt =====
-- `recordInventory` and `recordSamples` of domain/nodes.ts for an enrolled node, with the sweeper.
use llm_hub.Base.{
  Bool-cases, inl, inr, ℕ, suc, ◌≡◌, refl, String, eq_iff, true, false, not, ◌&&◌, List, [], ◌∷◌,
  any, change, arith, Memᴰ,
}
use llm_hub.Base.Int.{ℤ, pos, ◌+ℤ◌, ◌≤ℤ◌}
use llm_hub.Env.{Env}
use llm_hub.Proto.{Device, DeviceSample}
use llm_hub.Result.{ok, err}
use llm_hub.Storable.{refuses_host}
use llm_hub.Schema.{HostColumns, DeviceRow, NodeRow, Db}
use llm_hub.Sql.{Sql}
use llm_hub.Sweeper.{sweep_offline_nodes, degraded_after_ms}
use llm_hub.Sweeper.Laws.{sweep_status}
use llm_hub.Tenancy.{bad_value, scoped, visible, node_owned, device_owned}
use llm_hub.Inventory.{
  set_online, mark_node_online, KnownDevice, refuses_known, is_at, is_node, is_vanished, set_facts,
  new_device, known_devices, seen_now, upsert_device, upsert_all, record_inventory, store_samples,
}
use llm_hub.Inventory.Report.{AllOwn, upsert-AllOwn}

no_hidden_conflict :
    (org node_id l : String) (rows : List DeviceRow)
    → AllOwn org node_id rows
    → any (λ r. is_at node_id l r && not (visible org r)) rows ≡ false
no_hidden_conflict org node_id l [] own = refl
no_hidden_conflict org node_id l (r ∷ rows) own =
    ground (arith, no_hidden_conflict org node_id l rows own.1, own.0)

module _ (sql : Sql) (org node_id : String) (now : ℤ) (host : HostColumns) (db : Db) where
  pub mark_node_online-ok :
      refuses_host host ≡ false
      → mark_node_online sql org node_id now host db ≡ ok (set_online sql org node_id now host db)
  unfolding mark_node_online
  mark_node_online-ok taken = rw taken

  pub mark_node_online-err :
      refuses_host host ≡ true → mark_node_online sql org node_id now host db ≡ err bad_value
  unfolding mark_node_online
  mark_node_online-err bad = rw bad

  pub mark_node_online-eq-ok :
      (db' : Db)
      → mark_node_online sql org node_id now host db ≡ ok db'
      → set_online sql org node_id now host db ≡ db'
  mark_node_online-eq-ok db' e = elim (Bool-cases (refuses_host host)) [
    | inl bad ↦ absurd (cc (mark_node_online-err bad, e))
    | inr taken ↦ cc (mark_node_online-ok taken, e)
  ]

module _ (sql : Sql) (org node_id : String) (supply : ℕ → String) where
  upsert_total :
      (id : String) (d : KnownDevice) (rows : List DeviceRow)
      → AllOwn org node_id rows
      → (rows' : List DeviceRow) × (upsert_device sql org node_id id d rows ≡ ok rows')
  unfolding upsert_device
  upsert_total id d rows own = (
    sql.upsert (is_at node_id d.local_id) (set_facts d.facts) (new_device id org node_id d) rows,
    rw (no_hidden_conflict org node_id d.local_id rows own),
  )

  upsert_all_total :
      (i : ℕ) (ds : List KnownDevice) (rows : List DeviceRow)
      → AllOwn org node_id rows
      → (rows' : List DeviceRow) × (upsert_all sql org node_id supply i ds rows ≡ ok rows')
  unfolding upsert_all
  upsert_all_total i [] rows own = (rows, refl)
  upsert_all_total i (d ∷ ds) rows own =
      let (mid, stored) = upsert_total (supply i) d rows own in
      let own' = upsert-AllOwn sql org node_id supply (supply i) d rows mid own stored in
      let (rows', rest) = upsert_all_total (suc i) ds mid own' in (rows', rw stored rest)

  -- Every report of an enrolled node whose values the columns take, duplicates included, is stored.
  -- Hypothesis: the node's devices belong to its organization.
  pub record_inventory_total :
      (reported : List Device) (db : Db)
      → any (is_node node_id) db.nodes ≡ true
      → AllOwn org node_id db.devices
      → any refuses_known (known_devices reported) ≡ false
      → (db' : Db) × (record_inventory sql org node_id supply reported db ≡ ok db')
  unfolding record_inventory
  record_inventory_total reported db enrolled own taken =
      let (rows, stored) = upsert_all_total 0 (known_devices reported) db.devices own in
      let gone = scoped org (is_vanished node_id (known_devices reported)) in
      (record db { devices = sql.remove gone rows }, rw (taken, enrolled, stored))

  pub record_inventory-err :
      (reported : List Device) (db : Db)
      → any refuses_known (known_devices reported) ≡ true
      → record_inventory sql org node_id supply reported db ≡ err bad_value
  unfolding record_inventory
  record_inventory-err reported db bad = rw bad

  mem-change :
      (now : ℤ) (n : NodeRow) (rows : List NodeRow)
      → Memᴰ n rows
      → n.id ≡ node_id
      → n.org_id ≡ org
      → Memᴰ (seen_now now n) (change (scoped org (is_node node_id)) (seen_now now) rows)
  mem-change now n rows (Memᴰ.head {x = r} e) same_id same_org = Memᴰ.head (
      ground (
        arith,
        e,
        eq_iff n.id node_id,
        eq_iff n.org_id org,
        eq_iff r.id node_id,
        eq_iff r.org_id org,
      ))
  mem-change now n rows (Memᴰ.tail m) same_id same_org =
      Memᴰ.tail (mem-change now n _ m same_id same_org)

  sampled-mem :
      (now : ℤ) (samples : List DeviceSample) (db : Db) (n : NodeRow)
      → Memᴰ n db.nodes
      → n.id ≡ node_id
      → n.org_id ≡ org
      → Memᴰ (seen_now now n) (store_samples sql org node_id now samples db).nodes
  unfolding store_samples
  sampled-mem now samples db n listed same_id same_org =
      rw (sql.update_lem) (mem-change now n db.nodes listed same_id same_org)

  -- A node whose samples, even an empty batch, arrived at a time is online, seen at that time, and
  -- still so after a sweep that runs at most three intervals later.
  pub heartbeat_keeps_online :
      (env : Env) (now later : ℤ) (samples : List DeviceSample) (db : Db) (n : NodeRow)
      → Memᴰ n db.nodes
      → n.id ≡ node_id
      → n.org_id ≡ org
      → later ≤ℤ now +ℤ pos (degraded_after_ms env)
      → Memᴰ
          (seen_now now n)
          (sweep_offline_nodes sql env later (store_samples sql org node_id now samples db)).0.nodes
  unfolding store_samples
  heartbeat_keeps_online env now later samples db n listed same_id same_org soon =
      let db' = store_samples sql org node_id now samples db in
      let (m, kept, same, fresh, gone, late) =
        sweep_status sql env later db' (seen_now now n) now
          (sampled-mem now samples db n listed same_id same_org) refl in
      rw (← fresh soon) kept
