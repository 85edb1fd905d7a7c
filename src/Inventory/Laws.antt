-- ===== src/Inventory/Laws.antt =====
-- `recordInventory` of domain/nodes.ts: what a report leaves in the database.
use llm_hub.Base.{
  ℕ, ◌≡◌, ◌≢◌, refl, sym, ap, ◌∙◌, String, eq_iff, eq_refl, true, false, not, ◌&&◌, List, [], ◌∷◌,
  any, keep, none, some, arith, Bool-cases, Option-cases, inl, inr,
}
use llm_hub.Memory.{Floats}
use llm_hub.Proto.{Device, DeviceView}
use llm_hub.Result.{ok, Result-cases}
use llm_hub.Schema.{DeviceFacts, DeviceRow, Db}
use llm_hub.Sql.{Sql}
use llm_hub.Tenancy.{scoped, device_owned}
use llm_hub.Wire.{kind_name, device_view}
use llm_hub.Wire.Views.{device_view_of_known}
use llm_hub.Inventory.{
  KnownDevice, refuses_known, is_node, is_vanished, known_devices, upsert_all, record_inventory,
}
use llm_hub.Inventory.Upsert.{find_at}
use llm_hub.Inventory.Report.{
  last_report, facts_at, reading_at, reading_after, AllOwn, stays, facts_at-upsert_all,
  reading_at-upsert_all, find_at-upsert_all, any-last_report, find_at-remove, upsert_all-AllOwn,
}

-- What is reported with facts has a kind with a name.
last_report-known :
    (l : String) (reported : List Device) (facts : DeviceFacts)
    → last_report l (known_devices reported) ≡ some facts
    → (kind : ℕ) × (kind_name kind ≡ some facts.kind)
unfolding last_report known_devices
last_report-known l [] facts e = cc
last_report-known l (d ∷ ds) facts e = elim (Option-cases (kind_name d.kind)) [
  | inl unknown ↦ last_report-known l ds facts (ground (arith, unknown))
  | inr (name, named) ↦ elim (Option-cases (last_report l (known_devices ds))) [
    | inl last ↦ (d.kind, ground (arith, named, last))
    | inr (later, again) ↦ last_report-known l ds facts (ground (arith, named, again))
  ]
]

module _ (sql : Sql) (org node_id : String) (supply : ℕ → String) where
  -- A report that is stored has passed through its upserts and its deletion.
  pub record_inventory-eq-ok :
      (reported : List Device) (db db' : Db)
      → record_inventory sql org node_id supply reported db ≡ ok db'
      → (rows : List DeviceRow) × (upsert_all sql org node_id supply 0
            (known_devices reported)
            db.devices
          ≡ ok rows)
        × (db' ≡ record db { devices = keep (stays org node_id (known_devices reported)) rows })
  unfolding record_inventory stays
  record_inventory-eq-ok reported db db' e =
      let known = known_devices reported in
      let taken : any refuses_known known ≡ false = elim (Bool-cases (any refuses_known known)) [
        | inl bad ↦ absurd (ground (arith, bad))
        | inr good ↦ good
      ] in
      elim (Bool-cases
        (not (any (is_node node_id) db.nodes) && any (λ (d : KnownDevice). true) known)) [
          | inl missing ↦ absurd (ground (arith, taken, missing))
          | inr present ↦
              elim (Result-cases (upsert_all sql org node_id supply 0 known db.devices)) [
                | inl (c, failed) ↦ absurd (ground (arith, failed))
                | inr (rows, stored) ↦
                    let gone = scoped org (is_vanished node_id known) in
                    let done : record db { devices = sql.remove gone rows } ≡ db' =
                      ground (arith, taken, present, stored) in
                    (
                      rows,
                      stored,
                      sym done
                          ∙ ap (λ kept. record db { devices = kept }) (sql.remove_lem gone rows),
                    )
              ]
        ]

  pub record_inventory_lem :
      (reported : List Device) (db db' : Db) (l : String)
      → AllOwn org node_id db.devices
      → record_inventory sql org node_id supply reported db ≡ ok db'
      → (facts_at node_id l db'.devices ≡ last_report l (known_devices reported))
        × (reading_at node_id l db'.devices ≡ (elim (last_report l (known_devices reported)) [
          | none ↦ none
          | some facts ↦ reading_after (some facts) (reading_at node_id l db.devices)
        ]))
        × ((n : String) → n ≢ node_id → find_at n l db'.devices ≡ find_at n l db.devices)
        × (db'.nodes ≡ db.nodes)
  record_inventory_lem reported db db' l own e =
      let known = known_devices reported in
      let (rows, stored, same) = record_inventory-eq-ok reported db db' e in
      let own' = upsert_all-AllOwn sql org node_id supply 0 known db.devices rows own stored in
      let removed = find_at-remove org node_id known node_id l rows own' in
      let any_known = any-last_report l known in
      rw same (
        ground (
          arith,
          removed,
          any_known,
          eq_refl node_id,
          facts_at-upsert_all sql org node_id supply 0 known db.devices rows l stored,
        ),
        ground (
          arith,
          removed,
          any_known,
          eq_refl node_id,
          reading_at-upsert_all sql org node_id supply 0 known db.devices rows l stored,
        ),
        λ n h. ground (
          arith,
          find_at-remove org node_id known n l rows own',
          eq_iff n node_id,
          find_at-upsert_all sql org node_id supply 0 known db.devices rows n l h stored,
        ),
        refl,
      )

  -- Every device of the node after a stored report has a view: the budget of no device that came
  -- in by a report throws. Hypothesis: the node's devices belong to its organization.
  pub record_inventory_viewable :
      (js : Floats) (reported : List Device) (db db' : Db) (l : String) (d : DeviceRow)
      → AllOwn org node_id db.devices
      → record_inventory sql org node_id supply reported db ≡ ok db'
      → find_at node_id l db'.devices ≡ some d
      → (v : DeviceView) × (device_view js d ≡ some v)
  record_inventory_viewable js reported db db' l d own e found =
      let facts = (record_inventory_lem reported db db' l own e).0 in
      let (kind, named) = last_report-known l reported d.facts (ground (arith, facts, found)) in
      let (v, shown, same) = device_view_of_known js d kind named in (v, shown)
