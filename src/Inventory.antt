-- ===== src/Inventory.antt =====
-- apps/control-plane/src/domain/nodes.ts: what a connected node writes about itself. Each function
-- is one transaction; an error leaves the database as it was.
pub mod Upsert
pub mod Report
pub mod Laws
pub mod Isolation
pub mod Heartbeat
pub mod Samples
mod Tests
use llm_hub.Base.{
  ℕ, suc, ◌+◌, String, ◌==◌, Bool, true, false, not, ◌&&◌, List, [], ◌∷◌, map, any, Option, none,
  some, if◌then◌else◌,
}
use llm_hub.Base.Int.{ℤ}
use llm_hub.Proto.{Device, DeviceSample}
use llm_hub.Result.{Result, ok, err, ◌>>=◌}
use llm_hub.Schema.{HostColumns, NodeRow, DeviceFacts, DeviceReading, DeviceRow, Db}
use llm_hub.Sql.{Sql}
use llm_hub.Tenancy.{
  DbError, bad_value, policy_violation, foreign_key_violation, visible, scoped, node_owned,
  device_owned,
}
use llm_hub.Storable.{refuses_host, refuses_device, refuses_sample}
use llm_hub.Wire.{kind_name, pressure_name}

-- A device of the report with the name of its kind.
pub record KnownDevice : Type 0 where
  pub local_id : String
  pub facts : DeviceFacts

abbrev pub refuses_known : KnownDevice → Bool
refuses_known d = refuses_device d.local_id d.facts

abbrev facts_of : Device → String → DeviceFacts
facts_of d kind = record {
  kind = kind;
  index = d.index;
  name = d.name;
  total_bytes = d.total_bytes;
  wired_limit_bytes = d.wired_limit_bytes;
  driver_version = d.driver_version;
  compute_capability = d.compute_capability;
}

-- A device of an unrecognized kind is dropped.
unfoldable pub known_devices : List Device → List KnownDevice
known_devices [] = []
known_devices (d ∷ ds) =
    let rest = known_devices ds in
    elim (kind_name d.kind) [
      | none ↦ rest
      | some kind ↦ record { local_id = d.local_id; facts = facts_of d kind } ∷ rest
    ]

abbrev pub no_reading : DeviceReading
no_reading = record {
  last_used_bytes = 0;
  last_managed_bytes = 0;
  last_utilization = 0;
  last_pressure = "normal";
  last_sample_at = none;
}

-- The target of the conflict: the unique index on (node_id, local_id).
abbrev pub is_at : String → String → DeviceRow → Bool
is_at node_id local_id r = r.node_id == node_id && r.local_id == local_id

abbrev pub set_facts : DeviceFacts → DeviceRow → DeviceRow
set_facts facts r = record r { facts = facts }

-- The row that is inserted; its id is the database's own choice.
abbrev pub new_device : String → String → String → KnownDevice → DeviceRow
new_device id org node_id d = record {
  id = id;
  org_id = org;
  node_id = node_id;
  local_id = d.local_id;
  facts = d.facts;
  interactive = false;
  reading = no_reading;
}

-- An empty list of reported devices removes all of the node's.
abbrev pub is_vanished : String → List KnownDevice → DeviceRow → Bool
is_vanished node_id known r =
    r.node_id == node_id && not (any (λ (d : KnownDevice). r.local_id == d.local_id) known)

abbrev pub is_node : String → NodeRow → Bool
is_node node_id n = n.id == node_id

-- The time is exact: a sample whose time no Date holds is refused by `record_samples`.
abbrev pub reading_of : DeviceSample → DeviceReading
reading_of s = record {
  last_used_bytes = s.used_bytes;
  last_managed_bytes = s.managed_bytes;
  last_utilization = s.utilization;
  last_pressure = elim (pressure_name s.pressure) [ none ↦ "normal" | some name ↦ name ];
  last_sample_at = some s.sampled_at_unix_ms;
}

abbrev pub set_reading : DeviceReading → DeviceRow → DeviceRow
set_reading reading r = record r { reading = reading }

abbrev pub seen_now : ℤ → NodeRow → NodeRow
seen_now now n = record n { status = "online"; last_seen_at = some now }

abbrev pub greeted : ℤ → HostColumns → NodeRow → NodeRow
greeted now host n = record n { status = "online"; last_seen_at = some now; host = host }

module _ (sql : Sql) (org : String) (node_id : String) where
  -- A conflict with a row that the policy hides is refused.
  unfoldable pub upsert_device :
      String → KnownDevice → List DeviceRow → Result DbError (List DeviceRow)
  upsert_device id d rows =
      if any (λ r. is_at node_id d.local_id r && not (visible org r)) rows
      then err policy_violation
      else ok (
          sql.upsert (is_at node_id d.local_id) (set_facts d.facts) (new_device id org node_id d)
            rows)

  -- `supply i` is the id that the database makes up for the i-th row.
  unfoldable pub upsert_all :
      (ℕ → String) → ℕ → List KnownDevice → List DeviceRow → Result DbError (List DeviceRow)
  unfolding upsert_device
  upsert_all supply i [] rows = ok rows
  upsert_all supply i (d ∷ ds) rows = do
    rows' ← upsert_device (supply i) d rows
    upsert_all supply (suc i) ds rows'

  -- Where several rows would fail, the model does not tell which error is thrown first.
  unfoldable pub record_inventory : (ℕ → String) → List Device → Db → Result DbError Db
  unfolding upsert_all
  record_inventory supply reported db =
      let known = known_devices reported in
      if any refuses_known known
      then err bad_value
      else if not (any (is_node node_id) db.nodes) && any (λ _. true) known
      then err foreign_key_violation
      else do
        rows ← upsert_all supply 0 known db.devices
        ok (record db { devices = sql.remove (scoped org (is_vanished node_id known)) rows })

  unfoldable pub apply_samples : List DeviceSample → List DeviceRow → List DeviceRow
  apply_samples [] rows = rows
  apply_samples (s ∷ ss) rows =
      apply_samples ss
        (sql.update (scoped org (is_at node_id s.local_id)) (set_reading (reading_of s)) rows)

  -- The statements of a batch whose values the columns take.
  unfoldable pub store_samples : ℤ → List DeviceSample → Db → Db
  unfolding apply_samples
  store_samples now samples db = record db {
    devices = apply_samples samples db.devices;
    nodes = sql.update (scoped org (is_node node_id)) (seen_now now) db.nodes;
  }

  unfoldable pub record_samples : ℤ → List DeviceSample → Db → Result DbError Db
  record_samples now samples db =
      if any (refuses_sample sql) samples then err bad_value else ok (store_samples now samples db)

  unfoldable pub set_online : ℤ → HostColumns → Db → Db
  set_online now host db = record db {
    nodes = sql.update (scoped org (is_node node_id)) (greeted now host) db.nodes;
  }

  unfoldable pub mark_node_online : ℤ → HostColumns → Db → Result DbError Db
  mark_node_online now host db =
      if refuses_host host then err bad_value else ok (set_online now host db)
