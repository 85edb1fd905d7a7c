-- ===== src/Agent/Wire/Laws.antt =====
-- agent/internal/transport/proto.go with domain/wire.ts and domain/nodes.ts: what the control plane
-- stores of what the agent found.
use llm_hub.Agent.Inventory
use llm_hub.Agent.Inventory.{Sample, Probe, collect}
use llm_hub.Agent.Inventory.Laws.{Found, clash, inventory_of}
use llm_hub.Agent.Wire.{kind_proto, pressure_proto, device_proto, devices_proto, sample_proto}
use llm_hub.Base.{
  ℕ, ◌%◌, ◌^◌, ◌<◌, ◌≡◌, refl, ◌∙◌, String, ◌==◌, eq_iff, Bool, true, false, ◌||◌, Option, none,
  some, List, [], ◌∷◌, any, All, arith, Bool-cases, Option-cases, inl, inr, if◌then◌else◌,
}
use llm_hub.Base.Distinct.{Distinct}
use llm_hub.Inventory.{known_devices, record_inventory, reading_of}
use llm_hub.Inventory.Laws.{record_inventory_lem}
use llm_hub.Inventory.Report.{AllOwn, facts_at, last_report}
use llm_hub.Result.{ok}
use llm_hub.Schema.{DeviceFacts, Db}
use llm_hub.Sql.{Sql}
use llm_hub.Wire.{kind_name, pressure_name, value_or, name_of}

abbrev pub is_kind : String → Bool
is_kind k = k == "cpu" || (k == "cuda" || k == "metal")

abbrev pub is_pressure : String → Bool
is_pressure p = p == "normal" || (p == "warn" || p == "critical")

-- The control plane reads the name of the kind that the agent had, and none for any other.
kind_name-kind_proto :
    (k : String) → kind_name (kind_proto k) ≡ (if is_kind k then some k else none)
unfolding kind_name name_of kind_proto value_or
kind_name-kind_proto k = ground (
  arith,
  eq_iff k "cpu",
  eq_iff k "cuda",
  eq_iff k "metal",
  eq_iff "cpu" k,
  eq_iff "cuda" k,
  eq_iff "metal" k,
)

pressure_name-pressure_proto :
    (p : String) → pressure_name (pressure_proto p) ≡ (if is_pressure p then some p else none)
unfolding pressure_name name_of pressure_proto value_or
pressure_name-pressure_proto p = ground (
  arith,
  eq_iff p "normal",
  eq_iff p "warn",
  eq_iff p "critical",
  eq_iff "normal" p,
  eq_iff "warn" p,
  eq_iff "critical" p,
)

-- What the control plane stores of an agent's sample is the sample's own figures and time, and its
-- pressure where that is normal, warn or critical; any other pressure is stored as normal.
pub reading_of-sample_proto :
    (s : Sample)
    → reading_of (sample_proto s) ≡ record {
      last_used_bytes = s.used_bytes;
      last_managed_bytes = s.managed_bytes;
      last_utilization = s.utilization;
      last_pressure = if is_pressure s.pressure then s.pressure else "normal";
      last_sample_at = some s.sampled_at;
    }
unfolding sample_proto
reading_of-sample_proto s =
    let same = pressure_name-pressure_proto s.pressure in
    elim (Bool-cases (is_pressure s.pressure)) [
      | inl known ↦ ground (arith, same, known)
      | inr other ↦ ground (arith, same, other)
    ]

-- What the agent knows of a device.
abbrev pub agent_facts : Inventory.Device → DeviceFacts
agent_facts d = record {
  kind = d.kind;
  index = d.index;
  name = d.name;
  total_bytes = d.total_bytes;
  wired_limit_bytes = d.wired_limit_bytes;
  driver_version = d.driver_version;
  compute_capability = d.compute_capability;
}

abbrev pub IsSendable : Inventory.Device → Type 0
IsSendable d = (is_kind d.kind ≡ true) × (d.index < 2 ^ 32)

-- The facts of the device of that id in a discovery.
abbrev pub facts_found : String → List Found → Option DeviceFacts
facts_found l [] = none
facts_found l (f ∷ fs) = if l == f.0.local_id then some (agent_facts f.0) else facts_found l fs

last_report-other :
    (l : String) (f : Found) (fs : List Found)
    → l ≡ f.0.local_id
    → any (clash f) fs ≡ false
    → last_report l (known_devices (devices_proto (inventory_of fs).devices)) ≡ none
unfolding last_report known_devices device_proto
last_report-other l f [] same h = refl
last_report-other l f (x ∷ fs) same h =
    let rest = last_report-other l f fs same (ground (arith, h)) in
    let apart : (l == x.0.local_id) ≡ false = rw same (ground (arith, h)) in
    elim (Option-cases (kind_name (kind_proto x.0.kind))) [
      | inl unknown ↦ ground (arith, rest, unknown)
      | inr (kind, known) ↦ ground (arith, rest, known, apart)
    ]

last_report-found :
    (l : String) (fs : List Found)
    → Distinct clash fs
    → All (λ (f : Found). IsSendable f.0) fs
    → last_report l (known_devices (devices_proto (inventory_of fs).devices)) ≡ facts_found l fs
unfolding last_report known_devices device_proto
last_report-found l [] d h = refl
last_report-found l (f ∷ fs) d h =
    let rest = last_report-found l fs d.1 h.1 in
    let known : kind_name (kind_proto f.0.kind) ≡ some f.0.kind =
      kind_name-kind_proto f.0.kind ∙ rw (h.0.0) refl in
    let small : f.0.index % 2 ^ 32 ≡ f.0.index = omega (arith, h.0.1) in
    elim (Bool-cases (l == f.0.local_id)) [
      | inl here ↦
          let later = last_report-other l f fs ((eq_iff l f.0.local_id).0 here) d.0 in
          ground (arith, later, known, here, small)
      | inr other ↦ ground (arith, rest, known, other)
    ]

module _ (sql : Sql) (org node_id : String) (supply : ℕ → String) where
  -- A stored report of a discovery leaves the node's devices as the agent knows them.
  pub stored_facts :
      (found : List Found) (db db' : Db) (l : String)
      → AllOwn org node_id db.devices
      → Distinct clash found
      → All (λ (f : Found). IsSendable f.0) found
      → record_inventory sql org node_id supply (devices_proto (inventory_of found).devices) db
        ≡ ok db'
      → facts_at node_id l db'.devices ≡ facts_found l found
  stored_facts found db db' l own distinct sendable stored =
      (record_inventory_lem sql org node_id supply (devices_proto (inventory_of found).devices) db
        db' l own stored).0
      ∙ last_report-found l found distinct sendable
