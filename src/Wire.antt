-- ===== src/Wire.antt =====
-- apps/control-plane/src/domain/wire.ts: from protobuf messages to rows and from rows to views.
-- `Number` and `BigInt` carry byte counts over unchanged, which holds up to 2 ^ 53.
pub mod Enums
pub mod Views
use llm_hub.Base.{ℕ, String, ◌==◌, Bool, List, [], ◌∷◌, map, Option, none, some, eqb, if◌then◌else◌}
use llm_hub.Base.Int.{ℤ, pos}
use llm_hub.Memory.{Floats, MemoryInput, MemoryBudget, compute_budget}
use llm_hub.Proto.{HostInfo, DeviceView, NodeView}
use llm_hub.Proto.DeviceKind
use llm_hub.Proto.MemoryPressure
use llm_hub.Schema.{HostColumns, NodeRow, DeviceRow}

abbrev pub kinds : List (String × ℕ)
kinds = ("cpu", DeviceKind.cpu) ∷ ("cuda", DeviceKind.cuda) ∷ ("metal", DeviceKind.metal) ∷ []

abbrev pub pressures : List (String × ℕ)
pressures =
    ("normal", MemoryPressure.normal)
    ∷ ("warn", MemoryPressure.warn)
    ∷ ("critical", MemoryPressure.critical)
    ∷ []

-- The first name of the table that has the value.
unfoldable pub name_of : List (String × ℕ) → ℕ → Option String
name_of [] value = none
name_of ((name, v) ∷ table) value = if eqb v value then some name else name_of table value

unfoldable pub kind_name : ℕ → Option String
unfolding name_of
kind_name kind = name_of kinds kind

unfoldable pub pressure_name : ℕ → Option String
unfolding name_of
pressure_name pressure = name_of pressures pressure

-- `TABLE[name] ?? fallback`
unfoldable pub value_or : List (String × ℕ) → String → ℕ → ℕ
value_or [] name fallback = fallback
value_or ((key, v) ∷ table) name fallback = if key == name then v else value_or table name fallback

abbrev no_host : HostColumns
no_host = record {
  hostname = "";
  platform = "";
  arch = "";
  os_version = "";
  agent_version = "";
  total_memory_bytes = 0;
  cpu_cores = 0;
}

unfoldable pub host_columns : Option HostInfo → HostColumns
host_columns none = no_host
host_columns (some host) = host

unfoldable pub memory_input : DeviceRow → MemoryInput
memory_input d = record {
  kind = d.kind;
  total_bytes = d.total_bytes;
  used_bytes = d.last_used_bytes;
  managed_bytes = d.last_managed_bytes;
  wired_limit_bytes = some d.wired_limit_bytes;
  pressure = some d.last_pressure;
  interactive = some d.interactive;
}

unfoldable pub view_of : DeviceRow → MemoryBudget → DeviceView
unfolding value_or
view_of d budget = record {
  id = d.id;
  local_id = d.local_id;
  kind = value_or kinds d.kind DeviceKind.unspecified;
  name = d.name;
  total_bytes = budget.total_bytes;
  managed_bytes = budget.managed_bytes;
  foreign_bytes = budget.foreign_bytes;
  headroom_bytes = budget.headroom_bytes;
  available_bytes = budget.available_bytes;
  utilization = d.last_utilization;
  pressure = value_or pressures d.last_pressure MemoryPressure.normal;
  schedulable = budget.schedulable;
}

abbrev pub time_or_zero : Option ℤ → ℤ
time_or_zero none = pos 0
time_or_zero (some t) = t

infixl 5 ◌>>=◌
abbrev ◌>>=◌ {ℓ κ} : {A : Type ℓ} {B : Type κ} → Option A → (A → Option B) → Option B
none >>= k = none
some a >>= k = k a

-- `none` is the error that `computeBudget` throws.
module _ (js : Floats) where
  unfoldable pub device_view : DeviceRow → Option DeviceView
  unfolding memory_input view_of
  device_view d = do budget ← compute_budget js (memory_input d); some (view_of d budget)

  unfoldable pub device_views : List DeviceRow → Option (List DeviceView)
  device_views [] = some []
  device_views (d ∷ ds) = do some ((← device_view d) ∷ (← device_views ds))

  unfoldable pub node_view : NodeRow → List DeviceRow → Option NodeView
  unfolding device_views
  node_view n rows = do
    views ← device_views rows
    some (record {
      id = n.id;
      name = n.name;
      status = n.status;
      last_seen_unix_ms = time_or_zero n.last_seen_at;
      host = some n.host;
      devices = views;
    })
