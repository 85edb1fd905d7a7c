-- ===== src/Agent/Wire.antt =====
-- agent/internal/transport/proto.go: from the agent's values to the messages.
pub mod Laws
use llm_hub.Agent.Inventory
use llm_hub.Agent.Inventory.{Sample}
use llm_hub.Base.{ℕ, ◌%◌, ◌^◌, String, List, [], ◌∷◌, map}
use llm_hub.Proto.{HostInfo, Device, DeviceSample}
use llm_hub.Proto.DeviceKind
use llm_hub.Proto.MemoryPressure
use llm_hub.Wire.{value_or}

pub record Host : Type 0 where
  pub hostname : String
  pub platform : String
  pub arch : String
  pub os_version : String
  pub total_memory_bytes : ℕ
  pub cpu_cores : ℕ

-- `uint32(n)` of an int that is not negative
abbrev pub uint32 : ℕ → ℕ
uint32 n = n % 2 ^ 32

abbrev pub kind_table : List (String × ℕ)
kind_table = ("cpu", DeviceKind.cpu) ∷ ("cuda", DeviceKind.cuda) ∷ ("metal", DeviceKind.metal) ∷ []

abbrev pub pressure_table : List (String × ℕ)
pressure_table =
    ("normal", MemoryPressure.normal)
    ∷ ("warn", MemoryPressure.warn)
    ∷ ("critical", MemoryPressure.critical)
    ∷ []

-- `kindProto[kind]`: the zero value where the map has no entry.
unfoldable pub kind_proto : String → ℕ
unfolding value_or
kind_proto kind = value_or kind_table kind DeviceKind.unspecified

unfoldable pub pressure_proto : String → ℕ
unfolding value_or
pressure_proto pressure = value_or pressure_table pressure MemoryPressure.unspecified

abbrev pub host_proto : String → Host → HostInfo
host_proto version h = record {
  hostname = h.hostname;
  platform = h.platform;
  arch = h.arch;
  os_version = h.os_version;
  agent_version = version;
  total_memory_bytes = h.total_memory_bytes;
  cpu_cores = uint32 h.cpu_cores;
}

unfoldable pub device_proto : Inventory.Device → Device
device_proto d = record {
  local_id = d.local_id;
  kind = kind_proto d.kind;
  index = uint32 d.index;
  name = d.name;
  total_bytes = d.total_bytes;
  driver_version = d.driver_version;
  compute_capability = d.compute_capability;
  wired_limit_bytes = d.wired_limit_bytes;
}

abbrev pub devices_proto : List Inventory.Device → List Device
devices_proto ds = map device_proto ds

unfoldable pub sample_proto : Sample → DeviceSample
sample_proto s = record {
  local_id = s.local_id;
  used_bytes = s.used_bytes;
  managed_bytes = s.managed_bytes;
  utilization = s.utilization;
  temperature_c = s.temperature_c;
  power_watts = s.power_watts;
  pressure = pressure_proto s.pressure;
  sampled_at_unix_ms = s.sampled_at;
}

abbrev pub samples_proto : List Sample → List DeviceSample
samples_proto ss = map sample_proto ss
