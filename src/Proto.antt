-- ===== src/Proto.antt =====
-- The messages of proto/modelhub/v1, as packages/proto-ts/src/gen has them in TypeScript. An enum of
-- proto3 is open: any number may arrive. A double that is only copied is kept as its 64 bits.
pub mod DeviceKind
pub mod MemoryPressure
use llm_hub.Base.{ℕ, String, Bool, List, Option}
use llm_hub.Base.Int.{ℤ}

pub record HostInfo : Type 0 where
  pub hostname : String
  pub platform : String
  pub arch : String
  pub os_version : String
  pub agent_version : String
  pub total_memory_bytes : ℕ
  pub cpu_cores : ℕ

pub record Device : Type 0 where
  pub local_id : String
  pub kind : ℕ
  pub index : ℕ
  pub name : String
  pub total_bytes : ℕ
  pub driver_version : String
  pub compute_capability : String
  pub wired_limit_bytes : ℕ

pub record DeviceSample : Type 0 where
  pub local_id : String
  pub used_bytes : ℕ
  pub managed_bytes : ℕ
  pub utilization : ℕ
  pub temperature_c : ℕ
  pub power_watts : ℕ
  pub pressure : ℕ
  pub sampled_at_unix_ms : ℤ

pub record Hello : Type 0 where
  pub agent_version : String
  pub host : Option HostInfo

pub record InventoryReport : Type 0 where
  pub devices : List Device

pub record SampleBatch : Type 0 where
  pub samples : List DeviceSample

-- The `payload` of an AgentMessage; `unset` is a message whose case this build does not know.
pub data Payload : Type 0 where
  hello : Hello → Payload
  inventory : InventoryReport → Payload
  samples : SampleBatch → Payload
  unset : Payload

pub record HelloAck : Type 0 where
  pub node_id : List ℕ
  pub sample_interval_ms : ℕ

pub record AgentConfig : Type 0 where
  pub sample_interval_ms : ℕ

-- A message of the server, by its `payload`.
pub data ServerMessage : Type 0 where
  hello_ack : HelloAck → ServerMessage
  config : AgentConfig → ServerMessage
  empty : ServerMessage

pub record EnrollRequest : Type 0 where
  pub pairing_code : String
  pub public_key : List ℕ
  pub node_name : String
  pub host : Option HostInfo

pub record EnrollResponse : Type 0 where
  pub node_id : String
  pub org_id : String
  pub org_name : String

pub record DeviceView : Type 0 where
  pub id : String
  pub local_id : String
  pub kind : ℕ
  pub name : String
  pub total_bytes : ℕ
  pub managed_bytes : ℕ
  pub foreign_bytes : ℕ
  pub headroom_bytes : ℕ
  pub available_bytes : ℕ
  pub utilization : ℕ
  pub pressure : ℕ
  pub schedulable : Bool

pub record NodeView : Type 0 where
  pub id : String
  pub name : String
  pub status : String
  pub last_seen_unix_ms : ℤ
  pub host : Option HostInfo
  pub devices : List DeviceView

pub record CreatePairingCodeRequest : Type 0 where
  pub node_name : String

pub record CreatePairingCodeResponse : Type 0 where
  pub code : List ℕ
  pub expires_at_unix_ms : ℤ

pub record ListNodesResponse : Type 0 where
  pub nodes : List NodeView

pub record GetNodeResponse : Type 0 where
  pub node : Option NodeView
