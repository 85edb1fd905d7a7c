-- ===== src/Schema.antt =====
-- packages/db/src/schema/fleet.ts: the rows of the tables that the fleet is kept in, and the names
-- of organizations from schema/auth.ts. A timestamp is a count of milliseconds, `none` is NULL; a
-- column that no modelled code reads or writes (siteId, createdAt, slug and the like) is left out.
use llm_hub.Base.{ℕ, String, Bool, List, Option}
use llm_hub.Base.Int.{ℤ}
use llm_hub.Proto.{HostInfo}

-- The columns that a HostInfo fills in, which have its names.
abbrev pub HostColumns : Type 0
HostColumns = HostInfo

pub record NodeRow : Type 0 where
  pub id : String
  pub org_id : String
  pub name : String
  pub status : String
  pub host : HostColumns
  pub public_key : List ℕ
  pub last_seen_at : Option ℤ

-- The columns that an inventory report fills in.
pub record DeviceFacts : Type 0 where
  pub kind : String
  pub index : ℕ
  pub name : String
  pub total_bytes : ℕ
  pub wired_limit_bytes : ℕ
  pub driver_version : String
  pub compute_capability : String

-- The columns that a sample fills in.
pub record DeviceReading : Type 0 where
  pub last_used_bytes : ℕ
  pub last_managed_bytes : ℕ
  pub last_utilization : ℕ
  pub last_pressure : String
  pub last_sample_at : Option ℤ

pub record DeviceRow : Type 0 where
  pub id : String
  pub org_id : String
  pub node_id : String
  pub local_id : String
  pub facts : DeviceFacts
  pub open facts use *
  pub interactive : Bool
  pub reading : DeviceReading
  pub open reading use *

pub record PairingRow : Type 0 where
  pub id : String
  pub org_id : String
  pub code_hash : String
  pub node_name : String
  pub created_by : String
  pub expires_at : ℤ
  pub used_at : Option ℤ

pub record Organization : Type 0 where
  pub id : String
  pub name : String

pub record Db : Type 0 where
  pub nodes : List NodeRow
  pub devices : List DeviceRow
  pub pairing_codes : List PairingRow
  pub organizations : List Organization
