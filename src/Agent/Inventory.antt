-- ===== src/Agent/Inventory.antt =====
-- agent/internal/inventory/inventory.go: one pass of discovery over the probes, and the samples of
-- what it found. An index is not negative; a float is kept as its 64 bits.
pub mod Laws
pub mod Sampling
use llm_hub.Base.{
  ℕ, String, ◌==◌, Bool, true, false, Option, none, some, List, [], ◌∷◌, ◌++◌, any, if◌then◌else◌,
}
use llm_hub.Base.Int.{ℤ}
use llm_hub.Result.{Result, ok, err, ◌>>=◌}

pub record Device : Type 0 where
  pub local_id : String
  pub kind : String
  pub index : ℕ
  pub name : String
  pub total_bytes : ℕ
  pub wired_limit_bytes : ℕ
  pub driver_version : String
  pub compute_capability : String

pub record Sample : Type 0 where
  pub local_id : String
  pub used_bytes : ℕ
  pub managed_bytes : ℕ
  pub utilization : ℕ
  pub temperature_c : ℕ
  pub power_watts : ℕ
  pub pressure : String
  pub sampled_at : ℤ

-- `none` is an error.
pub record Probe : Type 0 where
  pub name : String
  pub discover : Option (List Device)
  pub sample : Device → Option Sample

pub record Inventory : Type 0 where
  pub devices : List Device
  pub owner : List (String × Probe)

pub data CollectError : Type 0 where
  undiscovered : String → CollectError
  duplicate : String → String → CollectError

abbrev pub no_devices : Inventory
no_devices = record { devices = []; owner = [] }

abbrev pub add_device : Probe → Device → Inventory → Inventory
add_device p d inv = record {
  devices = inv.devices ++ d ∷ [];
  owner = inv.owner ++ (d.local_id, p) ∷ [];
}

unfoldable pub add_devices : Probe → List Device → Inventory → Result CollectError Inventory
add_devices p [] inv = ok inv
add_devices p (d ∷ ds) inv =
    let rest = add_devices p ds (add_device p d inv) in
    if any (λ (e : String × Probe). e.0 == d.local_id) inv.owner
    then err (duplicate p.name d.local_id)
    else rest

abbrev discovered : Probe → Result CollectError (List Device)
discovered p = elim p.discover [ none ↦ err (undiscovered p.name) | some ds ↦ ok ds ]

unfoldable pub collect_onto : List Probe → Inventory → Result CollectError Inventory
collect_onto [] inv = ok inv
collect_onto (p ∷ ps) inv = do
  devices ← discovered p
  grown ← add_devices p devices inv
  collect_onto ps grown

unfoldable pub collect : List Probe → Result CollectError Inventory
collect probes = collect_onto probes no_devices

-- `i.owner[id]`
unfoldable pub owner_of : List (String × Probe) → String → Option Probe
owner_of [] id = none
owner_of ((key, p) ∷ rest) id = if key == id then some p else owner_of rest id

abbrev pub add_sample : Option Sample → List Sample → List Sample
add_sample none samples = samples
add_sample (some s) samples = s ∷ samples

-- `none` is the panic of a device without a probe.
unfoldable pub sample_each : List (String × Probe) → List Device → Option (List Sample)
sample_each owner [] = some []
sample_each owner (d ∷ ds) =
    let rest = sample_each owner ds in
    elim (owner_of owner d.local_id) [
      | none ↦ none
      | some p ↦ elim rest [ none ↦ none | some samples ↦ some (add_sample (p.sample d) samples) ]
    ]

unfoldable pub sample_all : Inventory → Option (List Sample)
sample_all inv = sample_each inv.owner inv.devices
