-- ===== src/Wire/Enums.antt =====
-- `kindName` and `pressureName` of domain/wire.ts: the tables of names, read both ways.
use llm_hub.Base.{ℕ, ◌≡◌, ◌≢◌, ◌↔◌, ◌⊎◌, inl, inr, String, none, some, arith}
use llm_hub.Proto.DeviceKind
use llm_hub.Proto.MemoryPressure
use llm_hub.Wire.{kinds, pressures, kind_name, pressure_name, value_or}

-- The three names of kinds, with their numbers.
pub kind_name-cases :
    (kind : ℕ) (name : String)
    → kind_name kind ≡ some name
    → ((kind ≡ DeviceKind.cpu) × (name ≡ "cpu"))
      ⊎ (((kind ≡ DeviceKind.cuda) × (name ≡ "cuda"))
          ⊎ ((kind ≡ DeviceKind.metal) × (name ≡ "metal")))
unfolding kind_name
kind_name-cases kind name e = ground arith

pub pressure_name-cases :
    (pressure : ℕ) (name : String)
    → pressure_name pressure ≡ some name
    → ((pressure ≡ MemoryPressure.normal) × (name ≡ "normal"))
      ⊎ (((pressure ≡ MemoryPressure.warn) × (name ≡ "warn"))
          ⊎ ((pressure ≡ MemoryPressure.critical) × (name ≡ "critical")))
unfolding pressure_name
pressure_name-cases pressure name e = ground arith

-- The name of a device kind reads back as that kind, and the numbers without a name are exactly
-- those that are none of the three kinds.
pub kind_roundtrip :
    (kind fallback : ℕ)
    → ((name : String) → kind_name kind ≡ some name → value_or kinds name fallback ≡ kind)
      × ((kind_name kind ≡ none)
          ↔ ((kind ≢ DeviceKind.cpu) × (kind ≢ DeviceKind.cuda) × (kind ≢ DeviceKind.metal)))
unfolding kind_name value_or
kind_roundtrip kind fallback = (
  λ name e. elim (kind_name-cases kind name e) [
    | inl (k, n) ↦ rw (k, n)
    | inr (inl (k, n)) ↦ rw (k, n)
    | inr (inr (k, n)) ↦ rw (k, n)
  ],
  ground arith,
)

-- The name of a memory pressure reads back as that pressure, and the numbers without a name are
-- exactly those that are none of the three pressures.
pub pressure_roundtrip :
    (pressure fallback : ℕ)
    → ((name : String)
        → pressure_name pressure ≡ some name
        → value_or pressures name fallback ≡ pressure)
      × ((pressure_name pressure ≡ none) ↔ (
          (pressure ≢ MemoryPressure.normal)
          × (pressure ≢ MemoryPressure.warn)
          × (pressure ≢ MemoryPressure.critical)))
unfolding pressure_name value_or
pressure_roundtrip pressure fallback = (
  λ name e. elim (pressure_name-cases pressure name e) [
    | inl (p, n) ↦ rw (p, n)
    | inr (inl (p, n)) ↦ rw (p, n)
    | inr (inr (p, n)) ↦ rw (p, n)
  ],
  ground arith,
)
