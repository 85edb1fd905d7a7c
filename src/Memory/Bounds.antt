-- ===== src/Memory/Bounds.antt =====
-- `computeBudget` of packages/core/src/memory.ts: the bounds of its figures.
use llm_hub.Base.{
  ◌+◌, ◌≤◌, ◌<◌, ◌≡◌, ◌⊎◌, inl, inr, false, some, leb, arith, Bool-cases, Option-cases,
}
use llm_hub.Base.Int.{pos_part, neg_part}
use llm_hub.Memory.{
  Floats, MemoryInput, MemoryBudget, Limits, foreign_of, os_reserve, wired_limit, limits_of, raw_of,
  budget_of, compute_budget,
}

pub foreign_of-le : (input : MemoryInput) → foreign_of input ≤ input.total_bytes
unfolding foreign_of
foreign_of-le input = ground arith

-- A budget comes from the branch for a device without memory, or from the limits of its kind.
pub compute_budget_cases :
    (js : Floats) (input : MemoryInput) (b : MemoryBudget)
    → compute_budget js input ≡ some b
    → ((input.total_bytes ≡ 0)
        × (b ≡ record {
          total_bytes = 0;
          managed_bytes = 0;
          foreign_bytes = 0;
          headroom_bytes = 0;
          available_bytes = 0;
          schedulable = false;
        }))
      ⊎ ((limits : Limits) × (limits_of js input ≡ some limits) × (b ≡ budget_of input limits))
unfolding compute_budget
compute_budget_cases js input b e = elim (Bool-cases (leb input.total_bytes 0)) [
  | inl empty ↦ inl (ground arith, ground arith)
  | inr full ↦ elim (Option-cases (limits_of js input)) [
    | inl unknown ↦ ground arith
    | inr (limits, found) ↦ inr (limits, found, ground arith)
  ]
]

-- Of every budget that is computed, the total is the device's, and neither what is offered nor
-- what others use exceeds it.
pub compute_budget_bounds :
    (js : Floats) (input : MemoryInput) (b : MemoryBudget)
    → compute_budget js input ≡ some b
    → (b.total_bytes ≡ input.total_bytes)
      × (b.available_bytes ≤ b.total_bytes)
      × (b.foreign_bytes ≤ b.total_bytes)
unfolding budget_of
compute_budget_bounds js input b e = elim (compute_budget_cases js input b e) [
  | inl (empty, same) ↦ ground arith
  | inr (limits, found, same) ↦ ground (arith, foreign_of-le input)
]

-- The parts never exceed the ceiling of the kind of device.
within_ceiling :
    (input : MemoryInput) (limits : Limits)
    → 0 < (budget_of input limits).available_bytes
    → foreign_of input
        + input.managed_bytes
        + limits.headroom
        + (budget_of input limits).available_bytes
        + neg_part limits.ceiling
      ≤ pos_part limits.ceiling
unfolding budget_of raw_of
within_ceiling input limits h = ground arith

limits_of-within :
    (js : Floats) (input : MemoryInput) (limits : Limits)
    → limits_of js input ≡ some limits
    → pos_part limits.ceiling ≤ input.total_bytes
unfolding limits_of
limits_of-within js input limits e = ground arith

-- When a device offers any memory, what others use, what the hub's own replicas use, the headroom
-- and what is offered fit together into the device's memory.
pub budget_no_overcommit :
    (js : Floats) (input : MemoryInput) (b : MemoryBudget)
    → compute_budget js input ≡ some b
    → 0 < b.available_bytes
    → b.foreign_bytes + b.managed_bytes + b.headroom_bytes + b.available_bytes ≤ b.total_bytes
unfolding budget_of
budget_no_overcommit js input b e h = elim (compute_budget_cases js input b e) [
  | inl (empty, same) ↦ ground arith
  | inr (limits, found, same) ↦
      ground (arith, within_ceiling input limits, limits_of-within js input limits)
]

metal_ceiling :
    (js : Floats) (input : MemoryInput) (limits : Limits)
    → input.kind ≡ "metal"
    → limits_of js input ≡ some limits
    → (pos_part limits.ceiling ≤ wired_limit js input)
      × (pos_part limits.ceiling + os_reserve js input
          ≤ input.total_bytes + neg_part limits.ceiling)
unfolding limits_of
metal_ceiling js input limits metal found =
    let reached = rw (metal, limits_of) at found in ground (arith, reached)

-- When a Metal device offers any memory, all use of it, the offer included, stays within the wired
-- limit and leaves the reserve of the operating system free.
pub metal_reserve_kept :
    (js : Floats) (input : MemoryInput) (b : MemoryBudget)
    → compute_budget js input ≡ some b
    → input.kind ≡ "metal"
    → 0 < b.available_bytes
    → (b.foreign_bytes + b.managed_bytes + b.available_bytes ≤ wired_limit js input)
      × (b.foreign_bytes + b.managed_bytes + b.available_bytes + os_reserve js input
          ≤ input.total_bytes)
unfolding budget_of
metal_reserve_kept js input b e metal h = elim (compute_budget_cases js input b e) [
  | inl (empty, same) ↦ ground arith
  | inr (limits, found, same) ↦
      ground (arith, within_ceiling input limits, metal_ceiling js input limits metal found)
]
