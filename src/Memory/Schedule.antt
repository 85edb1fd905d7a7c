-- ===== src/Memory/Schedule.antt =====
-- `computeBudget` of packages/core/src/memory.ts: when a device takes work, and what its offer
-- depends on.
use llm_hub.Base.{
  ◌+◌, ◌-◌, min, if◌then◌else◌, ◌≤◌, ◌<◌, ◌≡◌, ◌≢◌, ◌↔◌, inl, inr, true, false, none, some, arith,
  refl, eq_iff, ℕ,
}
use llm_hub.Base.Int.{pos, pos_part, neg_part}
use llm_hub.Memory.{
  Floats, MemoryInput, MemoryBudget, Limits, or_else, foreign_of, is_schedulable, os_reserve,
  wired_limit, limits_of, raw_of, budget_of, compute_budget,
}
use llm_hub.Memory.Bounds.{compute_budget_cases}

-- A device takes work exactly when it has memory and its pressure is normal, an absent pressure
-- being normal; one that does not take work offers nothing.
pub schedulable_iff :
    (js : Floats) (input : MemoryInput) (b : MemoryBudget)
    → compute_budget js input ≡ some b
    → ((b.schedulable ≡ true)
        ↔ ((0 < input.total_bytes) × (or_else input.pressure "normal" ≡ "normal")))
      × (b.schedulable ≡ false → b.available_bytes ≡ 0)
unfolding compute_budget budget_of is_schedulable
schedulable_iff js input b e =
    ground
      (arith, eq_iff (or_else input.pressure "normal") "normal", compute_budget_cases js input b e)

-- Computing a budget throws exactly for a device that has memory and whose kind is none of cuda,
-- metal and cpu.
pub compute_budget-none_iff :
    (js : Floats) (input : MemoryInput)
    → (compute_budget js input ≡ none) ↔ (
        (0 < input.total_bytes)
        × (input.kind ≢ "cuda")
        × (input.kind ≢ "metal")
        × (input.kind ≢ "cpu"))
unfolding compute_budget limits_of
compute_budget-none_iff js input =
    ground (arith, eq_iff input.kind "cuda", eq_iff input.kind "metal", eq_iff input.kind "cpu")

limits_of-used :
    (js : Floats) (input : MemoryInput) (used : ℕ)
    → limits_of js (record input { used_bytes = used }) ≡ limits_of js input
unfolding limits_of os_reserve wired_limit
limits_of-used js input used = refl

-- The offer in natural numbers: what is left of the ceiling, if the device takes work.
available_lem :
    (input : MemoryInput) (limits : Limits)
    → (budget_of input limits).available_bytes ≡ (
        if is_schedulable input
        then min
            (pos_part limits.ceiling
              - (neg_part limits.ceiling
                  + foreign_of input
                  + input.managed_bytes
                  + limits.headroom))
            input.total_bytes
        else 0)
unfolding budget_of raw_of
available_lem input limits = ground arith

foreign_of_mono :
    (input : MemoryInput) (used : ℕ)
    → input.used_bytes ≤ used
    → foreign_of input ≤ foreign_of (record input { used_bytes = used })
unfolding foreign_of
foreign_of_mono input used h = ground arith

-- When more of a device is in use and all else is equal, it offers no more memory, and what others
-- use is no less.
pub available_antitone :
    (js : Floats) (input : MemoryInput) (used : ℕ) (b c : MemoryBudget)
    → input.used_bytes ≤ used
    → compute_budget js input ≡ some b
    → compute_budget js (record input { used_bytes = used }) ≡ some c
    → (c.available_bytes ≤ b.available_bytes) × (b.foreign_bytes ≤ c.foreign_bytes)
unfolding compute_budget budget_of is_schedulable
available_antitone js input used b c h e e' = elim (compute_budget_cases js input b e) [
  | inl (empty, same) ↦ ground arith
  | inr (limits, found, same) ↦
      let more : MemoryInput = record input { used_bytes = used } in
      ground (
        arith,
        limits_of-used js input used,
        foreign_of_mono input used h,
        available_lem input limits,
        available_lem more limits,
      )
]

os_reserve-interactive :
    (js : Floats) (input : MemoryInput)
    → os_reserve js (record input { interactive = some false })
      ≤ os_reserve js (record input { interactive = some true })
unfolding os_reserve
os_reserve-interactive js input =
    ground (arith, js.floor_mul_mono input.total_bytes 15 30 (omega arith))

-- The limits of a device that somebody uses leave no more than those of the same device unused.
limits_of-interactive :
    (js : Floats) (input : MemoryInput) (limits tight : Limits)
    → limits_of js (record input { interactive = some false }) ≡ some limits
    → limits_of js (record input { interactive = some true }) ≡ some tight
    → (pos_part tight.ceiling - (neg_part tight.ceiling + tight.headroom)
        ≤ pos_part limits.ceiling - (neg_part limits.ceiling + limits.headroom))
unfolding limits_of wired_limit
limits_of-interactive js input limits tight e e' = ground (arith, os_reserve-interactive js input)

-- A device that is marked as somebody's machine never offers more than it would without the mark.
pub available-interactive :
    (js : Floats) (input : MemoryInput) (b c : MemoryBudget)
    → compute_budget js (record input { interactive = some false }) ≡ some b
    → compute_budget js (record input { interactive = some true }) ≡ some c
    → c.available_bytes ≤ b.available_bytes
unfolding compute_budget is_schedulable foreign_of
available-interactive js input b c e e' =
    let idle : MemoryInput = record input { interactive = some false } in
    let daily : MemoryInput = record input { interactive = some true } in
    elim (compute_budget_cases js idle b e) [
      | inl (empty, same) ↦ ground arith
      | inr (limits, found, same) ↦ elim (compute_budget_cases js daily c e') [
        | inl (empty, same') ↦ ground arith
        | inr (tight, found', same') ↦ ground (
          arith,
          limits_of-interactive js input limits tight,
          available_lem idle limits,
          available_lem daily tight,
        )
      ]
    ]

flat_ceiling :
    (js : Floats) (input : MemoryInput) (limits : Limits)
    → input.kind ≢ "metal"
    → limits_of js input ≡ some limits
    → limits.ceiling ≡ pos input.total_bytes
unfolding limits_of
flat_ceiling js input limits h found = ground (arith, eq_iff input.kind "metal")

-- On a device that is not Metal and that has room left, the offer is exact: the four parts of the
-- budget sum to the device's memory.
pub budget_partition :
    (js : Floats) (input : MemoryInput) (b : MemoryBudget)
    → compute_budget js input ≡ some b
    → input.kind ≢ "metal"
    → b.schedulable ≡ true
    → b.foreign_bytes + b.managed_bytes + b.headroom_bytes ≤ b.total_bytes
    → b.foreign_bytes + b.managed_bytes + b.headroom_bytes + b.available_bytes ≡ b.total_bytes
unfolding budget_of
budget_partition js input b e h s fits = elim (compute_budget_cases js input b e) [
  | inl (empty, same) ↦ ground arith
  | inr (limits, found, same) ↦
      ground (arith, available_lem input limits, flat_ceiling js input limits h found)
]
