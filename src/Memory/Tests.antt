-- ===== src/Memory/Tests.antt =====
-- The cases of packages/core/src/memory.test.ts, and instances of the theorems about the budget.
use llm_hub.Base.{ℕ, ◌*◌, ◌^◌, ◌+◌, ◌≤◌, ◌≡◌, refl, none, some, true, false, arith}
use llm_hub.Memory.Exact.{exact}
use llm_hub.Memory.{
  MemoryInput, MemoryBudget, compute_budget, wired_limit, os_reserve, limits_of, budget_of, raw_of,
  foreign_of, is_schedulable,
}
use llm_hub.Memory.Bounds.{budget_no_overcommit}

abbrev gib : ℕ
gib = 1024 ^ 3

abbrev rtx : MemoryInput
rtx = record {
  kind = "cuda";
  total_bytes = 24 * gib;
  used_bytes = 10 * gib;
  managed_bytes = 6 * gib;
  wired_limit_bytes = none;
  pressure = none;
  interactive = none;
}

abbrev rtx_budget : MemoryBudget
rtx_budget = record {
  total_bytes = 24 * gib;
  managed_bytes = 6 * gib;
  foreign_bytes = 4 * gib;
  headroom_bytes = 2061584302;
  available_bytes = 12970801234;
  schedulable = true;
}

rtx_test : compute_budget exact rtx ≡ some rtx_budget
unfolding compute_budget limits_of budget_of raw_of foreign_of is_schedulable os_reserve wired_limit
rtx_test = refl

abbrev studio : MemoryInput
studio = record {
  kind = "metal";
  total_bytes = 128 * gib;
  used_bytes = 20 * gib;
  managed_bytes = 16 * gib;
  wired_limit_bytes = some (96 * gib);
  pressure = some "normal";
  interactive = none;
}

abbrev studio_budget : MemoryBudget
studio_budget = record {
  total_bytes = 128 * gib;
  managed_bytes = 16 * gib;
  foreign_bytes = 4 * gib;
  headroom_bytes = 0;
  available_bytes = 76 * gib;
  schedulable = true;
}

studio_test : compute_budget exact studio ≡ some studio_budget
unfolding compute_budget limits_of budget_of raw_of foreign_of is_schedulable os_reserve wired_limit
studio_test = refl

budget_no_overcommit_example : 4 * gib + 6 * gib + 2061584302 + 12970801234 ≤ 24 * gib
budget_no_overcommit_example = budget_no_overcommit exact rtx rtx_budget rtx_test (omega arith)

abbrev flooded : MemoryBudget
flooded = record rtx_budget { foreign_bytes = 18 * gib; available_bytes = 0 }

flooded_test : compute_budget exact (record rtx { used_bytes = 24 * gib }) ≡ some flooded
unfolding compute_budget limits_of budget_of raw_of foreign_of is_schedulable
flooded_test = refl

-- A laptop of 36 GiB with nothing loaded.
abbrev laptop : MemoryInput
laptop = record {
  kind = "metal";
  total_bytes = 36 * gib;
  used_bytes = 0;
  managed_bytes = 0;
  wired_limit_bytes = none;
  pressure = none;
  interactive = none;
}

abbrev offers : ℕ → MemoryBudget
offers available = record {
  total_bytes = 36 * gib;
  managed_bytes = 0;
  foreign_bytes = 0;
  headroom_bytes = 0;
  available_bytes = available;
  schedulable = true;
}

laptop_tests :
    (compute_budget exact (record laptop { interactive = some false }) ≡ some (offers (27 * gib)))
    × (compute_budget exact (record laptop { interactive = some true }) ≡ some (offers 27058293965))
unfolding compute_budget limits_of budget_of raw_of foreign_of is_schedulable os_reserve wired_limit
laptop_tests = (refl, refl)
