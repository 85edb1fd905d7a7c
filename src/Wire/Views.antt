-- ===== src/Wire/Views.antt =====
-- `deviceView` of domain/wire.ts: what a view shows, and when there is one.
use llm_hub.Base.{ℕ, ◌≡◌, ◌≤◌, ◌<◌, ◌+◌, inl, inr, true, some, arith, Option-cases}
use llm_hub.Memory.{Floats, compute_budget}
use llm_hub.Memory.Bounds.{compute_budget_bounds, budget_no_overcommit}
use llm_hub.Memory.Schedule.{compute_budget-none_iff, schedulable_iff}
use llm_hub.Proto.{DeviceView}
use llm_hub.Schema.{DeviceRow}
use llm_hub.Wire.{kind_name, memory_input, view_of, device_view}
use llm_hub.Wire.Enums.{kind_name-cases, kind_roundtrip}

-- A view is the row's identity beside the budget of the row.
pub device_view-eq-some :
    (js : Floats) (d : DeviceRow) (v : DeviceView)
    → device_view js d ≡ some v
    → (b : _) × (compute_budget js (memory_input d) ≡ some b) × (v ≡ view_of d b)
unfolding device_view
device_view-eq-some js d v e = elim (Option-cases (compute_budget js (memory_input d))) [
  | inl failed ↦ ground arith
  | inr (b, built) ↦ (b, built, ground arith)
]

-- A device whose kind is the name of a reported kind has a view, and the view shows the kind that
-- was reported.
pub device_view_of_known :
    (js : Floats) (d : DeviceRow) (kind : ℕ)
    → kind_name kind ≡ some d.kind
    → (v : DeviceView) × (device_view js d ≡ some v) × (v.kind ≡ kind)
unfolding device_view view_of memory_input
device_view_of_known js d kind known = elim (Option-cases (compute_budget js (memory_input d))) [
  | inl failed ↦ absurd (
      ground (
        arith,
        (compute_budget-none_iff js (memory_input d)).0 failed,
        kind_name-cases kind d.kind known,
      ))
  | inr (b, built) ↦ (view_of d b, rw built, (kind_roundtrip kind 0).0 d.kind known)
]

-- The figures of a device's view are consistent: the total is the device's, no more than it is
-- offered, and where anything is offered the device is schedulable, at normal pressure, and the
-- four parts fit into the total.
pub device_view_bounds :
    (js : Floats) (d : DeviceRow) (v : DeviceView)
    → device_view js d ≡ some v
    → (v.total_bytes ≡ d.total_bytes)
      × (v.available_bytes ≤ v.total_bytes)
      × (0 < v.available_bytes
          → (v.schedulable ≡ true)
            × (d.last_pressure ≡ "normal")
            × (v.foreign_bytes + v.managed_bytes + v.headroom_bytes + v.available_bytes
                ≤ v.total_bytes))
unfolding view_of memory_input
device_view_bounds js d v e =
    let (b, built, same) = device_view-eq-some js d v e in
    ground (
      arith,
      compute_budget_bounds js (memory_input d) b built,
      budget_no_overcommit js (memory_input d) b built,
      schedulable_iff js (memory_input d) b built,
    )
