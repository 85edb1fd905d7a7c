-- ===== src/Web/Bar/Notice.antt =====
-- What the notice under a bar says of the stored device.
use llm_hub.Base.{
  ◌≡◌, ◌≢◌, ◌<◌, ◌⊎◌, ◌↔◌, refl, eq_iff, none, some, arith, Bool-cases, inl, inr, true, false,
}
use llm_hub.Memory.{Floats, MemoryBudget}
use llm_hub.Memory.Schedule.{schedulable_iff}
use llm_hub.Proto.{DeviceView}
use llm_hub.Schema.{DeviceRow}
use llm_hub.Wire.{memory_input, view_of, device_view, value_or}
use llm_hub.Wire.Views.{device_view-eq-some}
use llm_hub.Web.Bar.{under_pressure, notice_of}

view-notice :
    (row : DeviceRow) (b : MemoryBudget)
    → (b.schedulable ≡ true → notice_of (view_of row b) ≡ none)
      × (b.schedulable ≡ false → notice_of (view_of row b) ≢ none)
      × (b.schedulable ≡ false
          → (row.last_pressure ≡ "warn") ⊎ (row.last_pressure ≡ "critical")
          → notice_of (view_of row b) ≡ some under_pressure)
unfolding notice_of view_of value_or
view-notice row b = (
  λ h. ground (arith, h),
  λ h e. ground (arith, h, e),
  λ h e. elim e [ inl w ↦ rw (h, w) refl | inr w ↦ rw (h, w) refl ],
)

-- A stored device is drawn without a notice exactly when it has memory and its pressure is normal,
-- and one under the pressure warn or critical is drawn with the notice that its machine is under
-- memory pressure.
pub notice_of_lem :
    (js : Floats) (row : DeviceRow) (d : DeviceView)
    → device_view js row ≡ some d
    → ((notice_of d ≡ none) ↔ ((0 < row.total_bytes) × (row.last_pressure ≡ "normal")))
      × ((row.last_pressure ≡ "warn") ⊎ (row.last_pressure ≡ "critical")
          → notice_of d ≡ some under_pressure)
unfolding memory_input
notice_of_lem js row d shown =
    let (b, built, same) = device_view-eq-some js row d shown in
    let (takes, closed) = schedulable_iff js (memory_input row) b built in
    let (silent, spoken, pressed) = view-notice row b in
    rw same (
      (
        λ e. elim (Bool-cases b.schedulable) [ inl s ↦ takes.0 s | inr c ↦ absurd (spoken c e) ],
        λ h. silent (takes.1 h),
      ),
      λ e. elim (Bool-cases b.schedulable) [
        | inr c ↦ pressed c e
        | inl s ↦
            let normal = (takes.0 s).1 in
            absurd (elim e [
              | inl w ↦ ground (arith, normal, w, eq_iff "normal" "warn")
              | inr w ↦ ground (arith, normal, w, eq_iff "normal" "critical")
            ])
      ],
    )
