-- ===== src/Memory.antt =====
-- packages/core/src/memory.ts: the memory budget of one device. Byte counts are naturals; what the
-- source subtracts is an integer. `Math.floor(totalBytes * f)` is binary floating point, so it is a
-- parameter: `Floats.floor_mul total h` stands for it at the fraction of h hundredths.
pub mod Bounds
pub mod Exact
pub mod Schedule
mod Tests
use llm_hub.Base.{
  ℕ, ◌*◌, ◌^◌, ◌≤◌, String, ◌==◌, Bool, false, Option, none, some, ltb, leb, min, max,
  if◌then◌else◌,
}
use llm_hub.Base.Int.{ℤ, pos, pos_part, ◌-ℤ◌, min_ℤ}

-- What the budget relies on: a fraction below one scales down, and a larger fraction gives no less.
pub record Floats : Type 0 where
  pub floor_mul : ℕ → ℕ → ℕ
  pub floor_mul-le : (n h : ℕ) → h ≤ 100 → floor_mul n h ≤ n
  pub floor_mul_mono : (n h k : ℕ) → h ≤ k → floor_mul n h ≤ floor_mul n k

pub record MemoryInput : Type 0 where
  pub kind : String
  pub total_bytes : ℕ
  pub used_bytes : ℕ
  pub managed_bytes : ℕ
  pub wired_limit_bytes : Option ℕ
  pub pressure : Option String
  pub interactive : Option Bool

pub record MemoryBudget : Type 0 where
  pub total_bytes : ℕ
  pub managed_bytes : ℕ
  pub foreign_bytes : ℕ
  pub headroom_bytes : ℕ
  pub available_bytes : ℕ
  pub schedulable : Bool

-- The fractions, in hundredths.
abbrev pub headroom_frac : ℕ
headroom_frac = 8

abbrev pub headroom_min_bytes : ℕ
headroom_min_bytes = 512 * 1024 ^ 2

abbrev pub os_reserve_frac : ℕ
os_reserve_frac = 15

abbrev pub os_reserve_min_bytes : ℕ
os_reserve_min_bytes = 8 * 1024 ^ 3

abbrev pub interactive_reserve_frac : ℕ
interactive_reserve_frac = 30

abbrev pub metal_default_ceiling_frac : ℕ
metal_default_ceiling_frac = 75

-- `Math.min(Math.max(v, lo), hi)`; the lower bound is never negative, so neither is the maximum.
unfoldable pub clamp : ℤ → ℕ → ℕ → ℕ
clamp v lo hi = min (max (pos_part v) lo) hi

abbrev pub or_else {ℓ} : {A : Type ℓ} → Option A → A → A
or_else none d = d
or_else (some a) d = a

unfoldable pub foreign_of : MemoryInput → ℕ
unfolding clamp ◌-ℤ◌
foreign_of input = clamp (pos input.used_bytes -ℤ pos input.managed_bytes) 0 input.total_bytes

unfoldable pub is_schedulable : MemoryInput → Bool
is_schedulable input = or_else input.pressure "normal" == "normal"

-- The headroom and the ceiling that the `switch` sets.
pub record Limits : Type 0 where
  pub headroom : ℕ
  pub ceiling : ℤ

-- What is left of the ceiling, before it is clamped.
unfoldable pub raw_of : MemoryInput → Limits → ℤ
unfolding ◌-ℤ◌
raw_of input limits =
    limits.ceiling -ℤ pos (foreign_of input) -ℤ pos input.managed_bytes -ℤ pos limits.headroom

unfoldable pub budget_of : MemoryInput → Limits → MemoryBudget
unfolding clamp
budget_of input limits = record {
  total_bytes = input.total_bytes;
  managed_bytes = input.managed_bytes;
  foreign_bytes = foreign_of input;
  headroom_bytes = limits.headroom;
  available_bytes =
      if is_schedulable input then clamp (raw_of input limits) 0 input.total_bytes else 0;
  schedulable = is_schedulable input;
}

abbrev budget_within : MemoryInput → Option Limits → Option MemoryBudget
budget_within input none = none
budget_within input (some limits) = some (budget_of input limits)

module _ (js : Floats) where
  pub os_reserve : MemoryInput → ℕ
  os_reserve input =
      let reserve_frac =
        if or_else input.interactive false then interactive_reserve_frac else os_reserve_frac in
      max os_reserve_min_bytes (js.floor_mul input.total_bytes reserve_frac)

  pub wired_limit : MemoryInput → ℕ
  wired_limit input =
      let limit = or_else input.wired_limit_bytes 0 in
      if ltb 0 limit then limit else js.floor_mul input.total_bytes metal_default_ceiling_frac

  -- `none` is the error that the `default` case throws.
  unfoldable pub limits_of : MemoryInput → Option Limits
  unfolding min_ℤ ◌-ℤ◌
  limits_of input =
      if input.kind == "cuda"
      then some (record {
        headroom = max headroom_min_bytes (js.floor_mul input.total_bytes headroom_frac);
        ceiling = pos input.total_bytes;
      })
      else if input.kind == "metal"
      then some (record {
        headroom = 0;
        ceiling = min_ℤ (pos (wired_limit input)) (pos input.total_bytes -ℤ pos (os_reserve input));
      })
      else if input.kind == "cpu"
      then some (record { headroom = os_reserve input; ceiling = pos input.total_bytes })
      else none

  unfoldable pub compute_budget : MemoryInput → Option MemoryBudget
  compute_budget input =
      if leb input.total_bytes 0
      then some (record {
        total_bytes = 0;
        managed_bytes = 0;
        foreign_bytes = 0;
        headroom_bytes = 0;
        available_bytes = 0;
        schedulable = false;
      })
      else budget_within input (limits_of input)
