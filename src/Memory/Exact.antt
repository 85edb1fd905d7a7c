-- ===== src/Memory/Exact.antt =====
-- The parameter of the memory budget, instantiated by exact fractions.
use llm_hub.Base.{ℕ, ◌*◌, ◌/◌, ◌≤◌, arith}
use llm_hub.Memory.{Floats}

pub scale-le : (n h : ℕ) → h ≤ 100 → n * h / 100 ≤ n
scale-le n h p = grind arith

pub scale_mono : (n h k : ℕ) → h ≤ k → n * h / 100 ≤ n * k / 100
scale_mono n h k p = grind arith

-- Exact fractions, as scaled integers, have the properties that are asked of `Math.floor`.
abbrev pub exact : Floats
exact = record {
  floor_mul = λ n h. n * h / 100;
  floor_mul-le = scale-le;
  floor_mul_mono = scale_mono;
}
