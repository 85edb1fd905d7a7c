-- ===== src/Web/Format/Bytes.antt =====
-- How far a byte count that is shown lies from the count.
use llm_hub.Base.{
  nth, some, ℕ, ◌+◌, ◌*◌, ◌^◌, ◌/◌, ◌%◌, ◌≤◌, ◌<◌, ◌≡◌, ◌⊎◌, refl, String, ◌∷◌, ◌++◌, leb, arith,
  Bool-cases, inl, inr,
}
use llm_hub.Base.Text.{codes}
use llm_hub.Number.{print}
use native.Mathlib.Nat.{mul-div-le, lt-mul-div-succ}
use llm_hub.Web.Format.{units, larger_units, scale, tenths, format_bytes}

-- `t` tenths of the unit d: at most half a tenth from n.
pub IsNearest : ℕ → ℕ → ℕ → Type 0
IsNearest n d t = (20 * n ≤ 2 * (t * d) + d) × (2 * (t * d) ≤ 20 * n + d)

tenths-IsNearest : (n d : ℕ) → 0 < d → IsNearest n d (tenths n d)
unfolding IsNearest
tenths-IsNearest n d h =
    let low = mul-div-le (20 * n + d) (2 * d) in
    let high = lt-mul-div-succ (20 * n + d) {b = 2 * d} (omega arith) in
    (grind (arith, low, high), grind (arith, low, high))

-- The loop stops at the unit that fits, and at the last one.
IsScaled : ℕ → ℕ × String → Type 0
IsScaled n (d, unit) =
    (k : ℕ) × ((1 ≤ k)
      × (k ≤ 4)
      × (d ≡ 1024 ^ k)
      × (1024 ^ k ≤ n)
      × ((k ≡ 4) ⊎ (n < 1024 * 1024 ^ k))
      × (nth k units ≡ some unit)
      × (0 < d))

scale-kib : (n : ℕ) → 1024 ≤ n → n < 1024 ^ 2 → scale larger_units n 1 "B" ≡ (1024, "KiB")
unfolding scale
scale-kib n low high = ground arith

scale-mib : (n : ℕ) → 1024 ^ 2 ≤ n → n < 1024 ^ 3 → scale larger_units n 1 "B" ≡ (1024 ^ 2, "MiB")
unfolding scale
scale-mib n low high = ground arith

scale-gib : (n : ℕ) → 1024 ^ 3 ≤ n → n < 1024 ^ 4 → scale larger_units n 1 "B" ≡ (1024 ^ 3, "GiB")
unfolding scale
scale-gib n low high = ground arith

scale-tib : (n : ℕ) → 1024 ^ 4 ≤ n → scale larger_units n 1 "B" ≡ (1024 ^ 4, "TiB")
unfolding scale
scale-tib n low = ground arith

scale-IsScaled : (n : ℕ) → 1024 ≤ n → IsScaled n (scale larger_units n 1 "B")
unfolding IsScaled
scale-IsScaled n h = elim (Bool-cases (leb (1024 ^ 2) n)) [
  | inr small ↦
      let below : n < 1024 ^ 2 = ground (arith, small) in
      rw (scale-kib n h below)
        (1, (omega arith, omega arith, refl, omega arith, inr (omega arith), refl, omega arith))
  | inl two ↦ elim (Bool-cases (leb (1024 ^ 3) n)) [
    | inr small ↦
        let below : (1024 ^ 2 ≤ n) × (n < 1024 ^ 3) = ground (arith, two, small) in
        rw (scale-mib n below.0 below.1)
          (2, (omega arith, omega arith, refl, below.0, inr below.1, refl, omega arith))
    | inl three ↦ elim (Bool-cases (leb (1024 ^ 4) n)) [
      | inr small ↦
          let below : (1024 ^ 3 ≤ n) × (n < 1024 ^ 4) = ground (arith, three, small) in
          rw (scale-gib n below.0 below.1)
            (3, (omega arith, omega arith, refl, below.0, inr below.1, refl, omega arith))
      | inl four ↦
          let above : 1024 ^ 4 ≤ n = ground (arith, four) in
          rw (scale-tib n above)
            (4, (omega arith, omega arith, refl, above, inl refl, refl, omega arith))
    ]
  ]
]

-- A byte count below 1024 is shown as it is; a larger one in the unit from KiB to TiB that it
-- fills, and short of TiB does not fill 1024 times, with one decimal that is at most half a tenth
-- of the unit away from the count.
pub format_bytes_lem :
    (n : ℕ)
    → (n < 1024 → format_bytes n ≡ print n ++ b' ' ∷ codes "B")
      × (1024 ≤ n
          → (k t : ℕ) × (unit : String) × ((1 ≤ k)
              × (k ≤ 4)
              × (1024 ^ k ≤ n)
              × ((k ≡ 4) ⊎ (n < 1024 * 1024 ^ k))
              × (nth k units ≡ some unit))
            × (format_bytes n ≡ (print (t / 10) ++ b'.' ∷ print (t % 10)) ++ b' ' ∷ codes unit)
            × IsNearest n (1024 ^ k) t)
unfolding format_bytes IsScaled
format_bytes_lem n = (
  λ small. ground (arith, small),
  λ large.
      let s = scale larger_units n 1 "B" in
      let (k, (least, most, divisor, fits, last, named, positive)) = scale-IsScaled n large in
      (
        k,
        tenths n s.0,
        s.1,
        (least, most, fits, last, named),
        ground (arith, large),
        rw (← divisor) (tenths-IsNearest n s.0 positive),
      ),
)
