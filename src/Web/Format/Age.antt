-- ===== src/Web/Format/Age.antt =====
-- How far an age that is shown lies from the age.
use llm_hub.Base.{
  zero, suc, ℕ, ◌+◌, ◌*◌, ◌≤◌, ◌<◌, ◌≡◌, ◌≢◌, ◌⊎◌, refl, String, List, ◌++◌, ltb, arith, Bool-cases,
  inl, inr,
}
use llm_hub.Base.Int.{ℤ, pos, negsuc, pos_part, ◌-ℤ◌}
use llm_hub.Base.Text.{codes}
use llm_hub.Number.{print}
use llm_hub.Web.Format.{rounded, ago, format_relative_time}

-- `text` says n units of `size`, between `first` and `limit`, at most `error` from the age.
pub record Says (text : List ℕ) (age size first limit error : ℕ) (suffix : String) : Type 0 where
  pub n : ℕ
  pub reads : text ≡ print n ++ codes suffix
  pub least : first ≤ n
  pub below : n < limit
  pub low : n * size ≤ age + error
  pub high : age ≤ n * size + error

rounded-near : (n : ℕ) → (rounded n 60 * 60 ≤ n + 30) × (n ≤ rounded n 60 * 60 + 30)
rounded-near n = (omega arith, omega arith)

-- A later unit begins where the one before it ends.
pub SaysAge : List ℕ → ℕ → Type 0
SaysAge text age =
    Says text age 1000 0 60 500 "s ago"
    ⊎ Says text age 60000 1 60 30500 "m ago"
    ⊎ Says text age 3600000 1 24 1830500 "h ago"
    ⊎ ((limit : ℕ) × Says text age 86400000 1 limit 45030500 "d ago")

ago_lem : (age : ℕ) → SaysAge (ago (rounded age 1000)) age
unfolding ago SaysAge
ago_lem age =
    let seconds = rounded age 1000 in
    let minutes = rounded seconds 60 in
    let hours = rounded minutes 60 in
    let days = rounded hours 24 in
    elim (Bool-cases (ltb seconds 60)) [
      | inl s ↦ inl (record {
        n = seconds;
        reads = rw s refl;
        least = omega arith;
        below = ground (arith, s);
        low = omega arith;
        high = omega arith;
      })
      | inr s ↦ elim (Bool-cases (ltb minutes 60)) [
        | inl m ↦ inr (
            inl (record {
              n = minutes;
              reads = rw (s, m) refl;
              least = ground (arith, m);
              below = ground (arith, m);
              low = omega arith;
              high = omega arith;
            }))
        | inr m ↦ elim (Bool-cases (ltb hours 24)) [
          | inl h ↦ inr (
              inr (
                inl (record {
                  n = hours;
                  reads = rw (s, m, h) refl;
                  least = ground (arith, h);
                  below = ground (arith, h);
                  low = omega arith;
                  high = omega arith;
                })))
          | inr h ↦ inr (
              inr (
                inr (
                  days + 1,
                  record {
                    n = days;
                    reads = rw (s, m, h) refl;
                    least = ground (arith, s, m, h);
                    below = omega arith;
                    low = omega arith;
                    high = omega arith;
                  },
                )))
        ]
      ]
    ]

-- The time zero is never; any other is an age.
pub format_relative_time_lem :
    (unix_ms now : ℤ)
    → (unix_ms ≡ pos 0 → format_relative_time unix_ms now ≡ codes "never")
      × (unix_ms ≢ pos 0 → SaysAge (format_relative_time unix_ms now) (pos_part (now -ℤ unix_ms)))
unfolding format_relative_time ◌-ℤ◌
format_relative_time_lem (pos zero) now = (λ h. refl, λ h. absurd (h refl))
format_relative_time_lem (pos (suc n)) now = (λ h. absurd (cc h), λ h. ago_lem _)
format_relative_time_lem (negsuc n) now = (λ h. absurd (cc h), λ h. ago_lem _)
