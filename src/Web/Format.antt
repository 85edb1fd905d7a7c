-- ===== src/Web/Format.antt =====
-- apps/web/src/format.ts. A bigint goes through `Number`, which is exact up to 2 ^ 53; dividing by
-- 1024 is exact, and so is `Math.round` on quotients of times this side of the year 10000.
pub mod Bytes
pub mod Age
use llm_hub.Base.{
  ℕ, zero, ◌+◌, ◌*◌, ◌/◌, ◌%◌, String, Bool, true, false, List, [], ◌∷◌, ◌++◌, ltb, leb,
  if◌then◌else◌,
}
use llm_hub.Base.Int.{ℤ, pos, negsuc, pos_part, ◌-ℤ◌}
use llm_hub.Base.Text.{codes}
use llm_hub.Number.{print}

-- What follows the bytes.
abbrev pub larger_units : List String
larger_units = "KiB" ∷ "MiB" ∷ "GiB" ∷ "TiB" ∷ []

abbrev pub units : List String
units = "B" ∷ larger_units

-- The loop on the units that are left: `value` is n / d. Gives the last divisor and its unit.
unfoldable pub scale : List String → ℕ → ℕ → String → ℕ × String
scale [] n d unit = (d, unit)
scale (next ∷ left) n d unit =
    let rest = scale left n (1024 * d) next in if leb (1024 * d) n then rest else (d, unit)

-- `value.toFixed(1)` at n / d: the nearest tenth, the larger one of two.
abbrev pub tenths : ℕ → ℕ → ℕ
tenths n d = (20 * n + d) / (2 * d)

abbrev pub fixed : ℕ → List ℕ
fixed t = print (t / 10) ++ b'.' ∷ print (t % 10)

abbrev pub in_unit : ℕ → ℕ × String → List ℕ
in_unit n (d, unit) = fixed (tenths n d) ++ b' ' ∷ codes unit

unfoldable pub format_bytes : ℕ → List ℕ
format_bytes n =
    if ltb n 1024 then print n ++ b' ' ∷ codes "B" else in_unit n (scale larger_units n 1 "B")

-- `Math.round` of a quotient of naturals.
abbrev pub rounded : ℕ → ℕ → ℕ
rounded n d = (2 * n + d) / (2 * d)

abbrev pub is_zero : ℤ → Bool
is_zero (pos zero) = true
is_zero _ = false

-- `Math.max(0, Math.round(… / 1000))`: a negative difference rounds to 0 or below.
abbrev pub seconds_since : ℤ → ℤ → ℕ
seconds_since unix_ms now = rounded (pos_part (now -ℤ unix_ms)) 1000

unfoldable pub ago : ℕ → List ℕ
ago seconds =
    let minutes = rounded seconds 60 in
    let hours = rounded minutes 60 in
    if ltb seconds 60
    then print seconds ++ codes "s ago"
    else if ltb minutes 60
    then print minutes ++ codes "m ago"
    else if ltb hours 24
    then print hours ++ codes "h ago"
    else print (rounded hours 24) ++ codes "d ago"

unfoldable pub format_relative_time : ℤ → ℤ → List ℕ
unfolding ◌-ℤ◌
format_relative_time unix_ms now =
    if is_zero unix_ms then codes "never" else ago (seconds_since unix_ms now)
