-- ===== src/Number.antt =====
-- A JavaScript number as text, where it is a natural or has two decimals.
pub mod Reading
use llm_hub.Base.{
  ℕ, zero, suc, ◌+◌, ◌-◌, ◌*◌, ◌/◌, ◌%◌, Bool, List, [], ◌∷◌, ◌++◌, ltb, eqb, if◌then◌else◌,
}

-- The digits of `n` before `out`.
unfoldable pub print_onto : ℕ → ℕ → List ℕ → List ℕ
print_onto zero n out = out
print_onto (suc fuel) n out =
    let rest = print_onto fuel (n / 10) ((b'0' + n % 10) ∷ out) in
    if ltb n 10 then (b'0' + n) ∷ out else rest

unfoldable pub print : ℕ → List ℕ
print n = print_onto (suc n) n []

-- The number `m / 100`: as many decimals as it has.
unfoldable pub print_hundredths : ℕ → List ℕ
print_hundredths m =
    if eqb (m % 100) 0
    then print (m / 100)
    else if eqb (m % 10) 0
    then print (m / 100) ++ b'.' ∷ (b'0' + m % 100 / 10) ∷ []
    else print (m / 100) ++ b'.' ∷ (b'0' + m % 100 / 10) ∷ (b'0' + m % 10) ∷ []

-- The number that digits stand for, after the digits of `acc`.
abbrev pub read_from : ℕ → List ℕ → ℕ
read_from acc [] = acc
read_from acc (c ∷ cs) = read_from (acc * 10 + (c - b'0')) cs

abbrev pub read : List ℕ → ℕ
read = read_from 0
