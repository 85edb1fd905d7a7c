-- ===== src/Agent/Base64.antt =====
-- `base64.RawURLEncoding` as agent/internal/transport/client.go uses it: no padding, and `-` and `_`
-- for the last two digits. The decoder stands for what the control plane's runtime does.
use llm_hub.Agent.{IsByte}
use llm_hub.Base.{
  ℕ, ◌+◌, ◌-◌, ◌*◌, ◌/◌, ◌%◌, ◌<◌, ◌≡◌, refl, false, List, [], ◌∷◌, any, ltb, eqb, All, arith,
  if◌then◌else◌,
}

unfoldable pub digit : ℕ → ℕ
digit n =
    if ltb n 26
    then b'A' + n
    else if ltb n 52
    then b'a' + (n - 26)
    else if ltb n 62
    then b'0' + (n - 52)
    else if eqb n 62
    then b'-'
    else b'_'

unfoldable pub encode : List ℕ → List ℕ
encode [] = []
encode (a ∷ []) = digit (a / 4) ∷ digit (a % 4 * 16) ∷ []
encode (a ∷ b ∷ []) = digit (a / 4) ∷ digit (a % 4 * 16 + b / 16) ∷ digit (b % 16 * 4) ∷ []
encode (a ∷ b ∷ c ∷ rest) =
    digit (a / 4)
    ∷ digit (a % 4 * 16 + b / 16)
    ∷ digit (b % 16 * 4 + c / 64)
    ∷ digit (c % 64)
    ∷ encode rest

unfoldable pub digit_value : ℕ → ℕ
digit_value c =
    if eqb c b'-'
    then 62
    else if eqb c b'_'
    then 63
    else if ltb c b'A'
    then c - b'0' + 52
    else if ltb c b'a'
    then c - b'A'
    else c - b'a' + 26

unfoldable pub decode : List ℕ → List ℕ
decode (p ∷ q ∷ r ∷ s ∷ rest) =
    (digit_value p * 4 + digit_value q / 16)
    ∷ (digit_value q % 16 * 16 + digit_value r / 4)
    ∷ (digit_value r % 4 * 64 + digit_value s)
    ∷ decode rest
decode (p ∷ q ∷ r ∷ []) =
    (digit_value p * 4 + digit_value q / 16) ∷ (digit_value q % 16 * 16 + digit_value r / 4) ∷ []
decode (p ∷ q ∷ []) = (digit_value p * 4 + digit_value q / 16) ∷ []
decode _ = []

digit_value-digit : (n : ℕ) → n < 64 → digit_value (digit n) ≡ n
unfolding digit digit_value
digit_value-digit n h = ground arith

pub decode-encode : (bs : List ℕ) → All IsByte bs → decode (encode bs) ≡ bs
unfolding encode decode
decode-encode [] h = refl
decode-encode (a ∷ []) h =
    ground (arith, h, digit_value-digit (a / 4), digit_value-digit (a % 4 * 16))
decode-encode (a ∷ b ∷ []) h = ground (
  arith,
  h,
  digit_value-digit (a / 4),
  digit_value-digit (a % 4 * 16 + b / 16),
  digit_value-digit (b % 16 * 4),
)
decode-encode (a ∷ b ∷ c ∷ rest) h = ground (
  arith,
  h,
  digit_value-digit (a / 4),
  digit_value-digit (a % 4 * 16 + b / 16),
  digit_value-digit (b % 16 * 4 + c / 64),
  digit_value-digit (c % 64),
  decode-encode rest h.1.1.1,
)

pub digit_dot : (n : ℕ) → eqb (digit n) b'.' ≡ false
unfolding digit
digit_dot n = ground arith

-- The digits hold no dot.
pub encode_dot : (bs : List ℕ) → any (λ c. eqb c b'.') (encode bs) ≡ false
unfolding encode
encode_dot [] = refl
encode_dot (a ∷ []) = ground (arith, digit_dot (a / 4), digit_dot (a % 4 * 16))
encode_dot (a ∷ b ∷ []) =
    ground (arith, digit_dot (a / 4), digit_dot (a % 4 * 16 + b / 16), digit_dot (b % 16 * 4))
encode_dot (a ∷ b ∷ c ∷ rest) = ground (
  arith,
  digit_dot (a / 4),
  digit_dot (a % 4 * 16 + b / 16),
  digit_dot (b % 16 * 4 + c / 64),
  digit_dot (c % 64),
  encode_dot rest,
)
