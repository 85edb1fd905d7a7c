-- ===== src/Account/Ids.antt =====
-- Different bytes make different ids, and an organization's id is no other's.
use llm_hub.Base.{
  ℕ, ◌*◌, ◌/◌, ◌%◌, ◌<◌, ◌≡◌, ◌≢◌, refl, sym, ◌∙◌, String, ◌==◌, List, [], ◌∷◌, ◌++◌, All, length,
  arith, Bool-cases, inl, inr,
}
use llm_hub.Base.Text.{codes}
use llm_hub.Account.{hex_digit, hex, generate_id}

abbrev pub AreBytes : List ℕ → Type 0
AreBytes = All (λ b. b < 256)

digit_injective : (a b : ℕ) → a < 16 → b < 16 → hex_digit a ≡ hex_digit b → a ≡ b
digit_injective a b ha hb e = ground (arith, e)

byte_injective :
    (a b : ℕ)
    → a < 256
    → b < 256
    → hex_digit (a / 16) ≡ hex_digit (b / 16)
    → hex_digit (a % 16) ≡ hex_digit (b % 16)
    → a ≡ b
byte_injective a b ha hb high low =
    let h = digit_injective (a / 16) (b / 16) (omega arith) (omega arith) high in
    let l = digit_injective (a % 16) (b % 16) (omega arith) (omega arith) low in omega (arith, h, l)

hex_injective : (xs ys : List ℕ) → AreBytes xs → AreBytes ys → hex xs ≡ hex ys → xs ≡ ys
unfolding hex
hex_injective [] [] hx hy e = refl
hex_injective [] (y ∷ ys) hx hy e = absurd (cc e)
hex_injective (x ∷ xs) [] hx hy e = absurd (cc e)
hex_injective (x ∷ xs) (y ∷ ys) hx hy e =
    let high : hex_digit (x / 16) ≡ hex_digit (y / 16) = cc e in
    let low : hex_digit (x % 16) ≡ hex_digit (y % 16) = cc e in
    let rest : hex xs ≡ hex ys = cc e in
    let first = byte_injective x y hx.0 hy.0 high low in
    cc (first, hex_injective xs ys hx.1 hy.1 rest)

length-hex : (xs : List ℕ) → length (hex xs) ≡ 2 * length xs
unfolding hex
length-hex [] = omega arith
length-hex (x ∷ xs) = omega (arith, length-hex xs)

-- No id of bytes begins like an organization's.
hex-org : (xs ys : List ℕ) → AreBytes xs → hex xs ≢ codes "org_" ++ hex ys
unfolding hex
hex-org [] ys h = λ e. absurd (cc e)
hex-org (x ∷ xs) ys h =
    λ e. let first : hex_digit (x / 16) ≡ b'o' = cc e in ground (arith, first, h.0)

-- Equal ids were made of equal random bytes, and either both for organizations or both for other
-- records: different bytes never make the same id, and no id of an organization is the id of
-- anything else.
pub generate_id_injective :
    (xs ys : List ℕ) (model other : String)
    → AreBytes xs
    → AreBytes ys
    → generate_id xs model ≡ generate_id ys other
    → (xs ≡ ys) × ((model == "organization") ≡ (other == "organization"))
unfolding generate_id
generate_id_injective xs ys model other hx hy e = elim (Bool-cases (model == "organization")) [
  | inl m ↦ elim (Bool-cases (other == "organization")) [
    | inl o ↦
        let same : hex xs ≡ hex ys = ground (arith, e, m, o) in
        (hex_injective xs ys hx hy same, m ∙ sym o)
    | inr o ↦ absurd (hex-org ys xs hy (ground (arith, e, m, o)))
  ]
  | inr m ↦ elim (Bool-cases (other == "organization")) [
    | inl o ↦ absurd (hex-org xs ys hx (ground (arith, e, m, o)))
    | inr o ↦
        let same : hex xs ≡ hex ys = ground (arith, e, m, o) in
        (hex_injective xs ys hx hy same, m ∙ sym o)
  ]
]
