-- ===== src/Uuid.antt =====
-- packages/db/src/client.ts, `isUuid`: the shape of an id that arrives from outside.
use mathlib.Core.List.{append-nil}
use llm_hub.Base.{
  ℕ, zero, suc, ◌≡◌, ◌↔◌, refl, Bool, true, false, ◌&&◌, ◌||◌, Option, none, some, List, [], ◌∷◌,
  ◌++◌, ap, ◌∙◌, length, leb, eqb, All, arith, if◌then◌else◌, Bool-cases, Option-cases, inl, inr,
}

-- `[0-9a-f]`, with the flag i.
abbrev pub is_hex : ℕ → Bool
is_hex c = (leb b'0' c && leb c b'9') || ((leb b'a' c && leb c b'f') || (leb b'A' c && leb c b'F'))

-- What follows n hex digits, or a dash.
unfoldable pub after_hex : ℕ → List ℕ → Option (List ℕ)
after_hex zero cs = some cs
after_hex (suc n) [] = none
after_hex (suc n) (c ∷ cs) = let rest = after_hex n cs in if is_hex c then rest else none

-- Groups of so many hex digits, with dashes between them, to the end.
unfoldable pub is_grouped : ℕ → List ℕ → List ℕ → Bool
unfolding after_hex
is_grouped n [] cs = elim (after_hex n cs) [
  | none ↦ false
  | some [] ↦ true
  | some (c ∷ rest) ↦ false
]
is_grouped n (m ∷ ms) cs = elim (after_hex n cs) [
  | none ↦ false
  | some [] ↦ false
  | some (c ∷ rest) ↦ eqb c b'-' && is_grouped m ms rest
]

unfoldable pub is_uuid : List ℕ → Bool
unfolding is_grouped
is_uuid value = is_grouped 8 (4 ∷ 4 ∷ 4 ∷ 12 ∷ []) value

abbrev pub AreHex : ℕ → List ℕ → Type 0
AreHex n group = (length group ≡ n) × All (λ c. is_hex c ≡ true) group

after_hex-eq-some :
    (n : ℕ) (cs rest : List ℕ)
    → after_hex n cs ≡ some rest
    → (group : List ℕ) × AreHex n group × (cs ≡ group ++ rest)
unfolding after_hex
after_hex-eq-some zero cs rest e = ([], (refl, tt), ground arith)
after_hex-eq-some (suc n) [] rest e = cc
after_hex-eq-some (suc n) (c ∷ cs) rest e = elim (Bool-cases (is_hex c)) [
  | inl hex ↦
      let (group, (size, all), same) = after_hex-eq-some n cs rest (ground (arith, hex)) in
      (c ∷ group, (ap suc size, (hex, all)), ap (λ x. c ∷ x) same)
  | inr other ↦ absurd (ground (arith, other))
]

after_hex-append :
    (n : ℕ) (group rest : List ℕ) → AreHex n group → after_hex n (group ++ rest) ≡ some rest
unfolding after_hex
after_hex-append zero [] rest h = refl
after_hex-append zero (c ∷ group) rest h = absurd (ground (arith, h.0))
after_hex-append (suc n) [] rest h = absurd (ground (arith, h.0))
after_hex-append (suc n) (c ∷ group) rest h =
    rw (h.1.0) (after_hex-append n group rest (omega (arith, h.0), h.1.1))

-- A text of groups of hex digits of these sizes, with dashes between them.
abbrev pub Grouped : ℕ → List ℕ → List ℕ → Type 0
Grouped n [] cs = AreHex n cs
Grouped n (m ∷ ms) cs =
    (group rest : List ℕ) × AreHex n group × (cs ≡ group ++ b'-' ∷ rest) × Grouped m ms rest

is_grouped_iff : (n : ℕ) (ms cs : List ℕ) → (is_grouped n ms cs ≡ true) ↔ Grouped n ms cs
unfolding is_grouped
is_grouped_iff n [] cs = (
  λ e. elim (Option-cases (after_hex n cs)) [
    | inl bad ↦ absurd (ground (arith, bad))
    | inr ([], found) ↦
        let (group, hex, same) = after_hex-eq-some n cs [] found in rw (same ∙ append-nil group) hex
    | inr (c ∷ rest, found) ↦ absurd (ground (arith, found))
  ],
  λ h. rw (← append-nil cs, after_hex-append n cs [] h, is_grouped),
)
is_grouped_iff n (m ∷ ms) cs = (
  λ e. elim (Option-cases (after_hex n cs)) [
    | inl bad ↦ absurd (ground (arith, bad))
    | inr ([], found) ↦ absurd (ground (arith, found))
    | inr (c ∷ rest, found) ↦
        let (group, hex, same) = after_hex-eq-some n cs (c ∷ rest) found in
        let dash : c ≡ b'-' = ground (arith, found) in
        let more : is_grouped m ms rest ≡ true = ground (arith, found) in
        (group, rest, hex, rw (← dash) same, (is_grouped_iff m ms rest).0 more)
  ],
  λ (group, rest, hex, same, more).
      rw (same, after_hex-append n group (b'-' ∷ rest) hex, is_grouped)
        ((is_grouped_iff m ms rest).1 more),
)

-- A text has the shape of a uuid exactly when it is groups of 8, 4, 4, 4 and 12 hex digits of
-- either case with dashes between them and nothing else.
pub is_uuid_iff : (value : List ℕ) → (is_uuid value ≡ true) ↔ Grouped 8 (4 ∷ 4 ∷ 4 ∷ 12 ∷ []) value
unfolding is_uuid
is_uuid_iff value = is_grouped_iff 8 (4 ∷ 4 ∷ 4 ∷ 12 ∷ []) value
