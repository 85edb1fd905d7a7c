-- ===== src/Number/Reading.antt =====
-- A printed number read back.
use llm_hub.Base.{
  ℕ, zero, suc, ◌*◌, ◌+◌, ◌/◌, ◌%◌, ◌<◌, ◌≡◌, List, [], ◌∷◌, ltb, arith, ap, ◌∙◌, Bool-cases, inl,
  inr,
}
use llm_hub.Number.{print_onto, print, read_from, read}

read-print_onto :
    (fuel n : ℕ) (out : List ℕ) → n < fuel → read (print_onto fuel n out) ≡ read_from n out
unfolding print_onto
read-print_onto zero n out h = absurd (omega arith)
read-print_onto (suc fuel) n out h = elim (Bool-cases (ltb n 10)) [
  | inl small ↦ rw small (ap (λ m. read_from m out) (omega arith))
  | inr large ↦
      let same : n / 10 * 10 + n % 10 ≡ n = omega arith in
      rw large (
        read-print_onto fuel (n / 10) ((b'0' + n % 10) ∷ out) (ground (arith, large))
        ∙ ap (λ m. read_from m out) (omega arith))
]

pub read-print : (n : ℕ) → read (print n) ≡ n
unfolding print
read-print n = read-print_onto (suc n) n [] (omega arith)
