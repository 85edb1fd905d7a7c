-- ===== src/Pairing/Codes.antt =====
-- `generateCode`, `normalize` and `hashCode` of domain/pairing.ts: codes as text.
use llm_hub.Base.{
  any, ℕ, zero, suc, ◌+◌, ◌<◌, ◌≡◌, refl, sym, Bool, true, false, not, ◌&&◌, ◌||◌, List, [], ◌∷◌,
  ◌++◌, map, keep, keep-append, length, eqb, if◌then◌else◌, All, arith,
}
use llm_hub.Env.{Env}
use llm_hub.Pairing.{
  Unicode, Hmac, alphabet, char_at, pick, generate_code, is_code_char, is_upper_case, upper_all,
  normalize, hash_code,
}
use mathlib.Core.List.{append_assoc}

abbrev pub IsCodeChar : ℕ → Type 0
IsCodeChar c = is_code_char c ≡ true

-- A letter or digit is its own upper case.
upper-IsCodeChar : (u : Unicode) (c : ℕ) → IsCodeChar c → u.upper c ≡ c ∷ []
upper-IsCodeChar u c h = ground (arith, u.upper_lem c)

upper_all-IsCodeChar :
    (u : Unicode) (code : List ℕ) → All IsCodeChar code → upper_all u.upper code ≡ code
upper_all-IsCodeChar u [] h = refl
upper_all-IsCodeChar u (c ∷ cs) h = rw (upper-IsCodeChar u c h.0, upper_all-IsCodeChar u cs h.1)

keep_id : (code : List ℕ) → All IsCodeChar code → keep is_code_char code ≡ code
keep_id [] h = refl
keep_id (c ∷ cs) h = ground (arith, keep_id cs h.1, h.0)

normalize-All : (u : Unicode) (code : List ℕ) → All IsCodeChar code → normalize u code ≡ code
unfolding normalize
normalize-All u code h = rw (upper_all-IsCodeChar u code h) (keep_id code h)

upper_all-append :
    (u : Unicode) (a b : List ℕ)
    → upper_all u.upper (a ++ b) ≡ upper_all u.upper a ++ upper_all u.upper b
upper_all-append u [] b = refl
upper_all-append u (c ∷ a) b =
    rw (upper_all-append u a b)
      (sym (append_assoc (u.upper c) (upper_all u.upper a) (upper_all u.upper b)))

normalize-append :
    (u : Unicode) (a b : List ℕ) → normalize u (a ++ b) ≡ normalize u a ++ normalize u b
unfolding normalize
normalize-append u a b =
    rw (upper_all-append u a b)
      (keep-append is_code_char (upper_all u.upper a) (upper_all u.upper b))

abbrev pub lower : ℕ → ℕ
lower c = if is_upper_case c then c + 32 else c

abbrev pub IsAscii : ℕ → Type 0
IsAscii c = c < 128

upper-lower : (u : Unicode) (c : ℕ) → IsAscii c → u.upper (lower c) ≡ u.upper c
upper-lower u c h = ground (arith, u.upper_lem c, u.upper_lem (c + 32))

upper_all-lower :
    (u : Unicode) (code : List ℕ)
    → All IsAscii code
    → upper_all u.upper (map lower code) ≡ upper_all u.upper code
upper_all-lower u [] h = refl
upper_all-lower u (c ∷ cs) h = rw (upper-lower u c h.0, upper_all-lower u cs h.1)

normalize-lower :
    (u : Unicode) (code : List ℕ)
    → All IsAscii code
    → normalize u (map lower code) ≡ normalize u code
unfolding normalize
normalize-lower u code h = rw (upper_all-lower u code h)

normalize-dash : (u : Unicode) (b : List ℕ) → normalize u (b'-' ∷ b) ≡ normalize u b
unfolding normalize
normalize-dash u b = rw (u.upper_lem b'-' (omega arith))

-- An ASCII code typed in lower case and without its dash has the hash of the code as shown.
pub hash_code_tolerant :
    (u : Unicode) (hmac : Hmac) (env : Env) (a b : List ℕ)
    → All IsAscii a
    → All IsAscii b
    → hash_code u hmac env (map lower a ++ map lower b) ≡ hash_code u hmac env (a ++ b'-' ∷ b)
unfolding hash_code
hash_code_tolerant u hmac env a b ha hb = rw (
  normalize-append u (map lower a) (map lower b),
  normalize-append u a (b'-' ∷ b),
  normalize-dash u b,
  normalize-lower u a ha,
  normalize-lower u b hb,
)

-- None of the letters and digits that are misread.
abbrev pub is_unambiguous : ℕ → Bool
is_unambiguous c = is_code_char c && not (eqb c b'I' || (eqb c b'O' || (eqb c b'0' || eqb c b'1')))

-- Every place of a list without misread characters holds one that is not.
read_at :
    (cs : List ℕ) (i : ℕ)
    → any (λ c. not (is_unambiguous c)) cs ≡ false
    → i < length cs
    → (c : ℕ) × (char_at cs i ≡ c ∷ []) × (is_unambiguous c ≡ true)
read_at [] i clear inside = absurd (omega arith)
read_at (c ∷ cs) zero clear inside = (c, refl, ground (arith, clear))
read_at (c ∷ cs) (suc i) clear inside = read_at cs i (ground (arith, clear)) (omega arith)

letter_at : (i : ℕ) → i < 32 → (c : ℕ) × (char_at alphabet i ≡ c ∷ []) × (is_unambiguous c ≡ true)
letter_at i h = read_at alphabet i refl h

abbrev pub IsUnambiguous : ℕ → Type 0
IsUnambiguous c = is_unambiguous c ≡ true

code_chars : (cs : List ℕ) → All IsUnambiguous cs → All IsCodeChar cs
code_chars [] h = tt
code_chars (c ∷ cs) h = (ground (arith, h.0), code_chars cs h.1)

pick_form :
    (random : ℕ → ℕ) (i : ℕ)
    → ((k : ℕ) → random k < 32)
    → (length (pick random i) ≡ 4) × All IsUnambiguous (pick random i)
unfolding pick
pick_form random i h =
    let (a, ea, ua) = letter_at (random i) (h i) in
    let (b, eb, ub) = letter_at (random (i + 1)) (h (i + 1)) in
    let (c, ec, uc) = letter_at (random (i + 2)) (h (i + 2)) in
    let (d, ed, ud) = letter_at (random (i + 3)) (h (i + 3)) in
    rw (ea, eb, ec, ed) (refl, (ua, (ub, (uc, (ud, tt)))))

-- Whatever the random numbers below 32, a generated code is two groups of four characters about a
-- dash, none of them I, O, 0 or 1, and normalizing it takes out the dash and nothing else.
pub generate_code_form :
    (u : Unicode) (random : ℕ → ℕ)
    → ((k : ℕ) → random k < 32)
    → (generate_code random ≡ pick random 0 ++ b'-' ∷ pick random 4)
      × (length (pick random 0) ≡ 4)
      × (length (pick random 4) ≡ 4)
      × All IsUnambiguous (pick random 0)
      × All IsUnambiguous (pick random 4)
      × (normalize u (generate_code random) ≡ pick random 0 ++ pick random 4)
unfolding generate_code
generate_code_form u random h =
    let (first_length, first) = pick_form random 0 h in
    let (last_length, last) = pick_form random 4 h in
    (
      refl,
      first_length,
      last_length,
      first,
      last,
      rw (
        normalize-append u (pick random 0) (b'-' ∷ pick random 4),
        normalize-dash u (pick random 4),
        normalize-All u (pick random 0) (code_chars (pick random 0) first),
        normalize-All u (pick random 4) (code_chars (pick random 4) last),
      ),
    )
