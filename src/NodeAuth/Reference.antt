-- ===== src/NodeAuth/Reference.antt =====
-- The interfaces of node authentication met by plain functions, for concrete runs: a list of keys
-- with their ends for Redis, decimal numbers, and signatures that are as long as the text.
use llm_hub.Base.{
  ℕ, ◌+◌, ◌-◌, ◌*◌, ◌<◌, ◌≡◌, refl, Bool, true, false, not, ◌&&◌, ◌||◌, none, some, List, [], ◌∷◌,
  any, eqb, arith, Bool-cases, inl, inr, length, if◌then◌else◌,
}
use llm_hub.Base.Int.{ℤ, pos, ◌+ℤ◌, ◌≤ℤ◌, ltb_ℤ, +ℤ_parts}
use llm_hub.NodeAuth.{Redis, Platform}

unfoldable pub same_bytes : List ℕ → List ℕ → Bool
same_bytes [] [] = true
same_bytes (a ∷ xs) (b ∷ ys) = eqb a b && same_bytes xs ys
same_bytes _ _ = false

pub same_bytes_refl : (xs : List ℕ) → same_bytes xs xs ≡ true
unfolding same_bytes
same_bytes_refl [] = refl
same_bytes_refl (x ∷ xs) = ground (arith, same_bytes_refl xs)

abbrev Entries : Type 0
Entries = List (List ℕ × ℤ)

abbrev pub is_held : List ℕ → ℤ → Entries → Bool
is_held key t s = any (λ e. same_bytes e.0 key && not (ltb_ℤ e.1 t)) s

abbrev pub set_entry : ℤ → List ℕ → ℕ → Entries → Entries × Bool
set_entry now key ttl s =
    if is_held key now s then (s, false) else ((key, now +ℤ pos ttl) ∷ s, true)

pub set_entry_refused :
    (now : ℤ) (key : List ℕ) (ttl : ℕ) (s : Entries)
    → (set_entry now key ttl s).1 ≡ false
    → (set_entry now key ttl s).0 ≡ s
set_entry_refused now key ttl s e = elim (Bool-cases (is_held key now s)) [
  | inl held ↦ rw held
  | inr free ↦ absurd (ground (arith, free))
]

pub set_entry_answer :
    (now : ℤ) (key : List ℕ) (ttl : ℕ) (s : Entries)
    → (set_entry now key ttl s).1 ≡ not (is_held key now s)
set_entry_answer now key ttl s = elim (Bool-cases (is_held key now s)) [
  | inl held ↦ rw held
  | inr free ↦ rw free
]

pub set_entry_done :
    (now later : ℤ) (key : List ℕ) (ttl : ℕ) (s : Entries)
    → 0 < ttl
    → (set_entry now key ttl s).1 ≡ true
    → later ≤ℤ now +ℤ pos ttl
    → is_held key later (set_entry now key ttl s).0 ≡ true
set_entry_done now later key ttl s positive e soon = elim (Bool-cases (is_held key now s)) [
  | inl held ↦ absurd (ground (arith, held))
  | inr free ↦ rw free (ground (arith, same_bytes_refl key, soon))
]

pub set_entry_keeps :
    (now later : ℤ) (key other : List ℕ) (ttl : ℕ) (s : Entries)
    → is_held other later s ≡ true
    → is_held other later (set_entry now key ttl s).0 ≡ true
set_entry_keeps now later key other ttl s h = elim (Bool-cases (is_held key now s)) [
  | inl held ↦ rw held h
  | inr free ↦ rw free (ground (arith, h))
]

abbrev pub memory : Redis
memory = record {
  Store = Entries;
  holds = is_held;
  set_nx = set_entry;
  set_nx-holds = set_entry_answer;
  set_nx_refused = set_entry_refused;
  set_nx_done = set_entry_done;
  set_nx_keeps = set_entry_keeps;
}

abbrev pub decimal : ℕ → List ℕ → ℕ
decimal n [] = n
decimal n (c ∷ cs) = decimal (n * 10 + (c - b'0')) cs

abbrev pub is_apart : ℤ → ℤ → ℕ → Bool
is_apart now at skew = ltb_ℤ (at +ℤ pos skew) now || ltb_ℤ (now +ℤ pos skew) at

pub is_apart_lem :
    (now later at : ℤ) (skew : ℕ)
    → is_apart now at skew ≡ false
    → is_apart later at skew ≡ false
    → later ≤ℤ now +ℤ pos (skew * 2)
is_apart_lem now later at skew h k = ground (
  arith,
  h,
  k,
  +ℤ_parts at (pos skew),
  +ℤ_parts now (pos skew),
  +ℤ_parts later (pos skew),
  +ℤ_parts now (pos (skew * 2)),
)

-- Every node id is that of the row n1.
abbrev pub plain : Platform
plain = record {
  Time = ℤ;
  number = λ text. some (pos (decimal 0 text));
  is_off = is_apart;
  is_off_lem = is_apart_lem;
  utf8 = λ text. text;
  base64url = λ text. text;
  Key = List ℕ;
  create_public_key = λ der. if eqb (length der) 44 then some der else none;
  verify = λ text key signature. some (eqb (length text) (length signature));
  uuid_in = λ text. "n1";
}
