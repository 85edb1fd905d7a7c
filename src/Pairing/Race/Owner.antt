-- ===== src/Pairing/Race/Owner.antt =====
-- Which call owns a code, and what holds of the codes and the calls at every moment.
use llm_hub.Base.{
  ℕ, ◌≡◌, ◌≢◌, ◌⊎◌, refl, sym, ◌∙◌, ap, String, Bool, true, false, Option, none, some, List, any,
  change, eqb, arith, Bool-cases, inl, inr,
}
use llm_hub.Base.Distinct.{Distinct-change}
use llm_hub.Base.Int.{ℤ}
use llm_hub.Pairing.{PairingError, Redeemed, has_hash, has_id, is_claimable, set_used}
use llm_hub.Result.{Result, ok, err}
use llm_hub.Schema.{PairingRow}
use llm_hub.Pairing.Race.{Call, claimed, answered, set_call, HasIds}
use llm_hub.Pairing.Race.Codes.{OnlyHash}

-- The hash of the code that a call has claimed and not given back.
abbrev pub owns : Call → Option String
owns (claimed hash (some r)) = some hash
owns (answered hash (ok v)) = some hash
owns _ = none

pub record Inv (rows : List PairingRow) (calls : ℕ → Call) : Type 0 where
  pub ids : HasIds rows
  pub used :
      (i : ℕ) (hash : String) → owns (calls i) ≡ some hash → any (is_claimable hash) rows ≡ false
  pub known : (i : ℕ) (hash : String) → owns (calls i) ≡ some hash → any (has_hash hash) rows ≡ true
  pub only :
      (i j : ℕ) (hash : String) → owns (calls i) ≡ some hash → owns (calls j) ≡ some hash → i ≡ j
  pub held :
      (i : ℕ) (hash : String) (r : PairingRow)
      → calls i ≡ claimed hash (some r)
      → OnlyHash r.id hash rows × (any (has_id r.id) rows ≡ true)

pub set_call-cases :
    (calls : ℕ → Call) (i j : ℕ) (c : Call)
    → ((i ≡ j) × (set_call calls i c j ≡ c)) ⊎ ((i ≢ j) × (set_call calls i c j ≡ calls j))
set_call-cases calls i j c = elim (Bool-cases (eqb i j)) [
  | inl same ↦ inl (ground (arith, same), rw same)
  | inr other ↦ inr (ground (arith, other), rw other)
]

pub set_used-HasIds :
    (p : PairingRow → Bool) (used : Option ℤ) (rows : List PairingRow)
    → HasIds rows
    → HasIds (change p (set_used used) rows)
set_used-HasIds p used rows =
    Distinct-change (λ r s. has_id r.id s) p (set_used used) rows (λ r s. refl) (λ r s. refl)

owns-answered :
    (hash h : String) (result : Result PairingError Redeemed)
    → owns (answered hash result) ≡ some h
    → hash ≡ h
owns-answered hash h (ok v) e = ground arith
owns-answered hash h (err c) e = cc

pub owns-claimed :
    (hash h : String) (row : Option PairingRow)
    → owns (claimed hash row) ≡ some h
    → (hash ≡ h) × (r : PairingRow) × (row ≡ some r)
owns-claimed hash h none e = cc
owns-claimed hash h (some r) e = (ground arith, r, refl)

-- A call that goes on without gaining anything.
pub settled-Inv :
    (rows : List PairingRow) (calls : ℕ → Call) (i : ℕ) (hash : String) (row : Option PairingRow)
    (result : Result PairingError Redeemed)
    → calls i ≡ claimed hash row
    → (owns (answered hash result) ≡ none) ⊎ (owns (calls i) ≡ some hash)
    → Inv rows calls
    → Inv rows (set_call calls i (answered hash result))
settled-Inv rows calls i hash row result at gain inv = record {
  ids = inv.ids;
  used = λ j h o. inv.used j h (before j h o);
  known = λ j h o. inv.known j h (before j h o);
  only = λ j k h o o'. inv.only j k h (before j h o) (before k h o');
  held = λ j h r e. elim (set_call-cases calls i j (answered hash result)) [
    | inl (same, now) ↦ absurd (cc (now, e))
    | inr (other, old) ↦ inv.held j h r (sym old ∙ e)
  ];
}
  where
    before :
        (j : ℕ) (h : String)
        → owns (set_call calls i (answered hash result) j) ≡ some h
        → owns (calls j) ≡ some h
    before j h o = elim (set_call-cases calls i j (answered hash result)) [
      | inr (other, old) ↦ rw (← old) o
      | inl (same, now) ↦ elim gain [
        | inl nothing ↦ absurd (cc (sym (ap owns now) ∙ o, nothing))
        | inr mine ↦
            let it : owns (answered hash result) ≡ some h = sym (ap owns now) ∙ o in
            ap (λ k. owns (calls k)) (sym same)
            ∙ (mine ∙ ap (λ x. some x) (owns-answered hash h result it))
      ]
    ]
