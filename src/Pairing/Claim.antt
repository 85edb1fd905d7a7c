-- ===== src/Pairing/Claim.antt =====
-- `redeemPairingCode` of domain/pairing.ts: what the claim of a pairing code finds and leaves, by the one row that the code stands for.
use llm_hub.Base.{
  ℕ, ◌≡◌, refl, ap, ◌∙◌, String, Bool, true, not, List, [], ◌∷◌, keep, change, keep-and, keep-holds,
  any-none, change-none, Option, none, some, Option-cases, Bool-cases, inl, inr, if◌then◌else◌,
  arith, Memᴰ,
}
use llm_hub.Base.Int.{ℤ, ltb_ℤ}
use llm_hub.Env.{Env}
use llm_hub.Result.{Result, ok, err}
use llm_hub.Schema.{PairingRow, Db}
use llm_hub.Sql.{Sql}
use llm_hub.Sql.Facts.{returning-nil, returning-singleton}
use llm_hub.Pairing.{
  Unicode, Hmac, hash_code, has_hash, has_id, is_unused, is_claimable, set_used, PairingError,
  already_used, unknown_code, expired, Redeemed, settle, redeem_pairing_code,
}

-- The one row that a test picks, if there is one.
abbrev pub one_row : Option PairingRow → List PairingRow
one_row none = []
one_row (some r) = r ∷ []

abbrev pub is_expired : ℤ → PairingRow → Bool
is_expired checked r = ltb_ℤ r.expires_at checked

-- What redeeming answers, by the row that the code stands for.
unfoldable pub redeemed : ℤ → Option PairingRow → Result PairingError Redeemed
redeemed checked none = err unknown_code
redeemed checked (some r) =
    if not (is_unused r)
    then err already_used
    else if is_expired checked r
    then err expired
    else ok (record { org_id = r.org_id; node_name = r.node_name })

pub keep-claimable :
    (hash : String) (o : Option PairingRow) (rows : List PairingRow)
    → keep (has_hash hash) rows ≡ one_row o
    → keep (is_claimable hash) rows ≡ keep is_unused (one_row o)
keep-claimable hash o rows e = keep-and (has_hash hash) is_unused rows ∙ ap (keep is_unused) e

-- Two tests that pick the same row of a table: claiming it and releasing it is doing nothing.
pub release-claim :
    (p : PairingRow → Bool) (id : String) (t : ℤ) (r : PairingRow) (rows : List PairingRow)
    → r.used_at ≡ none
    → keep p rows ≡ r ∷ []
    → keep (has_id id) rows ≡ r ∷ []
    → change (has_id id) (set_used none) (change p (set_used (some t)) rows) ≡ rows
release-claim p id t r [] unused ep eq = refl
release-claim p id t r (x ∷ rows) unused ep eq = elim (Bool-cases (p x)) [
  | inl here ↦
      let same : x ≡ r = ground (arith, here) in
      let id_of : has_id id x ≡ true = rw same (keep-holds (has_id id) r (x ∷ rows) eq) in
      let no_more =
        change-none p (set_used (some t)) rows (any-none p rows (ground (arith, here))) in
      let none_left =
        change-none (has_id id) (set_used none) rows
          (any-none (has_id id) rows (ground (arith, id_of))) in
      rw (here, no_more, id_of, none_left) (ground (arith, same))
  | inr there ↦ elim (Bool-cases (has_id id x)) [
    | inl here ↦
        let same : x ≡ r = ground (arith, here) in
        absurd (ground (arith, there, rw (← same) at (keep-holds p r (x ∷ rows) ep)))
    | inr elsewhere ↦
        rw (there, elsewhere)
          (ap (λ l. x ∷ l)
            (release-claim p id t r rows unused (ground (arith, there))
              (ground (arith, elsewhere))))
  ]
]

-- The claim leaves every other code as it was.
pub keep-claim :
    (hash : String) (t : ℤ) (rows : List PairingRow)
    → (keep (has_hash hash) (change (is_claimable hash) (set_used (some t)) rows)
        ≡ change is_unused (set_used (some t)) (keep (has_hash hash) rows))
      × (keep (λ r. not (has_hash hash r)) (change (is_claimable hash) (set_used (some t)) rows)
          ≡ keep (λ r. not (has_hash hash r)) rows)
keep-claim hash t [] = (refl, refl)
keep-claim hash t (r ∷ rows) = ground (arith, keep-claim hash t rows)

not_listed :
    (p : PairingRow → Bool) (s : PairingRow) (rows : List PairingRow)
    → keep p rows ≡ []
    → ¬ ((p s ≡ true) × Memᴰ s rows)
not_listed p s [] e (holds, m) = elim m [ ]
not_listed p s (x ∷ rows) e (holds, Memᴰ.head same) = ground (arith, rw (same) at holds)
not_listed p s (x ∷ rows) e (holds, Memᴰ.tail m) = not_listed p s rows (ground arith) (holds, m)

module _ (unicode : Unicode) (hmac : Hmac) (sql : Sql) (env : Env) where
  pub first-one :
      (p : PairingRow → Bool) (rows : List PairingRow)
      → (keep p rows ≡ [] → sql.first p rows ≡ none)
        × ((r : PairingRow) → keep p rows ≡ r ∷ [] → (s : PairingRow) × (sql.first p rows ≡ some s))
  first-one p rows = elim (Option-cases (sql.first p rows)) [
    | inl missing ↦ (λ e. missing, λ r e. absurd (ground (arith, sql.first-none p rows missing)))
    | inr (s, found) ↦
        (λ e. absurd (not_listed p s rows e (sql.first-some p rows s found)), λ r e. (s, found))
  ]

  -- A claim that finds nothing changes nothing.
  pub claim-nothing :
      (claimed checked : ℤ) (code : List ℕ) (db : Db)
      → keep (is_claimable (hash_code unicode hmac env code)) db.pairing_codes ≡ []
      → redeem_pairing_code unicode hmac sql env claimed checked code db
        ≡ settle unicode hmac sql env checked (hash_code unicode hmac env code) none db
  unfolding redeem_pairing_code
  claim-nothing claimed checked code db none_left =
      let p = is_claimable (hash_code unicode hmac env code) in
      let set = set_used (some claimed) in
      let rows = db.pairing_codes in
      rw (
        returning-nil sql p set rows none_left,
        sql.update_lem,
        change-none p set rows (any-none p rows none_left),
      )

  pub claim-one :
      (claimed checked : ℤ) (code : List ℕ) (db : Db) (r : PairingRow)
      → keep (is_claimable (hash_code unicode hmac env code)) db.pairing_codes ≡ r ∷ []
      → redeem_pairing_code unicode hmac sql env claimed checked code db
        ≡ settle unicode hmac sql env checked
            (hash_code unicode hmac env code)
            (some (set_used (some claimed) r))
            (record db {
              pairing_codes =
                  change
                    (is_claimable (hash_code unicode hmac env code))
                    (set_used (some claimed))
                    db.pairing_codes;
            })
  unfolding redeem_pairing_code
  claim-one claimed checked code db r one =
      let p = is_claimable (hash_code unicode hmac env code) in
      rw
        (returning-singleton sql p (set_used (some claimed)) db.pairing_codes r one, sql.update_lem)
