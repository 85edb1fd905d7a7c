-- ===== src/Pairing/Redeem.antt =====
-- `redeemPairingCode` of domain/pairing.ts: its outcomes, and a code that is tried again.
use llm_hub.Base.{
  ℕ, ◌≡◌, refl, ap, ◌∙◌, String, true, false, List, [], ◌∷◌, keep, change, head, Option, none, some,
  Option-cases, Bool-cases, inl, inr, arith,
}
use llm_hub.Base.Int.{ℤ}
use llm_hub.Env.{Env}
use llm_hub.Result.{ok, err}
use llm_hub.Schema.{PairingRow, Db}
use llm_hub.Sql.{Sql}
use llm_hub.Pairing.{
  Unicode, Hmac, hash_code, has_hash, has_id, is_unused, is_claimable, set_used, PairingError,
  already_used, Redeemed, settle, redeem_pairing_code,
}
use llm_hub.Pairing.Claim.{
  one_row, is_expired, redeemed, keep-claimable, release-claim, keep-claim, first-one,
  claim-nothing, claim-one,
}

module _ (unicode : Unicode) (hmac : Hmac) (sql : Sql) (env : Env) where
  settled :
      (checked : ℤ) (hash : String) (o : Option PairingRow) (db : Db)
      → let db' = (settle unicode hmac sql env checked hash o db).0 in
        db' ≡ record db { pairing_codes = db'.pairing_codes }
  unfolding settle
  settled checked hash none db = elim (Option-cases (sql.first (has_hash hash) db.pairing_codes)) [
    | inl missing ↦ rw (missing, settle)
    | inr (r, found) ↦ rw (found, settle)
  ]
  settled checked hash (some r) db = elim (Bool-cases (is_expired checked r)) [
    | inl late ↦ rw late
    | inr timely ↦ rw timely
  ]

  -- A code that is marked as used is refused, and nothing changes.
  refused_used :
      (claimed checked : ℤ) (code : List ℕ) (db : Db) (s : PairingRow)
      → keep (has_hash (hash_code unicode hmac env code)) db.pairing_codes ≡ s ∷ []
      → is_unused s ≡ false
      → redeem_pairing_code unicode hmac sql env claimed checked code db ≡ (db, err already_used)
  unfolding settle
  refused_used claimed checked code db s e used =
      let hash = hash_code unicode hmac env code in
      let empty : keep (is_claimable hash) db.pairing_codes ≡ [] =
        keep-claimable hash (some s) db.pairing_codes e ∙ ground (arith, used) in
      let (found, listed) =
        (first-one unicode hmac sql env (has_hash hash) db.pairing_codes).1 s e in
      rw (claim-nothing unicode hmac sql env claimed checked code db empty, listed, settle)

  -- Every answer of redeeming, by the one row that the code stands for, if any: unknown, already
  -- used, expired, or accepted with the row's organization and name. A refusal, that of an expired
  -- code included, leaves the database as it was; an acceptance marks the code as used and changes
  -- no other row. Hypotheses: the hash picks at most one row, and its id only that row.
  pub redeem_lem :
      (claimed checked : ℤ) (code : List ℕ) (db : Db) (o : Option PairingRow)
      → let hash = hash_code unicode hmac env code in
        keep (has_hash hash) db.pairing_codes ≡ one_row o
        → ((r : PairingRow) → o ≡ some r → keep (has_id r.id) db.pairing_codes ≡ r ∷ [])
        → let (db', result) = redeem_pairing_code unicode hmac sql env claimed checked code db in
          (result ≡ redeemed checked o)
          × ((e : PairingError) → result ≡ err e → db' ≡ db)
          × ((v : Redeemed)
              → result ≡ ok v
              → db' ≡ record db {
                pairing_codes =
                    change
                      (is_claimable (hash_code unicode hmac env code))
                      (set_used (some claimed))
                      db.pairing_codes;
              })
  unfolding settle redeemed
  redeem_lem claimed checked code db none e u =
      let hash = hash_code unicode hmac env code in
      let empty = keep-claimable hash none db.pairing_codes e in
      rw
        (
          claim-nothing unicode hmac sql env claimed checked code db empty,
          (first-one unicode hmac sql env (has_hash hash) db.pairing_codes).0 e,
          settle,
        )
        (refl, λ c h. refl, λ v h. cc)
  redeem_lem claimed checked code db (some r) e u = elim (Bool-cases (is_unused r)) [
    | inl unused ↦
        let hash = hash_code unicode hmac env code in
        let one : keep (is_claimable hash) db.pairing_codes ≡ r ∷ [] =
          keep-claimable hash (some r) db.pairing_codes e ∙ ground (arith, unused) in
        let p = is_claimable hash in
        let marked = change p (set_used (some claimed)) db.pairing_codes in
        let released : sql.update (has_id r.id) (set_used none) marked ≡ db.pairing_codes =
          sql.update_lem (has_id r.id) (set_used none) marked
          ∙ release-claim p r.id claimed r db.pairing_codes (ground (arith, unused)) one
              (u r refl) in
        rw (claim-one unicode hmac sql env claimed checked code db r one)
          (elim (Bool-cases (is_expired checked r)) [
            | inl late ↦
                rw (late, unused)
                  (refl, λ c h. ap (λ rows. record db { pairing_codes = rows }) released, λ v h. cc)
            | inr timely ↦ rw (timely, unused) (refl, λ c h. cc, λ v h. refl)
          ])
    | inr used ↦
        rw (refused_used claimed checked code db r e used, used) (refl, λ c h. refl, λ v h. cc)
  ]

  -- A code is good for one machine: once it was accepted, redeeming it in the database that this
  -- left, at whatever times and in whatever spelling has the same hash, answers that the code is
  -- already used and changes nothing. Hypotheses: the code's hash and its row's id each pick only
  -- that row.
  pub redeem_single_use :
      (claimed checked claimed' checked' : ℤ) (code code' : List ℕ) (db : Db) (r : PairingRow)
      (v : Redeemed)
      → keep (has_hash (hash_code unicode hmac env code)) db.pairing_codes ≡ r ∷ []
      → keep (has_id r.id) db.pairing_codes ≡ r ∷ []
      → hash_code unicode hmac env code' ≡ hash_code unicode hmac env code
      → (redeem_pairing_code unicode hmac sql env claimed checked code db).1 ≡ ok v
      → let db' = (redeem_pairing_code unicode hmac sql env claimed checked code db).0 in
        redeem_pairing_code unicode hmac sql env claimed' checked' code' db'
        ≡ (db', err already_used)
  unfolding settle redeemed
  redeem_single_use claimed checked claimed' checked' code code' db r v e u same accepted =
      let hash = hash_code unicode hmac env code in
      let outcome = redeem_lem claimed checked code db (some r) e (λ s h. ground (arith, u, h)) in
      let after = outcome.2 v accepted in
      let unused : is_unused r ≡ true = ground (arith, outcome.0, accepted) in
      let now_used : keep (has_hash hash)
            (change (is_claimable hash) (set_used (some claimed)) db.pairing_codes)
          ≡ set_used (some claimed) r ∷ [] =
        (keep-claim hash claimed db.pairing_codes).0 ∙ rw e (ground (arith, unused)) in
      rw after (
        refused_used claimed' checked' code'
          (record db {
            pairing_codes = change (is_claimable hash) (set_used (some claimed)) db.pairing_codes;
          })
          (set_used (some claimed) r) (rw same now_used) refl)

  -- Whatever the answer, redeeming touches no table but that of the codes.
  pub redeem-tables :
      (claimed checked : ℤ) (code : List ℕ) (db : Db)
      → let db' = (redeem_pairing_code unicode hmac sql env claimed checked code db).0 in
        db' ≡ record db { pairing_codes = db'.pairing_codes }
  unfolding redeem_pairing_code settle
  redeem-tables claimed checked code db =
      let hash = hash_code unicode hmac env code in
      settled checked hash
        (head (sql.returning (is_claimable hash) (set_used (some claimed)) db.pairing_codes))
        (record db {
          pairing_codes = sql.update (is_claimable hash) (set_used (some claimed)) db.pairing_codes;
        })
