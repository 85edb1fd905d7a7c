-- ===== src/Pairing/Mint.antt =====
-- `mintPairingCode` of domain/pairing.ts, and the code that it gives.
use llm_hub.Base.{
  ℕ, ◌≡◌, refl, ◌∙◌, ap, String, eq_refl, Bool, true, false, List, [], ◌∷◌, ◌++◌, any, keep,
  keep-append, keep-none, none, some, arith, Bool-cases, inl, inr,
}
use llm_hub.Base.Int.{ℤ, pos, ◌+ℤ◌, ◌≤ℤ◌}
use llm_hub.Env.{Env}
use llm_hub.Result.{ok}
use llm_hub.Schema.{PairingRow, Db}
use llm_hub.Sql.{Sql}
use llm_hub.Storable.{has_nul}
use llm_hub.Sql.Facts.{insert-taken, insert-free}
use llm_hub.Pairing.{
  Unicode, Hmac, Minted, generate_code, hash_code, has_hash, has_id, mint_pairing_code,
  redeem_pairing_code,
}
use llm_hub.Pairing.Claim.{redeemed}
use llm_hub.Pairing.Redeem.{redeem_lem}

redeemed_in_time :
    (checked : ℤ) (r : PairingRow)
    → r.used_at ≡ none
    → checked ≤ℤ r.expires_at
    → redeemed checked (some r) ≡ ok (record { org_id = r.org_id; node_name = r.node_name })
unfolding redeemed
redeemed_in_time checked r unused soon = ground (arith, unused, soon)

keep_new :
    (p : PairingRow → Bool) (rows : List PairingRow) (r : PairingRow)
    → any p rows ≡ false
    → p r ≡ true
    → keep p (rows ++ r ∷ []) ≡ r ∷ []
keep_new p rows r free holds = rw (keep-append p rows (r ∷ []), keep-none p rows free, holds)

module _ (unicode : Unicode) (hmac : Hmac) (sql : Sql) (env : Env) (random : ℕ → ℕ) (id : String)
    (now : ℤ) (org_id user_id node_name : String) (db : Db) where
  abbrev new_code : PairingRow
  new_code = record {
    id = id;
    org_id = org_id;
    code_hash = hash_code unicode hmac env (generate_code random);
    node_name = node_name;
    created_by = user_id;
    expires_at = now +ℤ pos env.pairing_code_ttl_ms;
    used_at = none;
  }

  mint-eq-ok :
      (m : Minted)
      → (mint_pairing_code unicode hmac sql env random id now org_id user_id node_name db).1 ≡ ok m
      → (any (has_hash new_code.code_hash) db.pairing_codes ≡ false)
        × (m.code ≡ generate_code random)
        × (m.expires_at ≡ new_code.expires_at)
        × ((mint_pairing_code unicode hmac sql env random id now org_id user_id node_name db).0
            ≡ record db { pairing_codes = db.pairing_codes ++ new_code ∷ [] })
  unfolding mint_pairing_code
  mint-eq-ok m e = elim (Bool-cases (has_nul node_name)) [
    | inl bad ↦ absurd (ground (arith, bad))
    | inr good ↦ elim (Bool-cases (any (has_hash new_code.code_hash) db.pairing_codes)) [
      | inl taken ↦ absurd (
          ground (
            arith,
            good,
            insert-taken sql (has_hash new_code.code_hash) new_code db.pairing_codes taken,
          ))
      | inr free ↦
          let put = insert-free sql (has_hash new_code.code_hash) new_code db.pairing_codes free in
          (
            free,
            ground (arith, good, put),
            ground (arith, good, put),
            rw (good, put, mint_pairing_code),
          )
    ]
  ]

  -- The row of a code that was minted, found by hash and by id, and what redeeming it in time gives.
  pub minted_row :
      (m : Minted) (checked : ℤ) (typed : List ℕ)
      → (mint_pairing_code unicode hmac sql env random id now org_id user_id node_name db).1 ≡ ok m
      → any (has_id id) db.pairing_codes ≡ false
      → hash_code unicode hmac env typed ≡ hash_code unicode hmac env m.code
      → checked ≤ℤ m.expires_at
      → (r : PairingRow) × ((mint_pairing_code unicode hmac sql env random id now org_id user_id
            node_name db).0
          ≡ record db { pairing_codes = db.pairing_codes ++ r ∷ [] })
        × (keep (has_hash (hash_code unicode hmac env typed)) (db.pairing_codes ++ r ∷ []) ≡ r ∷ [])
        × (keep (has_id r.id) (db.pairing_codes ++ r ∷ []) ≡ r ∷ [])
        × (redeemed checked (some r) ≡ ok (record { org_id = org_id; node_name = node_name }))
        × (r.id ≡ id)
  minted_row m checked typed e fresh same soon =
      let (free, code, expires, left) = mint-eq-ok m e in
      let hash : hash_code unicode hmac env typed ≡ new_code.code_hash =
        same ∙ ap (λ c. hash_code unicode hmac env c) code in
      let one =
        keep_new (has_hash new_code.code_hash) db.pairing_codes new_code free
          (eq_refl new_code.code_hash) in
      (
        new_code,
        left,
        rw hash one,
        keep_new (has_id id) db.pairing_codes new_code fresh (eq_refl id),
        redeemed_in_time checked new_code refl (rw expires at soon),
        refl,
      )

  -- A code that was minted, typed in whatever spelling has the same hash, and checked no later
  -- than the time that was given with it, is accepted, for the organization and the node name for
  -- which it was minted. Hypothesis: the id of the new row is new.
  pub redeem-mint :
      (m : Minted) (claimed checked : ℤ) (typed : List ℕ)
      → (mint_pairing_code unicode hmac sql env random id now org_id user_id node_name db).1 ≡ ok m
      → any (has_id id) db.pairing_codes ≡ false
      → hash_code unicode hmac env typed ≡ hash_code unicode hmac env m.code
      → checked ≤ℤ m.expires_at
      → (redeem_pairing_code unicode hmac sql env claimed checked typed
          (mint_pairing_code unicode hmac sql env random id now org_id user_id node_name db).0).1
        ≡ ok (record { org_id = org_id; node_name = node_name })
  redeem-mint m claimed checked typed e fresh same soon =
      let (r, left, one, key, in_time, named) = minted_row m checked typed e fresh same soon in
      let answer =
        redeem_lem unicode hmac sql env claimed checked typed
          (record db { pairing_codes = db.pairing_codes ++ r ∷ [] }) (some r) one
          (λ s h. let eq : r ≡ s = ground (arith, h) in rw (← eq) key) in
      rw left (answer.0 ∙ in_time)
