-- ===== src/System/Onboarding.antt =====
-- From the call that makes a pairing code to the machine that joins with it.
use llm_hub.Base.{
  ℕ, ◌≡◌, refl, String, false, some, [], ◌∷◌, ◌++◌, any, keep, ap, sym, ◌∙◌, length, Memᴰ, arith,
}
use llm_hub.Base.Int.{ℤ, ◌≤ℤ◌}
use llm_hub.Enrollment.{EnrollInput, has_key, new_node, enroll_node}
use llm_hub.Enrollment.Joined.{last-member}
use llm_hub.Enrollment.Laws.{claimed_db, enroll_node_lem}
use llm_hub.Env.{Env}
use llm_hub.FleetService.{session, minted, create_pairing_code}
use llm_hub.Pairing.{
  Unicode, Hmac, Minted, Redeemed, has_hash, has_id, hash_code, mint_pairing_code,
}
use llm_hub.Pairing.Mint.{minted_row}
use llm_hub.Proto.{EnrollResponse, CreatePairingCodeResponse}
use llm_hub.Result.{Result, ok, err}
use llm_hub.Schema.{NodeRow, Db}
use llm_hub.Session.{Auth, SessionContext}
use llm_hub.Sql.{Sql}
use llm_hub.Storable.{refuses_node}
use llm_hub.Tenancy.{DbError}

-- What `createPairingCode` makes of a code, read backwards.
minted-eq-ok :
    (p : Db × Result DbError Minted) (res : CreatePairingCodeResponse)
    → (minted p).1 ≡ ok res
    → ((minted p).0 ≡ p.0)
      × (m : Minted) × (p.1 ≡ ok m)
      × (m.code ≡ res.code)
      × (m.expires_at ≡ res.expires_at_unix_ms)
minted-eq-ok (db, ok m) res e = (refl, m, refl, ground (arith, e), ground (arith, e))
minted-eq-ok (db, err x) res e = absurd (cc e)

module _ (unicode : Unicode) (hmac : Hmac) (sql : Sql) (env : Env) (auth : Auth) where
  create-mint :
      (random : ℕ → ℕ) (id : String) (now : ℤ) (headers : auth.Headers) (node_name : String)
      (db : Db) (who : SessionContext) (res : CreatePairingCodeResponse)
      → session auth headers ≡ ok who
      → (create_pairing_code unicode hmac sql env auth random id now headers node_name db).1
        ≡ ok res
      → let mint =
          mint_pairing_code unicode hmac sql env random id now who.org_id who.user_id node_name
            db in
        ((create_pairing_code unicode hmac sql env auth random id now headers node_name db).0
          ≡ mint.0)
        × (m : Minted) × (mint.1 ≡ ok m)
        × (m.code ≡ res.code)
        × (m.expires_at ≡ res.expires_at_unix_ms)
  unfolding create_pairing_code
  create-mint random id now headers node_name db who res good made =
      let mint =
        mint_pairing_code unicode hmac sql env random id now who.org_id who.user_id node_name db in
      let same : create_pairing_code unicode hmac sql env auth random id now headers node_name db
          ≡ minted mint =
        ground (arith, good) in
      rw same (minted-eq-ok mint res (rw same at made))

  module _ (others meanwhile : Db → Db) (random : ℕ → ℕ) (id : String) (now : ℤ)
      (headers : auth.Headers) (node_name : String) (db : Db) (claimed checked : ℤ)
      (node_id : String) (input : EnrollInput) where
    -- A pairing code that a signed-in user creates enrolls a new machine into that user's
    -- organization: given in any spelling of the same hash, no later than the time that the answer
    -- shows, with a key of 32 bytes that no node has, it adds a node of that organization with
    -- that key, and the machine is told the node's id and the organization. Hypotheses: the id of
    -- the code's row is new; whatever is written between the creation and the redemption leaves
    -- the rows with the code's hash and id as they are; other sessions do not enroll the same key
    -- between the redemption and the insert; the columns take the new node's values.
    pub created_code_enrolls :
        (who : SessionContext) (res : CreatePairingCodeResponse)
        → session auth headers ≡ ok who
        → (create_pairing_code unicode hmac sql env auth random id now headers node_name db).1
          ≡ ok res
        → any (has_id id) db.pairing_codes ≡ false
        → hash_code unicode hmac env input.pairing_code ≡ hash_code unicode hmac env res.code
        → checked ≤ℤ res.expires_at_unix_ms
        → length input.public_key ≡ 32
        → refuses_node
            (new_node node_id input (record { org_id = who.org_id; node_name = node_name }))
          ≡ false
        → ((d : Db)
            → any (has_key input.public_key) d.nodes ≡ false
            → any (has_key input.public_key) (others d).nodes ≡ false)
        → let created =
            (create_pairing_code unicode hmac sql env auth random id now headers node_name db).0 in
          let hash = hash_code unicode hmac env input.pairing_code in
          let found = meanwhile created in
          keep (has_hash hash) found.pairing_codes ≡ keep (has_hash hash) created.pairing_codes
          → keep (has_id id) found.pairing_codes ≡ keep (has_id id) created.pairing_codes
          → any (has_key input.public_key) found.nodes ≡ false
          → let run = enroll_node unicode hmac sql env others claimed checked node_id input found in
            (n : NodeRow) × Memᴰ n run.0.nodes
            × (n.id ≡ node_id)
            × (n.org_id ≡ who.org_id)
            × (n.public_key ≡ input.public_key)
            × (answer : EnrollResponse) × (run.1 ≡ ok answer)
            × (answer.node_id ≡ node_id)
            × (answer.org_id ≡ who.org_id)
    created_code_enrolls who res good made fresh same soon long taken apart by_hash by_id unknown =
        let (left, m, minted_ok, code, expires) =
          create-mint random id now headers node_name db who res good made in
        let (r, stored, one, key, in_time, named) =
          minted_row unicode hmac sql env random id now who.org_id who.user_id node_name db m
            checked input.pairing_code minted_ok fresh (rw code same) (rw expires soon) in
        let created =
          (create_pairing_code unicode hmac sql env auth random id now headers node_name db).0 in
        let found = meanwhile created in
        let hash = hash_code unicode hmac env input.pairing_code in
        let put : created ≡ record db { pairing_codes = db.pairing_codes ++ r ∷ [] } =
          left ∙ stored in
        let held : keep (has_hash hash) created.pairing_codes ≡ r ∷ [] =
          ap (λ (d : Db). keep (has_hash hash) d.pairing_codes) put ∙ one in
        let kept : keep (has_id r.id) created.pairing_codes ≡ r ∷ [] =
          ap (λ (d : Db). keep (has_id r.id) d.pairing_codes) put ∙ key in
        let again : keep (has_id r.id) found.pairing_codes ≡ r ∷ [] =
          ap (λ i. keep (has_id i) found.pairing_codes) named
          ∙ (by_id ∙ (ap (λ i. keep (has_id i) created.pairing_codes) (sym named) ∙ kept)) in
        let claim : Redeemed = record { org_id = who.org_id; node_name = node_name } in
        let spent = claimed_db unicode hmac sql env others claimed checked node_id input found in
        let run =
          (enroll_node_lem unicode hmac sql env others claimed checked node_id input found (some r)
              long unknown (by_hash ∙ held)
              (λ s h. let eq : r ≡ s = ground (arith, h) in rw (← eq) again)).3
            claim in_time taken (apart spent unknown) in
        rw run (
          new_node node_id input claim,
          last-member (new_node node_id input claim) (others spent).nodes,
          refl,
          refl,
          refl,
          _,
          refl,
          refl,
          refl,
        )
