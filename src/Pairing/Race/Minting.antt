-- ===== src/Pairing/Race/Minting.antt =====
-- A code that is minted while others are redeemed.
use llm_hub.Base.{
  ℕ, ◌≡◌, ◌≢◌, String, eq_iff, true, false, not, ◌||◌, none, List, [], ◌∷◌, ◌++◌, any, All-append,
  arith, Bool-cases, inl, inr,
}
use llm_hub.Base.Distinct.{Distinct-snoc, any-append}
use llm_hub.Base.Int.{ℤ, pos, ◌+ℤ◌}
use llm_hub.Env.{Env}
use llm_hub.Pairing.{
  Unicode, Hmac, has_hash, has_id, is_claimable, hash_code, generate_code, mint_pairing_code,
}
use llm_hub.Schema.{PairingRow, Db}
use llm_hub.Sql.{Sql}
use llm_hub.Storable.{has_nul}
use llm_hub.Sql.Facts.{insert-taken, insert-free}
use llm_hub.Pairing.Race.{Call}
use llm_hub.Pairing.Race.Owner.{Inv}

module _ (unicode : Unicode) (hmac : Hmac) (sql : Sql) (env : Env) where
  new_code-Inv :
      (new : PairingRow) (rows : List PairingRow) (calls : ℕ → Call)
      → any (has_hash new.code_hash) rows ≡ false
      → any (has_id new.id) rows ≡ false
      → Inv rows calls
      → Inv (rows ++ new ∷ []) calls
  new_code-Inv new rows calls hash id inv = record {
    ids =
        Distinct-snoc (λ r s. has_id r.id s) rows new
          (λ s. ground (arith, eq_iff s.id new.id, eq_iff new.id s.id)) inv.ids id;
    used = λ i h o.
        let known = inv.known i h o in
        let differ : new.code_hash ≢ h = λ e. cc (rw e at hash, known) in
        rw (any-append (is_claimable h) rows (new ∷ []))
          (ground (arith, inv.used i h o, differ, eq_iff new.code_hash h));
    known = λ i h o. rw (any-append (has_hash h) rows (new ∷ []), inv.known i h o);
    only = inv.only;
    held = λ i h r e.
        let (a, b) = inv.held i h r e in
        let differ : new.id ≢ r.id = λ eq. cc (rw eq at id, b) in
        (
          All-append (λ s. (not (has_id r.id s) || has_hash h s) ≡ true) rows (new ∷ []) a
              (ground (arith, differ, eq_iff new.id r.id), tt),
          rw (any-append (has_id r.id) rows (new ∷ []), b),
        );
  }

  pub mint-Inv :
      (random : ℕ → ℕ) (id : String) (now : ℤ) (org_id user_id node_name : String) (db : Db)
      (calls : ℕ → Call)
      → any (has_id id) db.pairing_codes ≡ false
      → Inv db.pairing_codes calls
      → Inv
          (mint_pairing_code unicode hmac sql env random id now org_id user_id node_name
            db).0.pairing_codes
          calls
  unfolding mint_pairing_code
  mint-Inv random id now org_id user_id node_name db calls fresh inv =
      let hash = hash_code unicode hmac env (generate_code random) in
      let row : PairingRow = record {
        id = id;
        org_id = org_id;
        code_hash = hash;
        node_name = node_name;
        created_by = user_id;
        expires_at = now +ℤ pos env.pairing_code_ttl_ms;
        used_at = none;
      } in
      elim (Bool-cases (has_nul node_name)) [
        | inl bad ↦ rw (bad, mint_pairing_code) inv
        | inr good ↦ elim (Bool-cases (any (has_hash hash) db.pairing_codes)) [
          | inl taken ↦
              rw
                (
                  good,
                  insert-taken sql (has_hash hash) row db.pairing_codes taken,
                  mint_pairing_code,
                )
                inv
          | inr free ↦
              rw
                (good, insert-free sql (has_hash hash) row db.pairing_codes free, mint_pairing_code)
                (new_code-Inv row db.pairing_codes calls free fresh inv)
        ]
      ]
