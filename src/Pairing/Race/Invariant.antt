-- ===== src/Pairing/Race/Invariant.antt =====
-- Every move keeps what holds of the codes and the calls.
use llm_hub.Base.{
  ℕ, ◌≡◌, ◌≢◌, refl, sym, ◌∙◌, ap, String, Option, none, some, any, change, arith, Bool-cases,
  Option-cases, inl, inr,
}
use llm_hub.Base.Distinct.{any-change}
use llm_hub.Base.Int.{ℤ, ltb_ℤ}
use llm_hub.Env.{Env}
use llm_hub.Pairing.{Unicode, Hmac, PairingError, has_hash, has_id, is_claimable, set_used, settle}
use llm_hub.Result.{err}
use llm_hub.Schema.{PairingRow, Db}
use llm_hub.Sql.{Sql}
use llm_hub.Pairing.Race.{
  Call, claimed, answered, Race, set_call, HasIds, returned, Move, start, finish, mint, Reach,
  begin, move,
}
use llm_hub.Pairing.Race.Codes.{
  returned-Origin, Origin-any, Origin-OnlyHash, OnlyHash-change, mark_all, mark_keeps,
  release_keeps,
}
use llm_hub.Pairing.Race.Owner.{
  owns, Inv, set_call-cases, set_used-HasIds, owns-claimed, settled-Inv,
}
use llm_hub.Pairing.Race.Minting.{mint-Inv}

module _ (unicode : Unicode) (hmac : Hmac) (sql : Sql) (env : Env) where
  -- A claim: what it returns could be claimed, so no other call owned it.
  start-Inv :
      (i : ℕ) (hash : String) (now : ℤ) (db : Db) (calls : ℕ → Call)
      → Inv db.pairing_codes calls
      → Inv
          (change (is_claimable hash) (set_used (some now)) db.pairing_codes)
          (set_call calls i (claimed hash (returned unicode hmac sql env now hash db)))
  start-Inv i hash now db calls inv =
      let rows = db.pairing_codes in
      let p = is_claimable hash in
      let ret = returned unicode hmac sql env now hash db in
      let from = returned-Origin sql hash now rows in
      let unowned : (r : PairingRow) → ret ≡ some r → (j : ℕ) → ¬ (owns (calls j) ≡ some hash) =
        λ r e j o. cc ((Origin-any hash rows r (from r e)).0, inv.used j hash o) in
      let same_hashes : (h : String)
          → any (has_hash h) (change p (set_used (some now)) rows) ≡ any (has_hash h) rows =
        λ h. any-change (has_hash h) p (set_used (some now)) rows (λ r. refl) in
      record {
        ids = set_used-HasIds p (some now) rows inv.ids;
        used = λ j h o. elim (set_call-cases calls i j (claimed hash ret)) [
          | inl (same, at) ↦
              let (it, r, e) = owns-claimed hash h ret (sym (ap owns at) ∙ o) in
              rw (← it) (mark_all hash now rows)
          | inr (other, old) ↦ mark_keeps hash h now rows (inv.used j h (rw (← old) o))
        ];
        known = λ j h o. elim (set_call-cases calls i j (claimed hash ret)) [
          | inl (same, at) ↦
              let (it, r, e) = owns-claimed hash h ret (sym (ap owns at) ∙ o) in
              rw (same_hashes h, ← it) ((Origin-any hash rows r (from r e)).1)
          | inr (other, old) ↦ rw (same_hashes h) (inv.known j h (rw (← old) o))
        ];
        only = λ j k h o o'. elim (set_call-cases calls i j (claimed hash ret)) [
          | inl (same, at) ↦
              let (it, r, e) = owns-claimed hash h ret (sym (ap owns at) ∙ o) in
              elim (set_call-cases calls i k (claimed hash ret)) [
                | inl (same', at') ↦ sym same ∙ same'
                | inr (other, old) ↦
                    absurd (unowned r e k (sym (ap owns old) ∙ (o' ∙ ap (λ x. some x) (sym it))))
              ]
          | inr (other, old) ↦ elim (set_call-cases calls i k (claimed hash ret)) [
            | inl (same, at) ↦
                let (it, r, e) = owns-claimed hash h ret (sym (ap owns at) ∙ o') in
                absurd (unowned r e j (sym (ap owns old) ∙ (o ∙ ap (λ x. some x) (sym it))))
            | inr (other', old') ↦ inv.only j k h (sym (ap owns old) ∙ o) (sym (ap owns old') ∙ o')
          ]
        ];
        held = λ j h r e. elim (set_call-cases calls i j (claimed hash ret)) [
          | inl (same, at) ↦
              let e' : claimed hash ret ≡ claimed h (some r) = sym at ∙ e in
              let it : hash ≡ h = ground (arith, e') in
              let found = from r (ground (arith, e')) in
              (
                rw (← it) (
                    OnlyHash-change r.id hash p (some now) rows
                      (Origin-OnlyHash hash rows r inv.ids found)),
                rw (any-change (has_id r.id) p (set_used (some now)) rows (λ r. refl))
                    ((Origin-any hash rows r found).2),
              )
          | inr (other, old) ↦
              let (a, b) = inv.held j h r (sym old ∙ e) in
              (
                OnlyHash-change r.id h p (some now) rows a,
                rw (any-change (has_id r.id) p (set_used (some now)) rows (λ r. refl)) b,
              )
        ];
      }

  -- An expired code given back: only its own hash can be claimed again, and nobody owns it.
  release-Inv :
      (i : ℕ) (hash : String) (r : PairingRow) (e : PairingError) (db : Db) (calls : ℕ → Call)
      → calls i ≡ claimed hash (some r)
      → Inv db.pairing_codes calls
      → Inv
          (change (has_id r.id) (set_used none) db.pairing_codes)
          (set_call calls i (answered hash (err e)))
  release-Inv i hash r e db calls at inv =
      let rows = db.pairing_codes in
      let next = settled-Inv rows calls i hash (some r) (err e) at (inl refl) inv in
      let calls' = set_call calls i (answered hash (err e)) in
      let p = has_id r.id in
      let (mine, there) = inv.held i hash r at in
      record {
        ids = set_used-HasIds p none rows inv.ids;
        used = λ j h o. elim (set_call-cases calls i j (answered hash (err e))) [
          | inl (same, now) ↦ absurd (cc (sym (ap owns now) ∙ o))
          | inr (other, old) ↦
              let differ : h ≢ hash = λ eq.
                other (
                  inv.only i j hash (ap owns at) (sym (ap owns old) ∙ (o ∙ ap (λ x. some x) eq))) in
              release_keeps r.id hash h rows differ mine (next.used j h o)
        ];
        known = λ j h o.
            rw (any-change (has_hash h) p (set_used none) rows (λ s. refl)) (next.known j h o);
        only = next.only;
        held = λ j h s e'.
            let (a, b) = next.held j h s e' in
            (
              OnlyHash-change s.id h p none rows a,
              rw (any-change (has_id s.id) p (set_used none) rows (λ t. refl)) b,
            );
      }

  settle-Inv :
      (i : ℕ) (hash : String) (row : Option PairingRow) (checked : ℤ) (db : Db) (calls : ℕ → Call)
      → calls i ≡ claimed hash row
      → Inv db.pairing_codes calls
      → Inv
          (settle unicode hmac sql env checked hash row db).0.pairing_codes
          (set_call calls i (answered hash (settle unicode hmac sql env checked hash row db).1))
  unfolding settle
  settle-Inv i hash none checked db calls at inv =
      elim (Option-cases (sql.first (has_hash hash) db.pairing_codes)) [
        | inl missing ↦
            rw (missing, settle)
              (settled-Inv db.pairing_codes calls i hash none _ at (inl refl) inv)
        | inr (r, found) ↦
            rw (found, settle) (settled-Inv db.pairing_codes calls i hash none _ at (inl refl) inv)
      ]
  settle-Inv i hash (some r) checked db calls at inv =
      elim (Bool-cases (ltb_ℤ r.expires_at checked)) [
        | inl late ↦ rw (late, sql.update_lem) (release-Inv i hash r _ db calls at inv)
        | inr timely ↦
            rw timely
              (settled-Inv db.pairing_codes calls i hash (some r) _ at (inr (ap owns at)) inv)
      ]

  Move-Inv :
      {s t : Race}
      → Move unicode hmac sql env s t
      → Inv s.db.pairing_codes s.calls
      → Inv t.db.pairing_codes t.calls
  Move-Inv {s} (start i hash now at) inv =
      rw (sql.update_lem) (start-Inv i hash now s.db s.calls inv)
  Move-Inv {s} (finish i hash row checked at) inv =
      settle-Inv i hash row checked s.db s.calls at inv
  Move-Inv {s} (mint random id now org_id user_id node_name fresh) inv =
      mint-Inv unicode hmac sql env random id now org_id user_id node_name s.db s.calls fresh inv

  pub Reach-Inv :
      {db : Db} {s : Race}
      → HasIds db.pairing_codes
      → Reach unicode hmac sql env db s
      → Inv s.db.pairing_codes s.calls
  Reach-Inv ids begin = record {
    ids = ids;
    used = λ i h o. cc;
    known = λ i h o. cc;
    only = λ i j h o o'. cc;
    held = λ i h r e. cc;
  }
  Reach-Inv ids (move r m) = Move-Inv m (Reach-Inv ids r)
