-- ===== src/Enrollment/Laws.antt =====
-- `enrollNode` of domain/nodes.ts: its outcomes.
use llm_hub.Base.{
  ◌≡◌, ◌≢◌, ap, ◌∙◌, String, ◌==◌, true, false, Option, some, [], ◌∷◌, ◌++◌, any, keep, change, eqb,
  length, arith,
}
use llm_hub.Base.Int.{ℤ}
use llm_hub.Env.{Env}
use llm_hub.Proto.{EnrollResponse}
use llm_hub.Result.{Result, ok, err}
use llm_hub.Schema.{PairingRow, Organization, Db}
use llm_hub.Sql.{Sql}
use llm_hub.Storable.{refuses_node}
use llm_hub.Tenancy.{bad_value}
use llm_hub.Sql.Facts.{insert-taken, insert-free, first-found, first-missing}
use llm_hub.Pairing.{
  Unicode, Hmac, PairingError, Redeemed, hash_code, has_hash, has_id, is_claimable, set_used,
  redeem_pairing_code,
}
use llm_hub.Pairing.Claim.{one_row, redeemed}
use llm_hub.Pairing.Redeem.{redeem_lem}
use llm_hub.Enrollment.{
  EnrollError, bad_key, already_enrolled, pairing, database, EnrollInput, has_key, new_node,
  insert_node, after_redeem, enroll_node, name_or_empty,
}

pair_path {ℓ κ} :
    {A : Type ℓ} {B : Type κ} (p : A × B) {a : A} {b : B} → p.0 ≡ a → p.1 ≡ b → p ≡ (a, b)
pair_path p e f = λ i. (e i, f i)

module _ (unicode : Unicode) (hmac : Hmac) (sql : Sql) (env : Env) (others : Db → Db)
    (claimed checked : ℤ) (id : String) (input : EnrollInput) (db : Db) where
  -- A key that is not of 32 bytes, or that a node already has, is refused before the code is
  -- looked at: nothing changes, so the code can still be used.
  pub enroll_node-keeps-code :
      ((length input.public_key ≢ 32)
        → enroll_node unicode hmac sql env others claimed checked id input db ≡ (db, err bad_key))
      × (length input.public_key ≡ 32
          → any (has_key input.public_key) db.nodes ≡ true
          → enroll_node unicode hmac sql env others claimed checked id input db
            ≡ (db, err already_enrolled))
  unfolding enroll_node
  enroll_node-keeps-code = (
    λ short.
        let test : eqb (length input.public_key) 32 ≡ false = ground arith in
        rw (test, enroll_node),
    λ long known.
        let test : eqb (length input.public_key) 32 ≡ true = ground arith in
        let (n, found) = first-found sql (has_key input.public_key) db.nodes known in
        rw (test, found, enroll_node),
  )

  -- The database when the code has been accepted.
  abbrev pub claimed_db : Db
  claimed_db = record db {
    pairing_codes =
        change (is_claimable (hash_code unicode hmac env input.pairing_code))
          (set_used (some claimed)) db.pairing_codes;
  }

  -- The database and the answer when the node has been inserted.
  abbrev pub enrolled : Redeemed → Db × Result EnrollError EnrollResponse
  enrolled v = (
    record (others claimed_db) { nodes = (others claimed_db).nodes ++ new_node id input v ∷ [] },
    ok (record {
      node_id = id;
      org_id = v.org_id;
      org_name =
          name_or_empty
            (sql.first (λ (g : Organization). g.id == v.org_id) (others claimed_db).organizations);
    }),
  )

  faulted :
      (v : Redeemed)
      → refuses_node (new_node id input v) ≡ true
      → insert_node unicode hmac sql env id input v (others claimed_db)
        ≡ (others claimed_db, err (database bad_value))
  unfolding insert_node
  faulted v bad = rw (bad, insert_node)

  lost :
      (v : Redeemed)
      → refuses_node (new_node id input v) ≡ false
      → any (has_key input.public_key) (others claimed_db).nodes ≡ true
      → insert_node unicode hmac sql env id input v (others claimed_db)
        ≡ (others claimed_db, err already_enrolled)
  unfolding insert_node
  lost v good taken = rw (
    good,
    insert-taken sql (has_key input.public_key) (new_node id input v) (others claimed_db).nodes
        taken,
    insert_node,
  )

  won_race :
      (v : Redeemed)
      → refuses_node (new_node id input v) ≡ false
      → any (has_key input.public_key) (others claimed_db).nodes ≡ false
      → insert_node unicode hmac sql env id input v (others claimed_db) ≡ enrolled v
  unfolding insert_node
  won_race v good free = rw (
    good,
    insert-free sql (has_key input.public_key) (new_node id input v) (others claimed_db).nodes free,
    insert_node,
  )

  module _ (o : Option PairingRow) (long : length input.public_key ≡ 32)
      (fresh : any (has_key input.public_key) db.nodes ≡ false)
      (row : keep (has_hash (hash_code unicode hmac env input.pairing_code)) db.pairing_codes
        ≡ one_row o)
      (key : (r : PairingRow) → o ≡ some r → keep (has_id r.id) db.pairing_codes ≡ r ∷ []) where
    pub enroll_node_lem :
        (((e : PairingError)
            → redeemed checked o ≡ err e
            → enroll_node unicode hmac sql env others claimed checked id input db
              ≡ (db, err (pairing e)))
          × ((v : Redeemed)
              → redeemed checked o ≡ ok v
              → refuses_node (new_node id input v) ≡ true
              → enroll_node unicode hmac sql env others claimed checked id input db
                ≡ (others claimed_db, err (database bad_value)))
          × ((v : Redeemed)
              → redeemed checked o ≡ ok v
              → refuses_node (new_node id input v) ≡ false
              → any (has_key input.public_key) (others claimed_db).nodes ≡ true
              → enroll_node unicode hmac sql env others claimed checked id input db
                ≡ (others claimed_db, err already_enrolled))
          × ((v : Redeemed)
              → redeemed checked o ≡ ok v
              → refuses_node (new_node id input v) ≡ false
              → any (has_key input.public_key) (others claimed_db).nodes ≡ false
              → enroll_node unicode hmac sql env others claimed checked id input db ≡ enrolled v))
    unfolding enroll_node after_redeem insert_node
    enroll_node_lem =
        let test : eqb (length input.public_key) 32 ≡ true = ground arith in
        let missing = first-missing sql (has_key input.public_key) db.nodes fresh in
        let answer =
          redeem_pairing_code unicode hmac sql env claimed checked input.pairing_code db in
        let (result, refused, accepted) =
          redeem_lem unicode hmac sql env claimed checked input.pairing_code db o row key in
        let next = after_redeem unicode hmac sql env others id input in
        let redeeming : enroll_node unicode hmac sql env others claimed checked id input db
            ≡ next answer =
          rw (test, missing, enroll_node) in
        (
          λ e failed.
              redeeming
              ∙ ap next (pair_path answer (refused e (result ∙ failed)) (result ∙ failed)),
          λ v won bad.
              redeeming
              ∙ (ap next (pair_path answer (accepted v (result ∙ won)) (result ∙ won))
                  ∙ faulted v bad),
          λ v won good taken.
              redeeming
              ∙ (ap next (pair_path answer (accepted v (result ∙ won)) (result ∙ won))
                  ∙ lost v good taken),
          λ v won good free.
              redeeming
              ∙ (ap next (pair_path answer (accepted v (result ∙ won)) (result ∙ won))
                  ∙ won_race v good free),
        )
