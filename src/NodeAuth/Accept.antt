-- ===== src/NodeAuth/Accept.antt =====
-- `authenticateNode` of rpc/node-auth.ts: accepted and rejected headers.
use llm_hub.Base.{
  ℕ, ◌*◌, ◌≡◌, ap, eq_iff, true, false, Option, some, List, ◌++◌, arith, Memᴰ, Bool-cases,
  Option-cases, inl, inr,
}
use llm_hub.Base.Int.{ℤ}
use llm_hub.Env.{Env}
use llm_hub.Result.{ok, err, Result-cases}
use llm_hub.Schema.{NodeRow, Db}
use llm_hub.Sql.{Sql}
use llm_hub.Uuid.{is_uuid}
use llm_hub.NodeAuth.{
  Redis, Platform, NodeAuthError, Fields, NodeIdentity, parse_header, signed_text, nonce_key,
  spki_ed25519_prefix, check_node_id, check_time, find_node, check_signature, is_named,
  verify_header, authenticate_node,
}

-- The evidence that the header of a request holds up.
pub record Evidence (js : Platform) (env : Env) (now : ℤ) (header : Option (List ℕ)) (db : Db)
    (f : Fields) (who : NodeIdentity) : Type 0 where
  pub parsed : parse_header header ≡ ok f
  pub well_formed : is_uuid f.node_id ≡ true
  pub at : js.Time
  pub dated : js.number f.millis ≡ some at
  pub timely : js.is_off now at env.node_auth_skew_ms ≡ false
  pub row : NodeRow
  pub listed : Memᴰ row db.nodes
  pub named : row.id ≡ js.uuid_in f.node_id
  pub key : js.Key
  pub stored : js.create_public_key (spki_ed25519_prefix ++ row.public_key) ≡ some key
  pub signed : js.verify (js.utf8 (signed_text f)) key (js.base64url f.signature) ≡ some true
  pub same_node : who.node_id ≡ f.node_id
  pub same_org : who.org_id ≡ row.org_id

module _ (js : Platform) (sql : Sql) (env : Env) where
  check_time-eq-ok :
      (now : ℤ) (f g : Fields)
      → check_time js sql env now f ≡ ok g
      → (at : js.Time) × (js.number f.millis ≡ some at)
        × (js.is_off now at env.node_auth_skew_ms ≡ false)
  unfolding check_time
  check_time-eq-ok now f g e = elim (Option-cases (js.number f.millis)) [
    | inl bad ↦ ground (arith, bad)
    | inr (at, good) ↦ (at, good, ground (arith, good))
  ]

  find_node-eq-ok :
      (f : Fields) (db : Db) (n : NodeRow)
      → find_node js sql env f db ≡ ok n
      → (n.id ≡ js.uuid_in f.node_id) × Memᴰ n db.nodes
  unfolding find_node
  find_node-eq-ok f db n e = elim (Option-cases (sql.first (is_named js sql env f) db.nodes)) [
    | inl bad ↦ ground (arith, bad)
    | inr (row, found) ↦
        let same : row ≡ n = ground (arith, found) in
        let (named, listed) = sql.first-some (is_named js sql env f) db.nodes row found in
        rw (← same) ((eq_iff row.id (js.uuid_in f.node_id)).0 named, listed)
  ]

  check_signature-eq-ok :
      (f : Fields) (n : NodeRow) (who : NodeIdentity)
      → check_signature js sql env f n ≡ ok who
      → (key : js.Key) × (js.create_public_key (spki_ed25519_prefix ++ n.public_key) ≡ some key)
        × (js.verify (js.utf8 (signed_text f)) key (js.base64url f.signature) ≡ some true)
        × (who.node_id ≡ f.node_id)
        × (who.org_id ≡ n.org_id)
  unfolding check_signature
  check_signature-eq-ok f n who e =
      elim (Option-cases (js.create_public_key (spki_ed25519_prefix ++ n.public_key))) [
        | inl bad ↦ ground (arith, bad)
        | inr (key, good) ↦
            let signed : js.verify (js.utf8 (signed_text f)) key (js.base64url f.signature)
                ≡ some true =
              ground (arith, good) in
            (key, good, signed, ground (arith, good, signed), ground (arith, good, signed))
      ]

  pub verify_header-eq-ok :
      (now : ℤ) (header : Option (List ℕ)) (db : Db) (f : Fields) (who : NodeIdentity)
      → verify_header js sql env now header db ≡ ok (f, who)
      → Evidence js env now header db f who
  unfolding verify_header check_node_id
  verify_header-eq-ok now header db f who e = elim (Result-cases (parse_header header)) [
    | inl (c, bad) ↦ absurd (ground (arith, bad))
    | inr (g, parsed) ↦ elim (Bool-cases (is_uuid g.node_id)) [
      | inr odd ↦ absurd (ground (arith, parsed, odd))
      | inl well ↦ elim (Result-cases (check_time js sql env now g)) [
        | inl (c, bad) ↦ absurd (ground (arith, parsed, well, bad))
        | inr (h, timely) ↦ elim (Result-cases (find_node js sql env g db)) [
          | inl (c, bad) ↦ absurd (ground (arith, parsed, well, timely, bad))
          | inr (n, found) ↦ elim (Result-cases (check_signature js sql env g n)) [
            | inl (c, bad) ↦ absurd (ground (arith, parsed, well, timely, found, bad))
            | inr (v, signed) ↦
                let same : g ≡ f = ground (arith, parsed, well, timely, found, signed) in
                let you : v ≡ who = ground (arith, parsed, well, timely, found, signed) in
                rw (← same, ← you)
                  (let (at, dated, in_time) = check_time-eq-ok now g h timely in
                    let (named, listed) = find_node-eq-ok g db n found in
                    let (key, good, verified, id, org) = check_signature-eq-ok g n v signed in
                    record {
                      parsed = parsed;
                      well_formed = well;
                      at = at;
                      dated = dated;
                      timely = in_time;
                      row = n;
                      listed = listed;
                      named = named;
                      key = key;
                      stored = good;
                      signed = verified;
                      same_node = id;
                      same_org = org;
                    })
          ]
        ]
      ]
    ]
  ]

  module _ (redis : Redis) where
    -- A request is accepted only with the evidence: a header of four fields, a node id in the
    -- shape of a uuid, a timestamp within the window, a node of the table of that id whose key
    -- verifies the signature over the first three fields, and a nonce that was not held; the
    -- answer is that id with that node's organization, and Redis afterwards is what setting that
    -- one key leaves.
    pub authenticate_node_lem :
        (now stored : ℤ) (header : Option (List ℕ)) (db : Db) (store : redis.Store)
        (who : NodeIdentity)
        → (authenticate_node js sql env redis now stored header db store).1 ≡ ok who
        → (f : Fields) × Evidence js env now header db f who
          × (redis.holds (nonce_key f) stored store ≡ false)
          × ((redis.set_nx stored (nonce_key f) (env.node_auth_skew_ms * 2) store).1 ≡ true)
          × ((authenticate_node js sql env redis now stored header db store).0
              ≡ (redis.set_nx stored (nonce_key f) (env.node_auth_skew_ms * 2) store).0)
    unfolding authenticate_node
    authenticate_node_lem now stored header db store who e =
        elim (Result-cases (verify_header js sql env now header db)) [
          | inl (c, bad) ↦ absurd (ground (arith, bad))
          | inr ((f, v), good) ↦
              let set = redis.set_nx stored (nonce_key f) (env.node_auth_skew_ms * 2) store in
              let fresh : set.1 ≡ true = ground (arith, good) in
              let same : v ≡ who = ground (arith, good, fresh) in
              (
                f,
                verify_header-eq-ok now header db f who (rw good (ap (λ x. ok (f, x)) same)),
                ground (
                  arith,
                  fresh,
                  redis.set_nx-holds stored (nonce_key f) (env.node_auth_skew_ms * 2) store,
                ),
                fresh,
                rw good,
              )
        ]

    -- A request that is rejected, for whichever reason, leaves Redis as it was.
    pub authenticate_node_rejected :
        (now stored : ℤ) (header : Option (List ℕ)) (db : Db) (store : redis.Store)
        (c : NodeAuthError)
        → (authenticate_node js sql env redis now stored header db store).1 ≡ err c
        → (authenticate_node js sql env redis now stored header db store).0 ≡ store
    unfolding authenticate_node
    authenticate_node_rejected now stored header db store c e =
        elim (Result-cases (verify_header js sql env now header db)) [
          | inl (d, bad) ↦ rw bad
          | inr ((f, v), good) ↦
              let set = redis.set_nx stored (nonce_key f) (env.node_auth_skew_ms * 2) store in
              let refused : set.1 ≡ false = ground (arith, good) in
              rw good (
                redis.set_nx_refused stored (nonce_key f) (env.node_auth_skew_ms * 2) store refused)
        ]
