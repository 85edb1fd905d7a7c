-- ===== src/System/Runs.antt =====
-- The calls of the control plane as runs of its steps.
use llm_hub.Base.{
  true, if◌then◌else◌, ℕ, ◌≡◌, refl, sym, ◌∙◌, ap, String, eq_iff, false, List, [], ◌∷◌, any, head,
  arith, Bool-cases, Option-cases, inl, inr, Option, none, some, eqb, length,
}
use llm_hub.Base.Int.{ℤ, ltb_ℤ}
use llm_hub.Enrollment.{EnrollInput, has_key, after_redeem, enroll_node}
use llm_hub.Env.{Env}
use llm_hub.Inventory.{
  is_node, record_inventory, store_samples, set_online, refuses_known, known_devices,
}
use llm_hub.Inventory.Samples.{record_samples-ok, record_samples-err}
use llm_hub.Inventory.Heartbeat.{
  record_inventory_total, mark_node_online-ok, mark_node_online-err, record_inventory-err,
}
use llm_hub.NodeAuth.{Redis, Platform, NodeIdentity, authenticate_node}
use llm_hub.NodeAuth.Accept.{authenticate_node_lem}
use llm_hub.NodeService.{AgentMessage, hello_columns, is_refused, on_message, on_messages, connect}
use llm_hub.Pairing.Race.{marked}
use llm_hub.Pairing.{
  Unicode, Hmac, PairingError, Redeemed, has_hash, is_claimable, set_used, hash_code, settle,
  redeem_pairing_code,
}
use llm_hub.Proto.{Payload, hello, inventory, samples, unset}
use llm_hub.Result.{Result, ok, err}
use llm_hub.Schema.{PairingRow, Db}
use llm_hub.Sql.{Sql}
use llm_hub.Sweeper.{sweep_offline_nodes}
use llm_hub.Tenancy.{node_owned, bad_value}
use llm_hub.Rpc.{fault}
use llm_hub.System.{
  IsEnrolled, is_enrolled, claim, release, enroll, greet, report, sample, sweep_offline,
  sweep_degraded, Steps, here, next,
}
use llm_hub.System.WellFormed.{WellFormed, WellFormed-AllOwn}
use llm_hub.System.Invariant.{Steps-WellFormed}
use llm_hub.System.Enrolled.{any-member, is_node-enrolled, Steps-trans, Steps-IsEnrolled}

module _ (unicode : Unicode) (hmac : Hmac) (sql : Sql) (env : Env) where
  -- From well-formed tables, a node that was enrolled can store every report whose values the
  -- columns take, duplicates included, after any interleaving of calls and sweeps: no conflict
  -- with a row of another organization ever refuses it.
  pub report_stored :
      (org node_id : String) (a b : Db) (supply : ℕ → String) (reported : _)
      → WellFormed a
      → IsEnrolled org node_id a
      → Steps unicode hmac sql env a b
      → any refuses_known (known_devices reported) ≡ false
      → (db' : Db) × (record_inventory sql org node_id supply reported b ≡ ok db')
  report_stored org node_id a b supply reported w enrolled run taken =
      let still = Steps-IsEnrolled unicode hmac sql env org node_id run enrolled in
      let own =
        WellFormed-AllOwn org node_id b (Steps-WellFormed unicode hmac sql env run w) still in
      record_inventory_total sql org node_id supply reported b
        (is_node-enrolled org node_id b.nodes still) own taken

  settle-Steps :
      (checked : ℤ) (hash : String) (o : Option PairingRow) (db : Db)
      → Steps unicode hmac sql env db (settle unicode hmac sql env checked hash o db).0
  unfolding settle
  settle-Steps checked hash none db =
      elim (Option-cases (sql.first (has_hash hash) db.pairing_codes)) [
        | inl missing ↦ rw (missing, settle) here
        | inr (r, found) ↦ rw (found, settle) here
      ]
  settle-Steps checked hash (some r) db = elim (Bool-cases (ltb_ℤ r.expires_at checked)) [
    | inl late ↦ rw late (next here (release r.id))
    | inr timely ↦ rw timely here
  ]

  redeem-Steps :
      (claimed checked : ℤ) (code : List ℕ) (db : Db)
      → Steps unicode hmac sql env db
          (redeem_pairing_code unicode hmac sql env claimed checked code db).0
  unfolding redeem_pairing_code
  redeem-Steps claimed checked code db =
      let hash = hash_code unicode hmac env code in
      Steps-trans unicode hmac sql env (next here (claim claimed hash)) (
        settle-Steps checked hash
          (head (sql.returning (is_claimable hash) (set_used (some claimed)) db.pairing_codes))
          (marked unicode hmac sql env claimed hash db))

  insert-Steps :
      (id : String) (input : EnrollInput) (others : Db → Db) (r : Db × Result PairingError Redeemed)
      → ((d : Db) → Steps unicode hmac sql env d (others d))
      → any (is_node id) (others r.0).nodes ≡ false
      → Steps unicode hmac sql env r.0 (after_redeem unicode hmac sql env others id input r).0
  unfolding after_redeem
  insert-Steps id input others (db, err e) fair fresh = here
  insert-Steps id input others (db, ok claimed) fair fresh =
      next (fair db) (enroll id input claimed fresh)

  -- `enrollNode` is a run of steps, where the other sessions' commits are one.
  pub enroll_node-Steps :
      (others : Db → Db) (claimed checked : ℤ) (id : String) (input : EnrollInput) (db : Db)
      → ((d : Db) → Steps unicode hmac sql env d (others d))
      → any
          (is_node id)
          (others
            (redeem_pairing_code unicode hmac sql env claimed checked input.pairing_code
              db).0).nodes
        ≡ false
      → Steps unicode hmac sql env db
          (enroll_node unicode hmac sql env others claimed checked id input db).0
  unfolding enroll_node
  enroll_node-Steps others claimed checked id input db fair fresh =
      let answer = redeem_pairing_code unicode hmac sql env claimed checked input.pairing_code db in
      let run =
        Steps-trans unicode hmac sql env (redeem-Steps claimed checked input.pairing_code db)
          (insert-Steps id input others answer fair fresh) in
      elim (Bool-cases (eqb (length input.public_key) 32)) [
        | inr short ↦ rw (short, enroll_node) here
        | inl long ↦ elim (Option-cases (sql.first (has_key input.public_key) db.nodes)) [
          | inl missing ↦ rw (long, missing, enroll_node) run
          | inr (n, found) ↦ rw (long, found, enroll_node) here
        ]
      ]

  pub sweep-Steps :
      (now : ℤ) (db : Db) → Steps unicode hmac sql env db (sweep_offline_nodes sql env now db).0
  unfolding sweep_offline_nodes
  sweep-Steps now db = next (next here (sweep_offline now)) (sweep_degraded now)

  -- The message fails and changes nothing, or it is stored as a run of steps.
  on_message-Steps :
      (org node_id : String) (now : ℤ) (supply : ℕ → String) (payload : Payload) (db : Db)
      → WellFormed db
      → IsEnrolled org node_id db
      → let m : AgentMessage = record { now = now; supply = supply; payload = payload } in
        (is_refused sql m ≡ true → on_message sql org node_id m db ≡ err bad_value)
        × (is_refused sql m ≡ false
            → (db' : Db) × (on_message sql org node_id m db ≡ ok db')
              × Steps unicode hmac sql env db db')
  unfolding on_message is_refused
  on_message-Steps org node_id now supply (hello h) db w enrolled = (
    mark_node_online-err sql org node_id now (hello_columns h) db,
    λ taken. (
      set_online sql org node_id now (hello_columns h) db,
      mark_node_online-ok sql org node_id now (hello_columns h) db taken,
      next here (greet org node_id now (hello_columns h)),
    ),
  )
  on_message-Steps org node_id now supply (inventory listed) db w enrolled = (
    record_inventory-err sql org node_id supply listed.devices db,
    λ taken.
        let (db', stored) =
          report_stored org node_id db db supply listed.devices w enrolled here taken in
        (db', stored, next here (report org node_id supply listed.devices enrolled stored)),
  )
  on_message-Steps org node_id now supply (samples batch) db w enrolled = (
    record_samples-err sql org node_id now batch.samples db,
    λ taken. (
      store_samples sql org node_id now batch.samples db,
      record_samples-ok sql org node_id now batch.samples db taken,
      next here (sample org node_id now batch.samples),
    ),
  )
  on_message-Steps org node_id now supply unset db w enrolled =
      (λ bad. absurd (cc bad), λ taken. (db, refl, here))

  on_messages-Steps :
      (org node_id : String) (ms : List AgentMessage) (db : Db)
      → WellFormed db
      → IsEnrolled org node_id db
      → Steps unicode hmac sql env db (on_messages sql org node_id ms db).0
        × ((on_messages sql org node_id ms db).1
            ≡ (if any (is_refused sql) ms then err fault else ok tt))
  unfolding on_messages
  on_messages-Steps org node_id [] db w enrolled = (here, refl)
  on_messages-Steps org node_id (m ∷ ms) db w enrolled =
      let (failed, stored) = on_message-Steps org node_id m.now m.supply m.payload db w enrolled in
      elim (Bool-cases (is_refused sql m)) [
        | inl bad ↦ rw (failed bad, on_messages, bad) (here, refl)
        | inr taken ↦
            let (db', done, run) = stored taken in
            let (rest, result) =
              on_messages-Steps org node_id ms db' (Steps-WellFormed unicode hmac sql env run w)
                (Steps-IsEnrolled unicode hmac sql env org node_id run enrolled) in
            rw (done, on_messages, taken) (Steps-trans unicode hmac sql env run rest, result)
      ]

  module _ (js : Platform) (redis : Redis) (now stored : ℤ) (header : Option (List ℕ))
      (messages : List AgentMessage) (db : Db) (store : redis.Store) where
    -- An accepted stream on well-formed tables is a run of the control plane's steps. It ends
    -- without an error exactly where no message has a value that a column does not take, so that
    -- all its messages are stored, and with a fault otherwise; no other session writes in between.
    pub connect-Steps :
        (who : NodeIdentity)
        → WellFormed db
        → (authenticate_node js sql env redis now stored header db store).1 ≡ ok who
        → let outcome = connect js sql env redis now stored header messages db store in
          Steps unicode hmac sql env db outcome.db
          × (outcome.result ≡ (if any (is_refused sql) messages then err fault else ok tt))
    unfolding connect
    connect-Steps who w accepted =
        let (f, proof, free, set, left) =
          authenticate_node_lem js sql env redis now stored header db store who accepted in
        let node_id = js.uuid_in who.node_id in
        let named : proof.row.id ≡ node_id = proof.named ∙ sym (ap js.uuid_in proof.same_node) in
        let listed : IsEnrolled who.org_id node_id db =
          any-member (is_enrolled who.org_id node_id) proof.row db.nodes
            (ground (
              arith,
              named,
              proof.same_org,
              eq_iff proof.row.id node_id,
              eq_iff proof.row.org_id who.org_id,
            ))
            proof.listed in
        rw accepted (on_messages-Steps who.org_id node_id messages db w listed)
