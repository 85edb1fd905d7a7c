-- ===== src/NodeService/Stream.antt =====
-- `connect` of rpc/node-service.ts: what a stream can change.
use llm_hub.Base.{ℕ, ◌≡◌, ◌≢◌, refl, ◌∙◌, String, Option, List, [], ◌∷◌, arith, inl, inr}
use llm_hub.Base.Int.{ℤ}
use llm_hub.Env.{Env}
use llm_hub.Inventory.Heartbeat.{mark_node_online-eq-ok}
use llm_hub.Inventory.Samples.{record_samples-eq-ok}
use llm_hub.Inventory.Isolation.{
  record_inventory-SameOrg, store_samples-SameOrg, set_online-SameOrg,
}
use llm_hub.NodeAuth.{Redis, Platform, NodeAuthError, NodeIdentity, authenticate_node}
use llm_hub.NodeAuth
use llm_hub.NodeAuth.Accept.{authenticate_node_rejected}
use llm_hub.Proto.{Payload, hello, inventory, samples, unset, hello_ack}
use llm_hub.Result.{ok, err, Result-cases}
use llm_hub.Rpc.{connect_error, unauthenticated}
use llm_hub.Schema.{Db}
use llm_hub.Sql.{Sql}
use llm_hub.Tenancy.{SameOrg}
use llm_hub.NodeService.{AgentMessage, hello_columns, on_message, on_messages, connect}

SameOrg-refl : (org : String) (a : Db) → SameOrg org a a
SameOrg-refl org a = record { same_nodes = refl; same_devices = refl; same_pairing_codes = refl }

SameOrg-trans : (org : String) (a b c : Db) → SameOrg org a b → SameOrg org b c → SameOrg org a c
SameOrg-trans org a b c s t = record {
  same_nodes = s.same_nodes ∙ t.same_nodes;
  same_devices = s.same_devices ∙ t.same_devices;
  same_pairing_codes = s.same_pairing_codes ∙ t.same_pairing_codes;
}

module _ (org other : String) (h : other ≢ org) (sql : Sql) (node_id : String) where
  on_payload-SameOrg :
      (now : ℤ) (supply : ℕ → String) (payload : Payload) (db db' : Db)
      → on_message sql org node_id (record { now = now; supply = supply; payload = payload }) db
        ≡ ok db'
      → SameOrg other db' db
  unfolding on_message
  on_payload-SameOrg now supply (hello x) db db' e =
      let same = mark_node_online-eq-ok sql org node_id now (hello_columns x) db db' e in
      rw (← same) (set_online-SameOrg org other h sql node_id now (hello_columns x) db)
  on_payload-SameOrg now supply (inventory devices) db db' e =
      record_inventory-SameOrg org other h sql node_id supply devices.devices db db' e
  on_payload-SameOrg now supply (samples batch) db db' e =
      let same = record_samples-eq-ok sql org node_id now batch.samples db db' e in
      rw (← same) (store_samples-SameOrg org other h sql node_id now batch.samples db)
  on_payload-SameOrg now supply unset db db' e =
      let same : db ≡ db' = ground arith in rw (← same) (SameOrg-refl other db)

  on_messages-SameOrg :
      (ms : List AgentMessage) (db : Db) → SameOrg other (on_messages sql org node_id ms db).0 db
  unfolding on_messages
  on_messages-SameOrg [] db = SameOrg-refl other db
  on_messages-SameOrg (m ∷ ms) db = elim (Result-cases (on_message sql org node_id m db)) [
    | inl (e, failed) ↦ rw (failed, on_messages) (SameOrg-refl other db)
    | inr (db', done) ↦
        rw (done, on_messages)
          (SameOrg-trans other (on_messages sql org node_id ms db').0 db' db
            (on_messages-SameOrg ms db') (on_payload-SameOrg m.now m.supply m.payload db db' done))
  ]

module _ (js : Platform) (sql : Sql) (env : Env) (redis : Redis) (now stored : ℤ)
    (header : Option (List ℕ)) (messages : List AgentMessage) (db : Db) (store : redis.Store) where
  -- A stream whose header is rejected ends with the reason before anything is sent, and whatever
  -- its messages are, neither the database nor Redis changes.
  pub connect_unauthenticated :
      (e : NodeAuthError)
      → (authenticate_node js sql env redis now stored header db store).1 ≡ err e
      → let outcome = connect js sql env redis now stored header messages db store in
        (outcome.result ≡ err (connect_error unauthenticated (NodeAuth.message e)))
        × (outcome.db ≡ db)
        × (outcome.sent ≡ [])
        × (outcome.store ≡ store)
  unfolding connect
  connect_unauthenticated e rejected =
      let kept =
        authenticate_node_rejected js sql env redis now stored header db store e rejected in
      let whole : authenticate_node js sql env redis now stored header db store ≡ (store, err e) =
        λ i. (kept i, rejected i) in
      rw whole (refl, refl, refl, refl)

  -- A stream whose header is accepted is greeted with its node's id and the interval, and whatever
  -- its messages are, and wherever it ends, it changes no row of an organization other than the
  -- node's.
  pub connect-SameOrg :
      (who : NodeIdentity) (other : String)
      → (authenticate_node js sql env redis now stored header db store).1 ≡ ok who
      → other ≢ who.org_id
      → let outcome = connect js sql env redis now stored header messages db store in
        (outcome.sent
          ≡ hello_ack
              (record { node_id = who.node_id; sample_interval_ms = env.sample_interval_ms })
            ∷ [])
        × SameOrg other outcome.db db
  unfolding connect
  connect-SameOrg who other accepted h =
      rw accepted
        (refl, on_messages-SameOrg who.org_id other h sql (js.uuid_in who.node_id) messages db)
