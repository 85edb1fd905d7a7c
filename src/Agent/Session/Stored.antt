-- ===== src/Agent/Session/Stored.antt =====
-- A connection of the agent, as agent/internal/transport/session.go makes it, before `connect` of
-- apps/control-plane/src/rpc/node-service.ts.
use llm_hub.Agent.Inventory.Laws.{Found, discovery, inventory_of}
use llm_hub.Agent.Session.{Script, connect_once}
use llm_hub.Agent.Session.Transcript.{IsBatch, greeting, Reported}
use llm_hub.Agent.Wire.{devices_proto, host_proto}
use llm_hub.Agent.Wire.Laws.{IsSendable, facts_found, stored_facts}
use llm_hub.Base.{Bool, any, false, ℕ, suc, some, ◌≡◌, refl, ◌∙◌, String, List, [], ◌∷◌, All, arith}
use llm_hub.Base.Int.{ℤ, pos}
use llm_hub.Env.{Env}
use llm_hub.Inventory.{known_devices, refuses_known, store_samples, set_online}
use llm_hub.Inventory.Heartbeat.{mark_node_online-ok}
use llm_hub.Storable.{refuses_host, refuses_sample}
use llm_hub.Inventory.Report.{facts_at}
use llm_hub.Inventory.Samples.{store_samples_lem, record_samples-ok}
use llm_hub.NodeService.{AgentMessage, hello_columns, is_refused, on_message, on_messages}
use llm_hub.Pairing.{Unicode, Hmac}
use llm_hub.Proto.{Payload, hello, inventory, samples, unset}
use llm_hub.Result.{ok}
use llm_hub.Schema.{Db}
use llm_hub.Sql.{Sql}
use llm_hub.System.{IsEnrolled, greet, report, sample, Steps, here, next}
use llm_hub.System.Enrolled.{Steps-IsEnrolled}
use llm_hub.System.Invariant.{Steps-WellFormed}
use llm_hub.System.Runs.{report_stored}
use llm_hub.System.WellFormed.{WellFormed, WellFormed-AllOwn}

-- The messages as they arrive, each with the clock and the new ids of its transaction.
abbrev pub delivered : (ℕ → ℤ) → (ℕ → ℕ → String) → ℕ → List Payload → List AgentMessage
delivered now supply i [] = []
delivered now supply i (p ∷ ps) =
    record { now = now i; supply = supply i; payload = p } ∷ delivered now supply (suc i) ps

-- A message of the agent that holds a value that a column does not take.
abbrev pub is_refused_payload : Sql → Payload → Bool
is_refused_payload sql p = is_refused sql (record { now = pos 0; supply = λ i. ""; payload = p })

module _ (unicode : Unicode) (hmac : Hmac) (sql : Sql) (env : Env) (org node_id : String)
    (now : ℕ → ℤ) (supply : ℕ → ℕ → String) where
  batches_kept :
      (i : ℕ) (ps : List Payload) (db : Db) (l : String)
      → All IsBatch ps
      → any (is_refused_payload sql) ps ≡ false
      → WellFormed db
      → IsEnrolled org node_id db
      → let out = on_messages sql org node_id (delivered now supply i ps) db in
        (out.1 ≡ ok tt) × (facts_at node_id l out.0.devices ≡ facts_at node_id l db.devices)
  unfolding on_messages on_message is_refused
  batches_kept i [] db l h taken w enrolled = (refl, refl)
  batches_kept i (samples batch ∷ ps) db l h taken w enrolled =
      let after = store_samples sql org node_id (now i) batch.samples db in
      let run : Steps unicode hmac sql env db after =
        next here (sample org node_id (now i) batch.samples) in
      let good : any (refuses_sample sql) batch.samples ≡ false = ground (arith, taken) in
      let stored = record_samples-ok sql org node_id (now i) batch.samples db good in
      let (fine, same) =
        batches_kept (suc i) ps after l h.1 (ground (arith, taken))
          (Steps-WellFormed unicode hmac sql env run w)
          (Steps-IsEnrolled unicode hmac sql env org node_id run enrolled) in
      let own = WellFormed-AllOwn org node_id db w enrolled in
      let one = store_samples_lem sql org node_id (now i) batch.samples db node_id l own in
      rw (stored, on_messages) (fine, same ∙ one.0)
  batches_kept i (hello x ∷ ps) db l h taken w enrolled = absurd h.0
  batches_kept i (inventory x ∷ ps) db l h taken w enrolled = absurd h.0
  batches_kept i (unset ∷ ps) db l h taken w enrolled = absurd h.0

  -- When a connection of the agent that got as far as its report is delivered to the control
  -- plane, message by message, nothing fails, and the node's devices are those of the agent's
  -- discovery, each with the facts that the agent knows, and no others, however many batches of
  -- samples follow. Hypotheses: the tables are well formed, the node is enrolled, each device's
  -- kind is cpu, cuda or metal and its index below 2 ^ 32, no message has a value that a column
  -- does not take (an index or a number of cores of 2 ^ 31 or more, a byte count of 2 ^ 63 or
  -- more, a NUL in a text, a time that no date holds), and no other session writes in between.
  pub connection_stored :
      (s : Script) (db : Db) (l : String)
      → Reported s (connect_once s).0
      → ((found : List Found)
          → discovery s.probes ≡ some found
          → All (λ (f : Found). IsSendable f.0) found)
      → any (is_refused_payload sql) (connect_once s).0 ≡ false
      → WellFormed db
      → IsEnrolled org node_id db
      → let out = on_messages sql org node_id (delivered now supply 0 (connect_once s).0) db in
        (out.1 ≡ ok tt)
        × (found : List Found) × (discovery s.probes ≡ some found)
        × (facts_at node_id l out.0.devices ≡ facts_found l found)
  unfolding on_messages on_message set_online is_refused
  connection_stored s db l (host, read, found, all, apart, batches, sent, nonempty) sendable taken w
        enrolled =
      let columns =
        hello_columns
          (record { agent_version = s.version; host = some (host_proto s.version host) }) in
      let devices = devices_proto (inventory_of found).devices in
      let whole = greeting s host ∷ (inventory (record { devices = devices }) ∷ batches) in
      let all_taken : any (is_refused_payload sql) whole ≡ false = rw sent at taken in
      let columns_taken : refuses_host columns ≡ false = ground (arith, all_taken) in
      let devices_taken : any refuses_known (known_devices devices) ≡ false =
        ground (arith, all_taken) in
      let greeted = set_online sql org node_id (now 0) columns db in
      let marked = mark_node_online-ok sql org node_id (now 0) columns db columns_taken in
      let first : Steps unicode hmac sql env db greeted =
        next here (greet org node_id (now 0) columns) in
      let (reported, stored) =
        report_stored unicode hmac sql env org node_id db greeted (supply 1) devices w enrolled
          first devices_taken in
      let w1 = Steps-WellFormed unicode hmac sql env first w in
      let e1 = Steps-IsEnrolled unicode hmac sql env org node_id first enrolled in
      let second : Steps unicode hmac sql env db reported =
        next first (report org node_id (supply 1) devices e1 stored) in
      let facts =
        stored_facts sql org node_id (supply 1) found greeted reported l
          (WellFormed-AllOwn org node_id greeted w1 e1) apart (sendable found all) stored in
      let (fine, same) =
        batches_kept 2 batches reported l nonempty (ground (arith, all_taken))
          (Steps-WellFormed unicode hmac sql env second w)
          (Steps-IsEnrolled unicode hmac sql env org node_id second enrolled) in
      let at : on_messages sql org node_id (delivered now supply 0 whole) db
          ≡ on_messages sql org node_id (delivered now supply 2 batches) reported =
        ground (arith, marked, stored) in
      rw (sent, at) (fine, found, all, same ∙ facts)
