-- ===== src/NodeService.antt =====
-- apps/control-plane/src/rpc/node-service.ts: the calls of agents. A stream is the list of its
-- messages, each with the clock and the new ids of its transaction; it ends with the list, or with
-- the first message whose transaction fails.
pub mod Stream
mod Tests
use llm_hub.Base.{ℕ, String, Bool, false, any, Option, none, some, List, [], ◌∷◌}
use llm_hub.Base.Int.{ℤ}
use llm_hub.Base.Text.{codes}
use llm_hub.Enrollment.{EnrollError, EnrollInput, enroll_node}
use llm_hub.Enrollment
use llm_hub.Env.{Env}
use llm_hub.Inventory.{
  refuses_known, known_devices, record_inventory, record_samples, mark_node_online,
}
use llm_hub.NodeAuth.{Redis, Platform, NodeAuthError, NodeIdentity, authenticate_node}
use llm_hub.NodeAuth
use llm_hub.Pairing.{Unicode, Hmac}
use llm_hub.Proto.{
  EnrollRequest, EnrollResponse, Hello, HostInfo, Payload, hello, inventory, samples, unset,
  ServerMessage, hello_ack,
}
use llm_hub.Result.{Result, ok, err}
use llm_hub.Rpc.{RpcError, connect_error, unauthenticated, invalid_argument, fault}
use llm_hub.Schema.{HostColumns, Db}
use llm_hub.Sql.{Sql}
use llm_hub.Storable.{refuses_host, refuses_sample}
use llm_hub.Tenancy.{DbError}
use llm_hub.Wire.{host_columns}

abbrev pub enroll_answer :
    Db × Result EnrollError EnrollResponse → Db × Result RpcError EnrollResponse
enroll_answer (db, ok answer) = (db, ok answer)
enroll_answer (db, err e) = elim (Enrollment.message e) [
  | some text ↦ (db, err (connect_error invalid_argument text))
  | none ↦ (db, err fault)
]

module _ (unicode : Unicode) (hmac : Hmac) (sql : Sql) (env : Env) where
  unfoldable pub enroll :
      (Db → Db) → ℤ → ℤ → String → EnrollRequest → Db → Db × Result RpcError EnrollResponse
  unfolding host_columns
  enroll others claimed checked id request db = enroll_answer (
      enroll_node unicode hmac sql env others claimed checked id
        (record {
          pairing_code = codes request.pairing_code;
          public_key = request.public_key;
          node_name = request.node_name;
          host = host_columns request.host;
        })
        db)

-- A message of the agent, with the clock of its transaction and the ids that the database makes up.
pub record AgentMessage : Type 0 where
  pub now : ℤ
  pub supply : ℕ → String
  pub payload : Payload

-- `{...hostColumns(host), agentVersion}`
abbrev pub hello_columns : Hello → HostColumns
hello_columns h = record (host_columns h.host) { agent_version = h.agent_version }

-- The message holds a value that a column of its statements does not take.
unfoldable pub is_refused : Sql → AgentMessage → Bool
is_refused sql m = elim m.payload [
  | hello h ↦ refuses_host (hello_columns h)
  | inventory report ↦ any refuses_known (known_devices report.devices)
  | samples batch ↦ any (refuses_sample sql) batch.samples
  | unset ↦ false
]

module _ (sql : Sql) (org node_id : String) where
  unfoldable pub on_message : AgentMessage → Db → Result DbError Db
  on_message m db = elim m.payload [
    | hello h ↦ mark_node_online sql org node_id m.now (hello_columns h) db
    | inventory report ↦ record_inventory sql org node_id m.supply report.devices db
    | samples batch ↦ record_samples sql org node_id m.now batch.samples db
    | unset ↦ ok db
  ]

  unfoldable pub on_messages : List AgentMessage → Db → Db × Result RpcError (Unit {0})
  on_messages [] db = (db, ok tt)
  on_messages (m ∷ ms) db = elim (on_message m db) [
    | err e ↦ (db, err fault)
    | ok db' ↦ on_messages ms db'
  ]

module _ (js : Platform) (sql : Sql) (env : Env) (redis : Redis) where
  pub record Outcome : Type 0 where
    pub store : redis.Store
    pub db : Db
    pub sent : List ServerMessage
    pub result : Result RpcError (Unit {0})

  abbrev pub serve_stream :
      List AgentMessage → Db → redis.Store × Result NodeAuthError NodeIdentity → Outcome
  serve_stream messages db (store, err e) = record {
    store = store;
    db = db;
    sent = [];
    result = err (connect_error unauthenticated (NodeAuth.message e));
  }
  serve_stream messages db (store, ok who) =
      let (db', result) = on_messages sql who.org_id (js.uuid_in who.node_id) messages db in
      record {
        store = store;
        db = db';
        sent =
            hello_ack
              (record { node_id = who.node_id; sample_interval_ms = env.sample_interval_ms })
            ∷ [];
        result = result;
      }

  unfoldable pub connect : ℤ → ℤ → Option (List ℕ) → List AgentMessage → Db → redis.Store → Outcome
  connect now stored header messages db store =
      serve_stream messages db (authenticate_node js sql env redis now stored header db store)
