-- ===== src/Agent/Joined.antt =====
-- From the agent's `enroll` of agent/cmd/agent/main.go through `enrollNode` of the control plane to the
-- connection that the agent's `run` makes.
use llm_hub.Agent.{Ed25519}
use llm_hub.Agent.Commands.{
  Text, Json, Flags, EnrollRequest, EnrollResult, Started, CommandError, request, run, enroll,
}
use llm_hub.Agent.Commands.Laws.{enroll-eq-ok, run-enroll}
use llm_hub.Agent.Fresh.{Agrees, fresh_header_accepted}
use llm_hub.Agent.Header.{auth_header, header_fields, is_uuid-IsField}
use llm_hub.Agent.Identity.{Key, load_or_create}
use llm_hub.Agent.Machine.{Keyring, Files, Coding, State}
use llm_hub.Base.{
  any, ℕ, ◌^◌, ◌<◌, ◌≡◌, sym, ap, ◌∙◌, String, true, false, Option, some, none, List, length, arith,
}
use llm_hub.Base.Int.{ℤ, pos, ◌+ℤ◌, ◌≤ℤ◌}
use llm_hub.Base.Text.{codes}
use llm_hub.Enrollment
use llm_hub.Enrollment.{EnrollInput, EnrollError}
use llm_hub.Enrollment.Joined.{enroll_node-Joined}
use llm_hub.Env.{Env}
use llm_hub.Inventory.{is_node}
use llm_hub.NodeAuth.{Redis, Platform, nonce_key, authenticate_node, is_empty}
use llm_hub.Pairing.{Unicode, Hmac, redeem_pairing_code}
use llm_hub.Proto.{EnrollResponse}
use llm_hub.Result.{Result, ok, err}
use llm_hub.Schema.{HostColumns, Db}
use llm_hub.Sql.{Sql}
use llm_hub.System.{Steps}
use llm_hub.System.Invariant.{Steps-WellFormed}
use llm_hub.System.Runs.{enroll_node-Steps}
use llm_hub.System.WellFormed.{WellFormed}
use llm_hub.Uuid.{is_uuid}

-- One call of the control plane's `enroll`: what other sessions commit, the two clocks, the new id,
-- and the tables.
pub record Call : Type 0 where
  pub others : Db → Db
  pub claimed : ℤ
  pub checked : ℤ
  pub id : String
  pub db : Db

module _ (unicode : Unicode) (hmac : Hmac) (sql : Sql) (env : Env) (call : Call)
    (host : HostColumns) (spell : Text → String) where
  -- The request as it arrives; `spell` is a text as a string, `host` the facts that it carries.
  abbrev pub input_of : EnrollRequest → EnrollInput
  input_of r = record {
    pairing_code = r.pairing_code;
    public_key = r.public_key;
    node_name = spell r.node_name;
    host = host;
  }

  abbrev pub enrollment : EnrollRequest → Db × Result EnrollError EnrollResponse
  enrollment r =
      Enrollment.enroll_node unicode hmac sql env call.others call.claimed call.checked call.id
        (input_of r) call.db

  abbrev pub answered : Result EnrollError EnrollResponse → Option EnrollResult
  answered (err e) = none
  answered (ok a) =
      some
        (record { node_id = codes a.node_id; org_id = codes a.org_id; org_name = codes a.org_name })

  abbrev pub hub : EnrollRequest → Option EnrollResult
  hub r = answered (enrollment r).1

  module _ (go : Ed25519) (js : Platform) (redis : Redis) (agrees : Agrees go js) (json : Json)
      (files : Files) (coding : Coding) (keyring : Keyring) (go_key : Key → go.PrivateKey)
      (hostname : Text) (flags : Flags) (generated : Option Key) (s : State keyring files) where
    abbrev pub joining : State keyring files × Result CommandError EnrollResult
    joining =
        enroll json files coding keyring (λ k. go.public (go_key k)) hub (some hostname) flags
          generated s

    abbrev pub sent_by : Key → EnrollRequest
    sent_by priv =
        request json files coding keyring (λ k. go.public (go_key k)) hub (some hostname) flags
          hostname priv

    -- A machine whose enroll command succeeded at the control plane can connect: the agent's run
    -- then starts with the node id of the answer and the machine's key, and a header that it makes
    -- is accepted as that node with the organization of the answer, whatever calls and sweeps ran
    -- since, given that it is within the window and its nonce, not empty, is not held in Redis.
    -- Hypotheses: a generated key has 64 bytes, the server is not empty, the tables are well
    -- formed and only calls and sweeps change them, the id that the database makes up is new, the
    -- id of the answer has the shape of a uuid and is read back as itself, the clock is before 2 ^
    -- 53 milliseconds, and both sides implement the same standards of base64url, UTF-8, Ed25519
    -- and decimal numbers.
    pub enrolled_agent_accepted :
        {b : Db} (priv : Key) (answer : EnrollResponse) (result : EnrollResult) (sent : ℕ)
        (raw : List ℕ) (now stored : ℤ) (store : redis.Store)
        → ((k : Key) → generated ≡ some k → length k ≡ 64)
        → is_empty flags.server ≡ false
        → (load_or_create coding keyring files generated s).1 ≡ ok priv
        → joining.1 ≡ ok result
        → (enrollment (sent_by priv)).1 ≡ ok answer
        → is_uuid (codes answer.node_id) ≡ true
        → js.uuid_in (codes answer.node_id) ≡ answer.node_id
        → WellFormed call.db
        → ((d : Db) → Steps unicode hmac sql env d (call.others d))
        → any
            (is_node call.id)
            (call.others
              (redeem_pairing_code unicode hmac sql env call.claimed call.checked
                (sent_by priv).pairing_code
                call.db).0).nodes
          ≡ false
        → Steps unicode hmac sql env (enrollment (sent_by priv)).0 b
        → 0 < length raw
        → sent < 2 ^ 53
        → pos sent ≤ℤ now +ℤ pos env.node_auth_skew_ms
        → now ≤ℤ pos sent +ℤ pos env.node_auth_skew_ms
        → redis.holds
            (nonce_key (header_fields go (codes answer.node_id) (go_key priv) (pos sent) raw))
            stored
            store
          ≡ false
        → (started : Started) × (run json files coding keyring joining.0 ≡ ok started)
          × ((authenticate_node js sql env redis now stored
                (some (auth_header go started.node_id (go_key started.private_key) (pos sent) raw))
                b
                store).1
              ≡ ok (record { node_id = started.node_id; org_id = answer.org_id }))
    enrolled_agent_accepted priv answer result sent raw now stored store long served loaded joined
          accepted shaped read w fair fresh later random small late early unused =
        let named : is_empty (codes answer.node_id) ≡ false =
          (is_uuid-IsField (codes answer.node_id) shaped).0 in
        let mine = key_of priv answer result long served loaded joined accepted named in
        let first =
          enroll_node-Steps unicode hmac sql env call.others call.claimed call.checked call.id
            (input_of (sent_by priv)) call.db fair fresh in
        let (row, listed, id, org, same) =
          enroll_node-Joined unicode hmac sql env call.others call.claimed call.checked call.id
            (input_of (sent_by priv)) call.db answer accepted in
        (
          record { server_url = flags.server; node_id = codes answer.node_id; private_key = priv },
          mine,
          rw (← org) (
              fresh_header_accepted go js sql env agrees (codes answer.node_id) (go_key priv) sent
                raw unicode hmac redis now stored store row
                (Steps-WellFormed unicode hmac sql env first w) listed (id ∙ sym read) same later
                shaped random small late early unused),
        )
      where
        key_of :
            (priv : Key) (answer : EnrollResponse) (result : EnrollResult)
            → ((k : Key) → generated ≡ some k → length k ≡ 64)
            → is_empty flags.server ≡ false
            → (load_or_create coding keyring files generated s).1 ≡ ok priv
            → joining.1 ≡ ok result
            → (enrollment (sent_by priv)).1 ≡ ok answer
            → is_empty (codes answer.node_id) ≡ false
            → run json files coding keyring joining.0
              ≡ ok (record {
                server_url = flags.server;
                node_id = codes answer.node_id;
                private_key = priv;
              })
        key_of priv answer result long served loaded joined accepted named =
            let public = λ (k : Key). go.public (go_key k) in
            let (mine, its, heard, first, given, all) =
              enroll-eq-ok json files coding keyring public hub (some hostname) flags generated s
                result joined in
            let same : mine ≡ priv = ground (arith, first, loaded) in
            let spoken : its ≡ hostname = ground (arith, heard) in
            let told : hub (sent_by priv) ≡ some result = rw (same, spoken) at given in
            let answer_of : hub (sent_by priv)
                ≡ some (record {
                  node_id = codes answer.node_id;
                  org_id = codes answer.org_id;
                  org_name = codes answer.org_name;
                }) =
              ap answered accepted in
            let name : result.node_id ≡ codes answer.node_id = ground (arith, told, answer_of) in
            let (used, host', read, second, asked, ran) =
              run-enroll json files coding keyring public hub (some hostname) flags generated s
                result long served (rw name named) joined in
            let same_key : used ≡ priv = ground (arith, second, loaded) in
            rw (same_key, name) at ran
