-- ===== src/System.antt =====
-- The control plane as a whole: every statement or transaction that one of its calls or its sweeper
-- runs, as a step of the database. The steps of different calls come in any order.
pub mod WellFormed
pub mod Tables
pub mod Invariant
pub mod Enrolled
pub mod Lasting
pub mod Silence
pub mod Onboarding
pub mod Runs
mod Tests
use llm_hub.Base.{
  ℕ, ◌≡◌, String, ◌==◌, Bool, false, true, ◌&&◌, Option, none, some, List, [], ◌∷◌, any,
}
use llm_hub.Base.Int.{ℤ}
use llm_hub.Enrollment.{EnrollInput, insert_node}
use llm_hub.Env.{Env}
use llm_hub.Inventory.{is_node, record_inventory, store_samples, set_online}
use llm_hub.Pairing.Race.{marked}
use llm_hub.Pairing.{Unicode, Hmac, Redeemed, has_id, is_claimable, set_used, mint_pairing_code}
use llm_hub.Proto.{Device, DeviceSample}
use llm_hub.Result.{ok}
use llm_hub.Schema.{HostColumns, NodeRow, PairingRow, Db}
use llm_hub.Sql.{Sql}
use llm_hub.Sweeper.{goes_offline, goes_degraded, set_status}

-- The node of that id is in the table, in that organization.
abbrev pub is_enrolled : String → String → NodeRow → Bool
is_enrolled org node_id n = n.id == node_id && n.org_id == org

abbrev pub IsEnrolled : String → String → Db → Type 0
IsEnrolled org node_id db = any (is_enrolled org node_id) db.nodes ≡ true

module _ (unicode : Unicode) (hmac : Hmac) (sql : Sql) (env : Env) where
  -- The statement that gives an expired code back; the one that claims it is `marked`.
  abbrev pub release_code : String → Db → Db
  release_code id db = record db {
    pairing_codes = sql.update (has_id id) (set_used none) db.pairing_codes;
  }

  -- The two statements of the sweep.
  abbrev pub pass_offline : ℤ → Db → Db
  pass_offline now db = record db {
    nodes = sql.update (goes_offline env now) (set_status "offline") db.nodes;
  }

  abbrev pub pass_degraded : ℤ → Db → Db
  pass_degraded now db = record db {
    nodes = sql.update (goes_degraded env now) (set_status "degraded") db.nodes;
  }

  -- A new id that the database makes up is one that no row has. A node's messages come from a node
  -- that was in the table when its header was accepted; no call deletes nodes.
  -- A greeting or a batch that fails is no step; those here are with any values.
  pub data Step (db : Db) : Db → Type 0 where
    mint :
        (random : ℕ → ℕ) (id : String) (now : ℤ) (org_id user_id node_name : String)
        → any (has_id id) db.pairing_codes ≡ false
        → Step db
            (mint_pairing_code unicode hmac sql env random id now org_id user_id node_name db).0
    claim : (now : ℤ) (hash : String) → Step db (marked unicode hmac sql env now hash db)
    release : (id : String) → Step db (release_code id db)
    enroll :
        (id : String) (input : EnrollInput) (claimed : Redeemed)
        → any (is_node id) db.nodes ≡ false
        → Step db (insert_node unicode hmac sql env id input claimed db).0
    greet :
        (org node_id : String) (now : ℤ) (host : HostColumns)
        → Step db (set_online sql org node_id now host db)
    report :
        (org node_id : String) (supply : ℕ → String) (reported : List Device) {db' : Db}
        → IsEnrolled org node_id db
        → record_inventory sql org node_id supply reported db ≡ ok db'
        → Step db db'
    sample :
        (org node_id : String) (now : ℤ) (samples : List DeviceSample)
        → Step db (store_samples sql org node_id now samples db)
    sweep_offline : (now : ℤ) → Step db (pass_offline now db)
    sweep_degraded : (now : ℤ) → Step db (pass_degraded now db)

  pub data Steps (a : Db) : Db → Type 0 where
    here : Steps a a
    next : {b c : Db} → Steps a b → Step b c → Steps a c
