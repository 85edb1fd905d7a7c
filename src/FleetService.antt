-- ===== src/FleetService.antt =====
-- apps/control-plane/src/rpc/fleet-service.ts: what a signed-in user may read, and the pairing codes.
pub mod Scope
mod Tests
use llm_hub.Base.{
  ℕ, String, ◌==◌, Bool, true, Option, none, some, List, [], ◌∷◌, keep, if◌then◌else◌,
}
use llm_hub.Base.Int.{ℤ}
use llm_hub.Env.{Env}
use llm_hub.Memory.{Floats}
use llm_hub.NodeAuth.{Platform}
use llm_hub.Pairing.{Unicode, Hmac, Minted, mint_pairing_code}
use llm_hub.Proto.{NodeView, ListNodesResponse, GetNodeResponse, CreatePairingCodeResponse}
use llm_hub.Result.{Result, ok, err, ◌>>=◌}
use llm_hub.Rpc.{Code, unauthenticated, not_found, RpcError, connect_error, fault}
use llm_hub.Schema.{NodeRow, DeviceRow, Db}
use llm_hub.Session.{Auth, SessionContext, http_error, unexpected, require_session}
use llm_hub.Sql.{Sql}
use llm_hub.Tenancy.{DbError, visible, scoped, node_owned, device_owned}
use llm_hub.Uuid.{is_uuid}
use llm_hub.Wire.{node_view}

abbrev pub node_not_found : RpcError
node_not_found = connect_error not_found "node not found"

-- An exception of the view's budget.
abbrev pub or_fault {ℓ} : {A : Type ℓ} → Option A → Result RpcError A
or_fault none = err fault
or_fault (some a) = ok a

unfoldable pub session : (auth : Auth) → auth.Headers → Result RpcError SessionContext
session auth headers = elim (require_session auth headers) [
  | ok context ↦ ok context
  | err (http_error status code text) ↦ err (connect_error unauthenticated "sign in required")
  | err unexpected ↦ err fault
]

module _ (js : Platform) (floats : Floats) (sql : Sql) where
  abbrev pub devices_of : DeviceRow → String → Bool
  devices_of d node_id = d.node_id == node_id

  unfoldable pub node_views : List NodeRow → List DeviceRow → Option (List NodeView)
  node_views [] devices = some []
  node_views (n ∷ ns) devices =
      let rest = node_views ns devices in
      elim (node_view floats n (keep (λ d. devices_of d n.id) devices)) [
        | none ↦ none
        | some view ↦ elim rest [ none ↦ none | some views ↦ some (view ∷ views) ]
      ]

  abbrev pub org_nodes : String → Db → List NodeRow
  org_nodes org db = sql.order_by (λ (n : NodeRow). n.name) (sql.select (visible org) db.nodes)

  abbrev pub org_devices : String → (DeviceRow → Bool) → Db → List DeviceRow
  org_devices org p db =
      sql.order_by (λ (d : DeviceRow). d.local_id) (sql.select (scoped org p) db.devices)

  unfoldable pub nodes_of_org : String → Db → Result RpcError (List NodeView)
  nodes_of_org org db = or_fault (node_views (org_nodes org db) (org_devices org (λ d. true) db))

  unfoldable pub node_of_org : String → List ℕ → Db → Result RpcError NodeView
  node_of_org org node_id db =
      if is_uuid node_id
      then elim (sql.first (scoped org (λ (n : NodeRow). n.id == js.uuid_in node_id)) db.nodes) [
        | none ↦ err node_not_found
        | some node ↦
            or_fault (node_view floats node (org_devices org (λ d. devices_of d node.id) db))
      ]
      else err node_not_found

  abbrev pub listed : Result RpcError (List NodeView) → Result RpcError ListNodesResponse
  listed (ok views) = ok (record { nodes = views })
  listed (err e) = err e

  abbrev pub got : Result RpcError NodeView → Result RpcError GetNodeResponse
  got (ok view) = ok (record { node = some view })
  got (err e) = err e

  module _ (auth : Auth) where
    unfoldable pub list_nodes : auth.Headers → Db → Result RpcError ListNodesResponse
    list_nodes headers db = do who ← session auth headers; listed (nodes_of_org who.org_id db)

    unfoldable pub get_node : auth.Headers → List ℕ → Db → Result RpcError GetNodeResponse
    get_node headers node_id db = do
      who ← session auth headers
      got (node_of_org who.org_id node_id db)

-- The database's refusal is an internal error.
abbrev pub minted : Db × Result DbError Minted → Db × Result RpcError CreatePairingCodeResponse
minted (db, ok m) = (db, ok (record { code = m.code; expires_at_unix_ms = m.expires_at }))
minted (db, err e) = (db, err fault)

module _ (unicode : Unicode) (hmac : Hmac) (sql : Sql) (env : Env) (auth : Auth) where
  unfoldable pub create_pairing_code :
      (ℕ → ℕ)
      → String
      → ℤ
      → auth.Headers
      → String
      → Db
      → Db × Result RpcError CreatePairingCodeResponse
  create_pairing_code random id now headers node_name db = elim (session auth headers) [
    | err e ↦ (db, err e)
    | ok who ↦
        minted
          (mint_pairing_code unicode hmac sql env random id now who.org_id who.user_id node_name db)
  ]
