-- ===== src/FleetService/Scope.antt =====
-- `listNodes` and `getNode` of rpc/fleet-service.ts: which rows a user sees.
use mathlib.Core.List.{Memᴰ, Permᴰ}
use mathlib.Core.List.Permᴰ
use llm_hub.Base.{
  ℕ, ◌≡◌, ◌⊎◌, ◌∙◌, ap, String, ◌==◌, eq_iff, true, false, some, List, [], ◌∷◌, map, any, keep,
  arith, Bool-cases, Option-cases, inl, inr,
}
use llm_hub.Memory.{Floats}
use llm_hub.NodeAuth.{Platform}
use llm_hub.Proto.{NodeView, ListNodesResponse}
use llm_hub.Rpc.{RpcError}
use llm_hub.Result.{Result, ok, err, Result-cases}
use llm_hub.Schema.{NodeRow, DeviceRow, Db}
use llm_hub.Session.{Auth, SessionContext}
use llm_hub.Sql.{Sql}
use llm_hub.Sql.Facts.{first-missing}
use llm_hub.Tenancy.{visible, scoped, rows_of, node_owned, device_owned}
use llm_hub.Uuid.{is_uuid}
use llm_hub.Wire.{node_view, device_views}
use llm_hub.FleetService.{
  session, node_not_found, devices_of, node_views, org_nodes, org_devices, nodes_of_org,
  node_of_org, got, list_nodes, get_node,
}

abbrev pub view_id : NodeView → String
view_id v = v.id

abbrev pub row_id : NodeRow → String
row_id n = n.id

module _ (js : Platform) (floats : Floats) (sql : Sql) where
  node_view-id :
      (n : NodeRow) (rows : List DeviceRow) (v : NodeView)
      → node_view floats n rows ≡ some v
      → v.id ≡ n.id
  unfolding node_view
  node_view-id n rows v e = elim (Option-cases (device_views floats rows)) [
    | inl bad ↦ absurd (ground (arith, bad))
    | inr (views, good) ↦ ground (arith, good)
  ]

  node_views-id :
      (ns : List NodeRow) (devices : List DeviceRow) (vs : List NodeView)
      → node_views js floats sql ns devices ≡ some vs
      → map view_id vs ≡ map row_id ns
  unfolding node_views
  node_views-id [] devices vs e = let same : [] ≡ vs = ground arith in rw (← same)
  node_views-id (n ∷ ns) devices vs e =
      let own = keep (λ d. devices_of js floats sql d n.id) devices in
      elim (Option-cases (node_view floats n own)) [
        | inl bad ↦ absurd (ground (arith, bad))
        | inr (v, good) ↦ elim (Option-cases (node_views js floats sql ns devices)) [
          | inl bad ↦ absurd (ground (arith, good, bad))
          | inr (ws, rest) ↦
              let same : v ∷ ws ≡ vs = ground (arith, good, rest) in
              rw (← same, node_view-id n own v good, node_views-id ns devices ws rest)
        ]
      ]

  org_nodes-permᴰ :
      (org : String) (db : Db) → Permᴰ (org_nodes js floats sql org db) (rows_of org db.nodes)
  org_nodes-permᴰ org db =
      Permᴰ.trans (sql.order_by_lem (λ (n : NodeRow). n.name) (sql.select (visible org) db.nodes))
        (sql.select_lem (visible org) db.nodes)

  got-eq-ok :
      (r : Result RpcError NodeView) (v : NodeView)
      → got js floats sql r ≡ ok (record { node = some v })
      → r ≡ ok v
  got-eq-ok (ok w) v e = ground (arith, e)
  got-eq-ok (err x) v e = absurd (cc e)

  node_of_org_hidden :
      (org : String) (node_id : List ℕ) (db : Db)
      → (is_uuid node_id ≡ false)
        ⊎ (any (scoped org (λ (n : NodeRow). n.id == js.uuid_in node_id)) db.nodes ≡ false)
      → node_of_org js floats sql org node_id db ≡ err node_not_found
  unfolding node_of_org
  node_of_org_hidden org node_id db (inl malformed) = rw malformed
  node_of_org_hidden org node_id db (inr absent) =
      let missing =
        first-missing sql (scoped org (λ (n : NodeRow). n.id == js.uuid_in node_id)) db.nodes
          absent in
      elim (Bool-cases (is_uuid node_id)) [
        | inl shaped ↦ rw (shaped, missing, node_of_org)
        | inr malformed ↦ rw malformed
      ]

  node_of_org-eq-ok :
      (org : String) (node_id : List ℕ) (db : Db) (v : NodeView)
      → node_of_org js floats sql org node_id db ≡ ok v
      → (n : NodeRow) × Memᴰ n db.nodes
        × (n.org_id ≡ org)
        × (n.id ≡ js.uuid_in node_id)
        × (rows : List DeviceRow) × Permᴰ rows
            (keep (scoped org (λ d. devices_of js floats sql d n.id)) db.devices)
        × (node_view floats n rows ≡ some v)
  unfolding node_of_org
  node_of_org-eq-ok org node_id db v e = elim (Bool-cases (is_uuid node_id)) [
    | inr malformed ↦ absurd (ground (arith, malformed))
    | inl shaped ↦
        let p = scoped org (λ (n : NodeRow). n.id == js.uuid_in node_id) in
        elim (Option-cases (sql.first p db.nodes)) [
          | inl missing ↦ absurd (ground (arith, shaped, missing))
          | inr (n, found) ↦
              let (passed, listed) = sql.first-some p db.nodes n found in
              let mine = scoped org (λ d. devices_of js floats sql d n.id) in
              let rows = org_devices js floats sql org (λ d. devices_of js floats sql d n.id) db in
              elim (Option-cases (node_view floats n rows)) [
                | inl bad ↦ absurd (ground (arith, shaped, found, bad))
                | inr (w, shown) ↦
                    let same : w ≡ v = ground (arith, shaped, found, shown) in
                    (
                      n,
                      listed,
                      ground (arith, passed, eq_iff n.org_id org),
                      ground (arith, passed, eq_iff n.id (js.uuid_in node_id)),
                      rows,
                      Permᴰ.trans
                          (sql.order_by_lem (λ (d : DeviceRow). d.local_id)
                            (sql.select mine db.devices))
                          (sql.select_lem mine db.devices),
                      shown ∙ ap (λ x. some x) same,
                    )
              ]
        ]
  ]

  module _ (auth : Auth) (headers : auth.Headers) (db : Db) where
    -- What is listed is each node of the session's organization once, in some order, and no other
    -- node.
    pub list_nodes-eq-ok :
        (res : ListNodesResponse)
        → list_nodes js floats sql auth headers db ≡ ok res
        → (who : SessionContext) × (session auth headers ≡ ok who)
          × Permᴰ (map view_id res.nodes) (map row_id (rows_of who.org_id db.nodes))
    unfolding list_nodes nodes_of_org
    list_nodes-eq-ok res e = elim (Result-cases (session auth headers)) [
      | inl (c, bad) ↦ absurd (ground (arith, bad))
      | inr (who, good) ↦
          let rows = org_nodes js floats sql who.org_id db in
          let devices = org_devices js floats sql who.org_id (λ d. true) db in
          elim (Option-cases (node_views js floats sql rows devices)) [
            | inl bad ↦ absurd (ground (arith, good, bad))
            | inr (ws, shown) ↦
                let same : record { nodes = ws } ≡ res = ground (arith, good, shown) in
                (
                  who,
                  good,
                  rw (← same, node_views-id rows devices ws shown)
                      (Permᴰ.map row_id (org_nodes-permᴰ who.org_id db)),
                )
          ]
    ]

    -- For a signed-in user, a node is shown only if it is in the table under that id and belongs
    -- to the session's organization, with exactly its devices there in some order; and a malformed
    -- id gets the same answer as an id that no node of the organization has, another
    -- organization's included: not found.
    pub get_node_lem :
        (node_id : List ℕ) (who : SessionContext)
        → session auth headers ≡ ok who
        → ((v : NodeView)
            → get_node js floats sql auth headers node_id db ≡ ok (record { node = some v })
            → (n : NodeRow) × Memᴰ n db.nodes
              × (n.org_id ≡ who.org_id)
              × (n.id ≡ js.uuid_in node_id)
              × (rows : List DeviceRow) × Permᴰ rows
                  (keep (scoped who.org_id (λ d. devices_of js floats sql d n.id)) db.devices)
              × (node_view floats n rows ≡ some v))
          × ((is_uuid node_id ≡ false)
                ⊎ (any (scoped who.org_id (λ (n : NodeRow). n.id == js.uuid_in node_id)) db.nodes
                    ≡ false)
              → get_node js floats sql auth headers node_id db ≡ err node_not_found)
    unfolding get_node node_of_org
    get_node_lem node_id who good = (
      λ v e.
          node_of_org-eq-ok who.org_id node_id db v
            (got-eq-ok (node_of_org js floats sql who.org_id node_id db) v (rw good at e)),
      λ hidden. rw good (ap (got js floats sql) (node_of_org_hidden who.org_id node_id db hidden)),
    )
