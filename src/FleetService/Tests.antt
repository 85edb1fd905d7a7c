-- ===== src/FleetService/Tests.antt =====
-- The fleet of the fixture as its user sees it, and instances of the theorems.
use mathlib.Core.List.{Memᴰ, Permᴰ}
use llm_hub.Base.{ℕ, ◌≡◌, ◌⊎◌, refl, ◌==◌, false, some, List, [], ◌∷◌, any, keep, map}
use llm_hub.Base.Int.{pos}
use llm_hub.Base.Text.{codes}
use llm_hub.Fixture.{ann, service, fleet, node}
use llm_hub.Memory.Exact.{exact}
use llm_hub.NodeAuth.Reference.{plain}
use llm_hub.Proto.{NodeView}
use llm_hub.Result.{ok, err}
use llm_hub.Schema.{NodeRow, DeviceRow, Db}
use llm_hub.Session.{
  SessionContext, require_session, find_organization, self_heal_organization, with_organization,
}
use llm_hub.Sql.Reference.{lists}
use llm_hub.Tenancy.{scoped, rows_of, node_owned, device_owned}
use llm_hub.Uuid.{is_uuid}
use llm_hub.Wire.{node_view, device_views}
use llm_hub.FleetService.{
  session, node_not_found, devices_of, node_views, nodes_of_org, list_nodes, get_node,
}
use llm_hub.FleetService.Scope.{view_id, row_id, list_nodes-eq-ok, get_node_lem}

session_test : session service 1 ≡ ok ann
unfolding session require_session find_organization self_heal_organization with_organization
session_test = refl

abbrev id : List ℕ
id = codes "0188f4f6-0000-4000-8000-00000000000A"

get_node_lem_example :
    ((v : NodeView)
      → get_node plain exact lists service 1 id fleet ≡ ok (record { node = some v })
      → (n : NodeRow) × Memᴰ n fleet.nodes
        × (n.org_id ≡ ann.org_id)
        × (n.id ≡ plain.uuid_in id)
        × (rows : List DeviceRow) × Permᴰ rows
            (keep (scoped "acme" (λ d. devices_of plain exact lists d n.id)) fleet.devices)
        × (node_view exact n rows ≡ some v))
    × ((is_uuid id ≡ false)
          ⊎ (any (scoped "acme" (λ (n : NodeRow). n.id == plain.uuid_in id)) fleet.nodes ≡ false)
        → get_node plain exact lists service 1 id fleet ≡ err node_not_found)
get_node_lem_example = get_node_lem plain exact lists service 1 fleet id ann session_test

-- One node without devices.
abbrev bare : Db
bare = record fleet { devices = [] }

abbrev shown : List NodeView
shown =
    record {
      id = "n1";
      name = "box";
      status = "offline";
      last_seen_unix_ms = pos 0;
      host = some node.host;
      devices = [];
    }
    ∷ []

list_test : list_nodes plain exact lists service 1 bare ≡ ok (record { nodes = shown })
unfolding list_nodes nodes_of_org node_views node_view device_views session require_session
    find_organization self_heal_organization with_organization
list_test = refl

list_nodes-eq-ok_example :
    (who : SessionContext) × (session service 1 ≡ ok who)
    × Permᴰ (map view_id shown) (map row_id (rows_of who.org_id bare.nodes))
list_nodes-eq-ok_example =
    list_nodes-eq-ok plain exact lists service 1 bare (record { nodes = shown }) list_test
