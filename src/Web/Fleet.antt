-- ===== src/Web/Fleet.antt =====
-- apps/web/src/routes/fleet.tsx: the page of all machines. `useQuery` and its polling are not
-- modelled: `Query` is what it has at one moment.
use llm_hub.Base.{String, Bool, true, false, Option, none, some, List, [], ◌∷◌, map}
use llm_hub.Base.Int.{ℤ}
use llm_hub.Proto.{ListNodesResponse, NodeView}
use llm_hub.Web.Bar.{Ratio}
use llm_hub.Web.Card.{Card, node_card}

pub record Query : Type 0 where
  pub data_now : Option ListNodesResponse
  pub is_pending : Bool
  pub error : Option String

pub record FleetPage : Type 0 where
  pub is_loading : Bool
  pub alert : Option String
  pub is_empty : Bool
  pub cards : List Card

abbrev pub cards_of : Ratio → ℤ → Option ListNodesResponse → List Card
cards_of js now none = []
cards_of js now (some res) = map (λ (node : NodeView). node_card js node now) res.nodes

abbrev pub lists_none : Option ListNodesResponse → Bool
lists_none none = false
lists_none (some res) = elim res.nodes [ [] ↦ true | _ ∷ _ ↦ false ]

unfoldable pub fleet_route : Ratio → ℤ → Query → FleetPage
fleet_route js now q = record {
  is_loading = q.is_pending;
  alert = q.error;
  is_empty = lists_none q.data_now;
  cards = cards_of js now q.data_now;
}
