-- ===== src/System/WellFormed.antt =====
-- What holds of the tables at every moment, and what it says of one node's devices.
use llm_hub.Base.{
  ◌≡◌, refl, String, ◌==◌, eq_iff, Bool, true, false, ◌&&◌, ◌||◌, List, [], ◌∷◌, any, All, arith,
  Bool-cases, inl, inr,
}
use llm_hub.Base.Distinct.{Distinct, All-weaken}
use llm_hub.Enrollment.{has_key}
use llm_hub.Inventory.{is_at, is_node}
use llm_hub.Inventory.Report.{AllOwn, is_own}
use llm_hub.Pairing.{has_hash, has_id}
use llm_hub.Schema.{NodeRow, DeviceRow, PairingRow, Db}

abbrev pub is_status : String → Bool
is_status s = s == "online" || (s == "degraded" || s == "offline")

-- The device's node is in the table, in the device's organization.
abbrev pub has_owner : List NodeRow → DeviceRow → Bool
has_owner nodes d = any (λ (n : NodeRow). n.id == d.node_id && n.org_id == d.org_id) nodes

pub record WellFormed (db : Db) : Type 0 where
  pub ids : Distinct (λ (n m : NodeRow). is_node n.id m) db.nodes
  pub keys : Distinct (λ (n m : NodeRow). has_key n.public_key m) db.nodes
  pub statuses : All (λ (n : NodeRow). is_status n.status ≡ true) db.nodes
  pub places : Distinct (λ (d e : DeviceRow). is_at d.node_id d.local_id e) db.devices
  pub owners : All (λ (d : DeviceRow). has_owner db.nodes d ≡ true) db.devices
  pub hashes : Distinct (λ (r s : PairingRow). has_hash r.code_hash s) db.pairing_codes
  pub code_ids : Distinct (λ (r s : PairingRow). has_id r.id s) db.pairing_codes

pub WellFormed-empty :
    WellFormed (record { nodes = []; devices = []; pairing_codes = []; organizations = [] })
WellFormed-empty = record {
  ids = tt;
  keys = tt;
  statuses = tt;
  places = tt;
  owners = tt;
  hashes = tt;
  code_ids = tt;
}

none_at :
    (i : String) (q : NodeRow → Bool) (nodes : List NodeRow)
    → any (is_node i) nodes ≡ false
    → any (λ (n : NodeRow). n.id == i && q n) nodes ≡ false
none_at i q [] h = refl
none_at i q (n ∷ nodes) h = ground (arith, none_at i q nodes, h)

-- The one node of an id decides the organization of a device of that node.
owner-is_own :
    (nodes : List NodeRow) (org node_id : String) (d : DeviceRow)
    → Distinct (λ (n m : NodeRow). is_node n.id m) nodes
    → any (λ (n : NodeRow). n.id == node_id && n.org_id == org) nodes ≡ true
    → has_owner nodes d ≡ true
    → is_own org node_id d ≡ true
owner-is_own [] org node_id d distinct here owned = cc
owner-is_own (n ∷ nodes) org node_id d distinct here owned =
    elim (Bool-cases (d.node_id == node_id)) [
      | inr other ↦ ground (arith, other)
      | inl same ↦
          let at : d.node_id ≡ node_id = (eq_iff d.node_id node_id).0 same in
          elim (Bool-cases (n.id == node_id)) [
            | inr later ↦
                owner-is_own nodes org node_id d distinct.1 (ground (arith, here, later))
                  (ground (arith, rw at at owned, later))
            | inl first ↦
                let id : n.id ≡ node_id = (eq_iff n.id node_id).0 first in
                let absent : any (is_node node_id) nodes ≡ false = rw id at distinct.0 in
                let mine = none_at node_id (λ m. m.org_id == org) nodes absent in
                let its = none_at node_id (λ m. m.org_id == d.org_id) nodes absent in
                let one : n.org_id ≡ org = ground (arith, here, mine, eq_iff n.org_id org) in
                let two : n.org_id ≡ d.org_id =
                  ground (arith, rw at at owned, its, eq_iff n.org_id d.org_id) in
                ground (arith, rw two at one, eq_iff d.org_id org)
          ]
    ]

pub WellFormed-AllOwn :
    (org node_id : String) (db : Db)
    → WellFormed db
    → any (λ (n : NodeRow). n.id == node_id && n.org_id == org) db.nodes ≡ true
    → AllOwn org node_id db.devices
WellFormed-AllOwn org node_id db w here =
    All-weaken (λ d. has_owner db.nodes d ≡ true) (λ d. is_own org node_id d ≡ true) db.devices
      (λ d. owner-is_own db.nodes org node_id d w.ids here) w.owners
