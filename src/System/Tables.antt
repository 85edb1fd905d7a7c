-- ===== src/System/Tables.antt =====
-- What each kind of statement does to the tables, as far as their being well formed goes.
use llm_hub.Base.{
  ℕ, suc, ◌≡◌, refl, ap, String, ◌==◌, eq_iff, Bool, true, false, ◌&&◌, Option, List, [], ◌∷◌, ◌++◌,
  any, keep, change, All, All-append, arith, Bool-cases, inl, inr,
}
use llm_hub.Base.Distinct.{
  Distinct, any-change, any-append, Distinct-change, Distinct-snoc, Distinct-keep, All-change,
  All-keep, All-weaken,
}
use llm_hub.Base.Int.{ℤ}
use llm_hub.Enrollment.{has_key}
use llm_hub.Enrollment.Keys.{KeysDistinct-append}
use llm_hub.Inventory.{
  KnownDevice, is_at, is_node, set_facts, new_device, upsert_device, upsert_all,
}
use llm_hub.Inventory.Report.{upsert_all-cons}
use llm_hub.Pairing.{has_hash, has_id, set_used}
use llm_hub.Result.{ok}
use llm_hub.Schema.{NodeRow, DeviceRow, PairingRow, Db}
use llm_hub.Sql.{Sql}
use llm_hub.Tenancy.{device_owned}
use llm_hub.System.WellFormed.{WellFormed, is_status, has_owner}

eq_comm : (a b : String) → (a == b) ≡ (b == a)
eq_comm a b = ground (arith, eq_iff a b, eq_iff b a)

-- An update of nodes that keeps their identity and leaves a status.
pub nodes-WellFormed :
    (p : NodeRow → Bool) (f : NodeRow → NodeRow) (db : Db)
    → ((n : NodeRow) → (f n).id ≡ n.id)
    → ((n : NodeRow) → (f n).org_id ≡ n.org_id)
    → ((n : NodeRow) → (f n).public_key ≡ n.public_key)
    → ((n : NodeRow) → is_status n.status ≡ true → is_status (f n).status ≡ true)
    → WellFormed db
    → WellFormed (record db { nodes = change p f db.nodes })
nodes-WellFormed p f db id org key status w = record {
  ids =
      Distinct-change (λ n m. is_node n.id m) p f db.nodes (λ n m. ap (λ i. i == n.id) (id m))
        (λ n m. ap (λ i. m.id == i) (id n)) w.ids;
  keys =
      Distinct-change (λ n m. has_key n.public_key m) p f db.nodes
        (λ n m. ap (λ k. has_key n.public_key (record m { public_key = k })) (key m))
        (λ n m. ap (λ k. has_key k m) (key n)) w.keys;
  statuses = All-change (λ n. is_status n.status ≡ true) p f db.nodes status w.statuses;
  places = w.places;
  owners =
      All-weaken (λ d. has_owner db.nodes d ≡ true) (λ d. has_owner (change p f db.nodes) d ≡ true)
        db.devices
        (λ d h.
          rw
            (any-change (λ n. n.id == d.node_id && n.org_id == d.org_id) p f db.nodes
              (λ n. rw (id n, org n)))
            h)
        w.owners;
  hashes = w.hashes;
  code_ids = w.code_ids;
}

pub codes-WellFormed :
    (p : PairingRow → Bool) (used : Option ℤ) (db : Db)
    → WellFormed db
    → WellFormed (record db { pairing_codes = change p (set_used used) db.pairing_codes })
codes-WellFormed p used db w = record {
  ids = w.ids;
  keys = w.keys;
  statuses = w.statuses;
  places = w.places;
  owners = w.owners;
  hashes =
      Distinct-change (λ r s. has_hash r.code_hash s) p (set_used used) db.pairing_codes
        (λ r s. refl) (λ r s. refl) w.hashes;
  code_ids =
      Distinct-change (λ r s. has_id r.id s) p (set_used used) db.pairing_codes (λ r s. refl)
        (λ r s. refl) w.code_ids;
}

pub new_code-WellFormed :
    (r : PairingRow) (db : Db)
    → any (has_hash r.code_hash) db.pairing_codes ≡ false
    → any (has_id r.id) db.pairing_codes ≡ false
    → WellFormed db
    → WellFormed (record db { pairing_codes = db.pairing_codes ++ r ∷ [] })
new_code-WellFormed r db hash id w = record {
  ids = w.ids;
  keys = w.keys;
  statuses = w.statuses;
  places = w.places;
  owners = w.owners;
  hashes =
      Distinct-snoc (λ r s. has_hash r.code_hash s) db.pairing_codes r
        (λ s. eq_comm r.code_hash s.code_hash) w.hashes hash;
  code_ids =
      Distinct-snoc (λ r s. has_id r.id s) db.pairing_codes r (λ s. eq_comm r.id s.id) w.code_ids
        id;
}

pub new_node-WellFormed :
    (n : NodeRow) (db : Db)
    → any (is_node n.id) db.nodes ≡ false
    → any (has_key n.public_key) db.nodes ≡ false
    → is_status n.status ≡ true
    → WellFormed db
    → WellFormed (record db { nodes = db.nodes ++ n ∷ [] })
new_node-WellFormed n db id key status w = record {
  ids = Distinct-snoc (λ n m. is_node n.id m) db.nodes n (λ m. eq_comm n.id m.id) w.ids id;
  keys = KeysDistinct-append db.nodes n w.keys key;
  statuses = All-append (λ m. is_status m.status ≡ true) db.nodes (n ∷ []) w.statuses (status, tt);
  places = w.places;
  owners =
      All-weaken (λ d. has_owner db.nodes d ≡ true) (λ d. has_owner (db.nodes ++ n ∷ []) d ≡ true)
        db.devices
        (λ d h.
          ground (
            arith,
            h,
            any-append (λ m. m.id == d.node_id && m.org_id == d.org_id) db.nodes (n ∷ []),
          ))
        w.owners;
  hashes = w.hashes;
  code_ids = w.code_ids;
}

-- The part of being well formed that speaks of the devices.
pub record DevicesWell (nodes : List NodeRow) (devices : List DeviceRow) : Type 0 where
  pub places : Distinct (λ (d e : DeviceRow). is_at d.node_id d.local_id e) devices
  pub owners : All (λ (d : DeviceRow). has_owner nodes d ≡ true) devices

pub devices-WellFormed :
    (rows : List DeviceRow) (db : Db)
    → DevicesWell db.nodes rows
    → WellFormed db
    → WellFormed (record db { devices = rows })
devices-WellFormed rows db d w = record {
  ids = w.ids;
  keys = w.keys;
  statuses = w.statuses;
  places = d.places;
  owners = d.owners;
  hashes = w.hashes;
  code_ids = w.code_ids;
}

pub DevicesWell-change :
    (nodes : List NodeRow) (p : DeviceRow → Bool) (f : DeviceRow → DeviceRow)
    (rows : List DeviceRow)
    → ((d : DeviceRow) → (f d).node_id ≡ d.node_id)
    → ((d : DeviceRow) → (f d).local_id ≡ d.local_id)
    → ((d : DeviceRow) → (f d).org_id ≡ d.org_id)
    → DevicesWell nodes rows
    → DevicesWell nodes (change p f rows)
DevicesWell-change nodes p f rows node place org w = record {
  places =
      Distinct-change (λ d e. is_at d.node_id d.local_id e) p f rows (λ d e. rw (node e, place e))
        (λ d e. rw (node d, place d)) w.places;
  owners =
      All-change (λ d. has_owner nodes d ≡ true) p f rows (λ d h. rw (node d, org d) h) w.owners;
}

pub DevicesWell-keep :
    (nodes : List NodeRow) (p : DeviceRow → Bool) (rows : List DeviceRow)
    → DevicesWell nodes rows
    → DevicesWell nodes (keep p rows)
DevicesWell-keep nodes p rows w = record {
  places = Distinct-keep (λ d e. is_at d.node_id d.local_id e) p rows w.places;
  owners = All-keep (λ d. has_owner nodes d ≡ true) p rows w.owners;
}

module _ (sql : Sql) (org node_id : String) (nodes : List NodeRow)
    (here : any (λ (n : NodeRow). n.id == node_id && n.org_id == org) nodes ≡ true) where
  upsert-DevicesWell :
      (id : String) (d : KnownDevice) (rows rows' : List DeviceRow)
      → DevicesWell nodes rows
      → upsert_device sql org node_id id d rows ≡ ok rows'
      → DevicesWell nodes rows'
  unfolding upsert_device
  upsert-DevicesWell id d rows rows' w e =
      let new = new_device id org node_id d in
      let clash = is_at node_id d.local_id in
      let put = sql.upsert clash (set_facts d.facts) new rows in
      let stored : put ≡ rows' = ground arith in
      rw (← stored, sql.upsert_lem)
        (elim (Bool-cases (any clash rows)) [
          | inl old ↦ rw old (
              DevicesWell-change nodes clash (set_facts d.facts) rows (λ e. refl) (λ e. refl)
                (λ e. refl) w)
          | inr fresh ↦ rw fresh (record {
            places =
                Distinct-snoc (λ d e. is_at d.node_id d.local_id e) rows new
                  (λ e. ground (arith, eq_comm e.node_id node_id, eq_comm e.local_id d.local_id))
                  w.places fresh;
            owners = All-append (λ e. has_owner nodes e ≡ true) rows (new ∷ []) w.owners (here, tt);
          })
        ])

  pub upsert_all-DevicesWell :
      (supply : ℕ → String) (i : ℕ) (ds : List KnownDevice) (rows rows' : List DeviceRow)
      → DevicesWell nodes rows
      → upsert_all sql org node_id supply i ds rows ≡ ok rows'
      → DevicesWell nodes rows'
  unfolding upsert_all
  upsert_all-DevicesWell supply i [] rows rows' w e =
      let same : rows ≡ rows' = ground arith in rw (← same) w
  upsert_all-DevicesWell supply i (d ∷ ds) rows rows' w e =
      let (mid, stored, rest) = upsert_all-cons sql org node_id supply i d ds rows rows' e in
      upsert_all-DevicesWell supply (suc i) ds mid rows'
        (upsert-DevicesWell (supply i) d rows mid w stored) rest
