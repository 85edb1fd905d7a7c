-- ===== src/System/Enrolled.antt =====
-- A node that is enrolled stays so; runs put one after the other.
use llm_hub.Base.{
  ℕ, ◌≡◌, refl, String, Bool, true, List, [], ◌∷◌, any, arith, Bool-cases, inl, inr, Memᴰ,
}
use llm_hub.Base.Distinct.{any-change, any-append}
use llm_hub.Base.Int.{ℤ}
use llm_hub.Enrollment.{EnrollInput, has_key, new_node, insert_node}
use llm_hub.Env.{Env}
use llm_hub.Inventory.{is_node, seen_now, greeted, store_samples, set_online}
use llm_hub.Inventory.Laws.{record_inventory-eq-ok}
use llm_hub.Pairing.{Unicode, Hmac, Redeemed, mint_pairing_code}
use llm_hub.Schema.{HostColumns, NodeRow, Db}
use llm_hub.Sql.{Sql}
use llm_hub.Storable.{refuses_node}
use llm_hub.Sql.Facts.{insert-taken, insert-free}
use llm_hub.Sweeper.{goes_offline, goes_degraded, set_status}
use llm_hub.Tenancy.{scoped, node_owned}
use llm_hub.System.{
  IsEnrolled, is_enrolled, Step, mint, claim, release, enroll, greet, report, sample, sweep_offline,
  sweep_degraded, Steps, here, next,
}

pub any-member :
    (p : NodeRow → Bool) (n : NodeRow) (rows : List NodeRow)
    → p n ≡ true
    → Memᴰ n rows
    → any p rows ≡ true
any-member p n rows holds (Memᴰ.head {x = r} e) =
    let at : p r ≡ true = rw e at holds in ground (arith, at)
any-member p n rows holds (Memᴰ.tail {xs = rest} m) = ground (arith, any-member p n rest holds m)

pub is_node-enrolled :
    (org node_id : String) (nodes : List NodeRow)
    → any (is_enrolled org node_id) nodes ≡ true
    → any (is_node node_id) nodes ≡ true
is_node-enrolled org node_id [] h = cc
is_node-enrolled org node_id (n ∷ nodes) h = ground (arith, is_node-enrolled org node_id nodes, h)

module _ (unicode : Unicode) (hmac : Hmac) (sql : Sql) (env : Env) where
  pub Steps-trans :
      {a b c : Db}
      → Steps unicode hmac sql env a b
      → Steps unicode hmac sql env b c
      → Steps unicode hmac sql env a c
  Steps-trans r here = r
  Steps-trans r (next s step) = next (Steps-trans r s) step

  -- A test of rows that no statement on a node's row changes.
  pub record IsLasting (q : NodeRow → Bool) : Type 0 where
    pub of_status : (status : String) (n : NodeRow) → q (set_status status n) ≡ q n
    pub of_greeting : (now : ℤ) (host : HostColumns) (n : NodeRow) → q (greeted now host n) ≡ q n
    pub of_sample : (now : ℤ) (n : NodeRow) → q (seen_now now n) ≡ q n

  pub mint-nodes :
      (random : ℕ → ℕ) (id : String) (now : ℤ) (org_id user_id node_name : String) (db : Db)
      → (mint_pairing_code unicode hmac sql env random id now org_id user_id node_name db).0.nodes
        ≡ db.nodes
  unfolding mint_pairing_code
  mint-nodes random id now org_id user_id node_name db = ground arith

  module _ (q : NodeRow → Bool) (lasting : IsLasting q) where
    changed-any :
        (p : NodeRow → Bool) (f : NodeRow → NodeRow) (rows : List NodeRow)
        → ((n : NodeRow) → q (f n) ≡ q n)
        → any q rows ≡ true
        → any q (sql.update p f rows) ≡ true
    changed-any p f rows same h = rw (sql.update_lem, any-change q p f rows same) h

    enroll-any :
        (id : String) (input : EnrollInput) (claimed : Redeemed) (db : Db)
        → any q db.nodes ≡ true
        → any q (insert_node unicode hmac sql env id input claimed db).0.nodes ≡ true
    unfolding insert_node
    enroll-any id input claimed db h =
        let key = has_key input.public_key in
        let new = new_node id input claimed in
        elim (Bool-cases (refuses_node new)) [
          | inl bad ↦ rw (bad, insert_node) h
          | inr good ↦ elim (Bool-cases (any key db.nodes)) [
            | inl taken ↦ rw (good, insert-taken sql key new db.nodes taken, insert_node) h
            | inr free ↦
                rw (good, insert-free sql key new db.nodes free, insert_node)
                  (rw (any-append q db.nodes (new ∷ []), h))
          ]
        ]

    Step-any :
        {a b : Db} → Step unicode hmac sql env a b → any q a.nodes ≡ true → any q b.nodes ≡ true
    unfolding set_online store_samples
    Step-any {a} (mint random id now org_id user_id node_name fresh) h =
        rw (mint-nodes random id now org_id user_id node_name a) h
    Step-any (claim now hash) h = h
    Step-any (release id) h = h
    Step-any {a} (enroll id input claimed fresh) h = enroll-any id input claimed a h
    Step-any {a} (greet o i now host) h =
        changed-any (scoped o (is_node i)) (greeted now host) a.nodes (lasting.of_greeting now host)
          h
    Step-any {a} {b} (report o i supply reported enrolled e) h =
        let (rows, stored, same) = record_inventory-eq-ok sql o i supply reported a b e in rw same h
    Step-any {a} (sample o i now batch) h =
        changed-any (scoped o (is_node i)) (seen_now now) a.nodes (lasting.of_sample now) h
    Step-any {a} (sweep_offline now) h =
        changed-any (goes_offline env now) (set_status "offline") a.nodes
          (lasting.of_status "offline") h
    Step-any {a} (sweep_degraded now) h =
        changed-any (goes_degraded env now) (set_status "degraded") a.nodes
          (lasting.of_status "degraded") h

    pub Steps-any :
        {a b : Db} → Steps unicode hmac sql env a b → any q a.nodes ≡ true → any q b.nodes ≡ true
    Steps-any here h = h
    Steps-any (next run step) h = Step-any step (Steps-any run h)

  pub Steps-IsEnrolled :
      {a b : Db} (org node_id : String)
      → Steps unicode hmac sql env a b
      → IsEnrolled org node_id a
      → IsEnrolled org node_id b
  Steps-IsEnrolled org node_id run h =
      Steps-any (is_enrolled org node_id)
        (record {
          of_status = λ status n. refl;
          of_greeting = λ now host n. refl;
          of_sample = λ now n. refl;
        })
        run h
