-- ===== src/System/Lasting.antt =====
-- What runs without a node's messages keep of its row.
use llm_hub.Base.{
  ◌≡◌, refl, String, ◌==◌, eq_iff, Bool, true, false, not, ◌&&◌, List, [], ◌∷◌, any, All,
  All-append, change, arith, Bool-cases, inl, inr,
}
use llm_hub.Base.Distinct.{All-change, All-change_where}
use llm_hub.Base.Int.{ℤ}
use llm_hub.Enrollment.{EnrollInput, has_key, new_node, insert_node}
use llm_hub.Env.{Env}
use llm_hub.Inventory.{is_node, seen_now, greeted, store_samples, set_online}
use llm_hub.Inventory.Laws.{record_inventory-eq-ok}
use llm_hub.Pairing.{Unicode, Hmac, Redeemed}
use llm_hub.Schema.{NodeRow, Db}
use llm_hub.Sql.{Sql}
use llm_hub.Storable.{refuses_node}
use llm_hub.Sql.Facts.{insert-taken, insert-free}
use llm_hub.Sweeper.{goes_offline, goes_degraded, set_status}
use llm_hub.Tenancy.{scoped, node_owned}
use llm_hub.System.{
  IsEnrolled, Step, mint, claim, release, enroll, greet, report, sample, sweep_offline,
  sweep_degraded, Steps, here, next,
}
use llm_hub.System.Enrolled.{is_node-enrolled, mint-nodes, Steps-IsEnrolled}

module _ (unicode : Unicode) (hmac : Hmac) (sql : Sql) (env : Env) where
  -- The step is no message of that node.
  abbrev pub is_silent : {a b : Db} → String → Step unicode hmac sql env a b → Bool
  is_silent i (greet org node_id now host) = not (node_id == i)
  is_silent i (sample org node_id now samples) = not (node_id == i)
  is_silent i _ = true

  abbrev pub are_silent : {a b : Db} → String → Steps unicode hmac sql env a b → Bool
  are_silent i here = true
  are_silent i (next run step) = are_silent i run && is_silent i step

  -- What the sweeper keeps of the rows of one id.
  pub record Lasting (i : String) (q : NodeRow → Type 0) : Type 0 where
    pub others : (n : NodeRow) → is_node i n ≡ false → q n
    pub offline : (n : NodeRow) → q n → q (set_status "offline" n)
    pub degraded :
        (now : ℤ) (n : NodeRow) → goes_degraded env now n ≡ true → q n → q (set_status "degraded" n)

  heard_other :
      (i org node_id : String) (f : NodeRow → NodeRow) (q : NodeRow → Type 0) (rows : List NodeRow)
      → Lasting i q
      → ((n : NodeRow) → (f n).id ≡ n.id)
      → not (node_id == i) ≡ true
      → All q rows
      → All q (change (scoped org (is_node node_id)) f rows)
  heard_other i org node_id f q rows lasting same silent =
      All-change_where q (scoped org (is_node node_id)) f rows (λ n hit kept. lasting.others (f n) (
        rw (same n)
          (ground (arith, hit, silent, eq_iff n.id node_id, eq_iff n.id i, eq_iff node_id i))))

  enroll-Lasting :
      (i org id : String) (input : EnrollInput) (claimed : Redeemed) (q : NodeRow → Type 0)
      (db : Db)
      → Lasting i q
      → IsEnrolled org i db
      → any (is_node id) db.nodes ≡ false
      → All q db.nodes
      → All q (insert_node unicode hmac sql env id input claimed db).0.nodes
  unfolding insert_node
  enroll-Lasting i org id input claimed q db lasting enrolled fresh h =
      let key = has_key input.public_key in
      let new = new_node id input claimed in
      let there = is_node-enrolled org i db.nodes enrolled in
      let other : is_node i new ≡ false = elim (Bool-cases (id == i)) [
        | inr differ ↦ differ
        | inl same ↦ absurd (cc (rw ((eq_iff id i).0 same) at fresh, there))
      ] in
      elim (Bool-cases (refuses_node new)) [
        | inl bad ↦ rw (bad, insert_node) h
        | inr good ↦ elim (Bool-cases (any key db.nodes)) [
          | inl taken ↦ rw (good, insert-taken sql key new db.nodes taken, insert_node) h
          | inr free ↦
              rw (good, insert-free sql key new db.nodes free, insert_node)
                (All-append q db.nodes (new ∷ []) h (lasting.others new other, tt))
        ]
      ]

  Step-Lasting :
      {a b : Db} (i org : String) (q : NodeRow → Type 0)
      → Lasting i q
      → (step : Step unicode hmac sql env a b) → is_silent i step ≡ true
      → IsEnrolled org i a
      → All q a.nodes
      → All q b.nodes
  unfolding set_online store_samples
  Step-Lasting {a} i org q l (mint random id now org_id user_id node_name fresh) s e h =
      rw (mint-nodes unicode hmac sql env random id now org_id user_id node_name a) h
  Step-Lasting i org q l (claim now hash) s e h = h
  Step-Lasting i org q l (release id) s e h = h
  Step-Lasting {a} i org q l (enroll id input claimed fresh) s e h =
      enroll-Lasting i org id input claimed q a l e fresh h
  Step-Lasting {a} i org q l (greet o node_id now host) s e h =
      rw (sql.update_lem) (heard_other i o node_id (greeted now host) q a.nodes l (λ n. refl) s h)
  Step-Lasting {a} {b} i org q l (report o node_id supply reported enrolled done) s e h =
      let (rows, stored, same) = record_inventory-eq-ok sql o node_id supply reported a b done in
      rw same h
  Step-Lasting {a} i org q l (sample o node_id now samples) s e h =
      rw (sql.update_lem) (heard_other i o node_id (seen_now now) q a.nodes l (λ n. refl) s h)
  Step-Lasting {a} i org q l (sweep_offline now) s e h =
      rw (sql.update_lem) (
        All-change q (goes_offline env now) (set_status "offline") a.nodes (λ n k. l.offline n k) h)
  Step-Lasting {a} i org q l (sweep_degraded now) s e h = rw (sql.update_lem) (
      All-change_where q (goes_degraded env now) (set_status "degraded") a.nodes
        (λ n hit k. l.degraded now n hit k) h)

  pub Steps-Lasting :
      {a b : Db} (i org : String) (q : NodeRow → Type 0)
      → Lasting i q
      → (run : Steps unicode hmac sql env a b) → are_silent i run ≡ true
      → IsEnrolled org i a
      → All q a.nodes
      → All q b.nodes
  Steps-Lasting i org q l here s e h = h
  Steps-Lasting i org q l (next run step) s e h =
      Step-Lasting i org q l step (ground (arith, s))
        (Steps-IsEnrolled unicode hmac sql env org i run e)
        (Steps-Lasting i org q l run (ground (arith, s)) e h)
