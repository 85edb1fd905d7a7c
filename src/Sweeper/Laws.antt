-- ===== src/Sweeper/Laws.antt =====
-- `sweepOfflineNodes` of jobs/offline-sweeper.ts: what a sweep does to the fleet.
use llm_hub.Base.{
  ℕ, ◌+◌, ◌≡◌, refl, ◌∙◌, ◌==◌, eq_iff, eq_refl, Bool, true, false, not, some, List, [], ◌∷◌, map,
  change, count, if◌then◌else◌, arith, ap, Memᴰ, Memᴰ-map, Bool-cases, inl, inr,
}
use llm_hub.Base.Int.{ℤ, pos, ◌+ℤ◌, ◌≤ℤ◌}
use llm_hub.Env.{Env}
use llm_hub.Schema.{NodeRow, Db}
use llm_hub.Sql.{Sql}
use llm_hub.Sql.Facts.{length-returning}
use llm_hub.Sweeper.{
  set_status, silent_for, offline_after_ms, degraded_after_ms, goes_offline, goes_degraded,
  sweep_offline_nodes,
}
use llm_hub.Sweeper.Rows.{
  swept, tested, tested-eq-swept, passes-eq-swept, swept-swept, online-ne-offline,
}

two_passes :
    (env : Env) (now : ℤ) (rows : List NodeRow)
    → change
        (goes_degraded env now)
        (set_status "degraded")
        (change (goes_offline env now) (set_status "offline") rows)
      ≡ map (swept env now) rows
two_passes env now [] = refl
two_passes env now (n ∷ rows) = rw (passes-eq-swept env now n, two_passes env now rows)

-- The rows whose status the sweep changes.
abbrev pub is_moved : Env → ℤ → NodeRow → Bool
is_moved env now n = not (n.status == (swept env now n).status)

goes_offline-moves :
    (env : Env) (now : ℤ) (n : NodeRow)
    → goes_offline env now n ≡ true
    → (n.status == "offline") ≡ false
unfolding goes_offline
goes_offline-moves env now n h = ground arith

goes_degraded-moves :
    (env : Env) (now : ℤ) (n : NodeRow)
    → goes_degraded env now n ≡ true
    → (n.status == "degraded") ≡ false
unfolding goes_degraded
goes_degraded-moves env now n h =
    let same : n.status ≡ "online" = (eq_iff n.status "online").0 (ground arith) in rw same

-- Of the two statements, one at most touches a row, and only a row that moves.
passes_moved :
    (env : Env) (now : ℤ) (n : NodeRow)
    → (if goes_offline env now n then 1 else 0)
        + (if goes_degraded env now (if goes_offline env now n then set_status "offline" n else n)
            then 1
            else 0)
      ≡ (if is_moved env now n then 1 else 0)
unfolding tested goes_degraded
passes_moved env now n =
    rw (← tested-eq-swept env now n) (elim (Bool-cases (goes_offline env now n)) [
      | inl gone ↦ rw gone (ground (arith, goes_offline-moves env now n))
      | inr stays ↦ elim (Bool-cases (goes_degraded env now n)) [
        | inl late ↦ rw (stays, late) (ground (arith, goes_degraded-moves env now n))
        | inr fresh ↦ rw (stays, fresh) (ground (arith, eq_refl n.status))
      ]
    ])

count-passes :
    (env : Env) (now : ℤ) (rows : List NodeRow)
    → count (goes_offline env now) rows
        + count (goes_degraded env now) (change (goes_offline env now) (set_status "offline") rows)
      ≡ count (is_moved env now) rows
count-passes env now [] = omega arith
count-passes env now (n ∷ rows) = ground (arith, count-passes env now rows, passes_moved env now n)

-- The two updates of a sweep are one pass over the nodes: one that is not offline and whose last
-- message came more than six sampling intervals ago becomes offline, one that is online and whose
-- last message came more than three ago, but no more than six, becomes degraded, any other is as
-- it was, and so is a node that never sent a message. The count that is returned is that of the
-- nodes whose status changed, none of them counted twice.
pub sweep_refines :
    (sql : Sql) (env : Env) (now : ℤ) (db : Db)
    → let (db', touched) = sweep_offline_nodes sql env now db in
      (db' ≡ record db { nodes = map (swept env now) db.nodes })
      × (touched ≡ count (is_moved env now) db.nodes)
unfolding sweep_offline_nodes
sweep_refines sql env now db =
    let offline = goes_offline env now in
    let degraded = goes_degraded env now in
    simp (sql.update_lem, two_passes, length-returning, count-passes) (refl, refl)

module _ (sql : Sql) (env : Env) (now later : ℤ) (h : now ≤ℤ later) (db : Db) where
  map-swept :
      (rows : List NodeRow)
      → map (swept env later) (map (swept env now) rows) ≡ map (swept env later) rows
  map-swept [] = refl
  map-swept (n ∷ rows) = rw (swept-swept env now later n h, map-swept rows)

  -- A sweep makes every earlier one redundant: sweeping at one time and again at a later one
  -- leaves the nodes that the later sweep alone leaves.
  pub sweep_absorbs :
      (sweep_offline_nodes sql env later (sweep_offline_nodes sql env now db).0).0
      ≡ (sweep_offline_nodes sql env later db).0
  sweep_absorbs =
      rw ((sweep_refines sql env now db).0, (sweep_refines sql env later db).0)
        ((sweep_refines sql env later (record db { nodes = map (swept env now) db.nodes })).0
          ∙ ap (λ rows. record db { nodes = rows }) (map-swept db.nodes))

-- The two ways in which the strict test on times can go.
silent_for-recent :
    (ms : ℕ) (now seen : ℤ) → now ≤ℤ seen +ℤ pos ms → silent_for ms now (some seen) ≡ false
unfolding silent_for ◌+ℤ◌
silent_for-recent ms now seen h = ground arith

pub silent_for-late :
    (ms : ℕ) (now seen : ℤ) → ¬ (now ≤ℤ seen +ℤ pos ms) → silent_for ms now (some seen) ≡ true
unfolding silent_for ◌+ℤ◌
silent_for-late ms now seen h = ground arith

recent_six :
    (env : Env) (now seen : ℤ)
    → now ≤ℤ seen +ℤ pos (degraded_after_ms env)
    → silent_for (offline_after_ms env) now (some seen) ≡ false
unfolding silent_for ◌+ℤ◌
recent_six env now seen h = ground arith

-- What a sweep leaves of a node that was seen at a time: no column but the status changes; a node
-- seen within three intervals is untouched; one silent for more than six is offline; one that was
-- online and has been silent for more than three but not more than six is degraded.
pub sweep_status :
    (sql : Sql) (env : Env) (now : ℤ) (db : Db) (n : NodeRow) (seen : ℤ)
    → Memᴰ n db.nodes
    → n.last_seen_at ≡ some seen
    → (m : NodeRow) × Memᴰ m (sweep_offline_nodes sql env now db).0.nodes
      × (m ≡ record n { status = m.status })
      × (now ≤ℤ seen +ℤ pos (degraded_after_ms env) → m ≡ n)
      × (¬ (now ≤ℤ seen +ℤ pos (offline_after_ms env)) → m.status ≡ "offline")
      × (n.status ≡ "online"
          → ¬ (now ≤ℤ seen +ℤ pos (degraded_after_ms env))
          → now ≤ℤ seen +ℤ pos (offline_after_ms env)
          → m.status ≡ "degraded")
unfolding tested goes_offline goes_degraded
sweep_status sql env now db n seen listed at =
    let recent = λ (ms : ℕ). silent_for-recent ms now seen in
    let late = λ (ms : ℕ). silent_for-late ms now seen in
    (
      tested env now n,
      rw ((sweep_refines sql env now db).0, tested-eq-swept env now n)
          (Memᴰ-map (swept env now) listed),
      ground arith,
      λ fresh. ground (arith, recent (degraded_after_ms env) fresh, recent_six env now seen fresh),
      λ gone. ground (
        arith,
        late (offline_after_ms env) gone,
        eq_iff n.status "offline",
        online-ne-offline n.status,
      ),
      λ online passed within.
          rw
            (at, online, late (degraded_after_ms env) passed, recent (offline_after_ms env) within),
    )
