-- ===== src/System/Silence.antt =====
-- A node that no longer sends: what runs without its messages leave of it.
use native.Mathlib.Nat.{mul-div-le, lt-mul-div-succ}
use llm_hub.Base.{
  ◌-◌, ℕ, ◌+◌, ◌/◌, ◌<◌, ◌≤◌, ◌≡◌, refl, String, eq_iff, true, List, [], ◌∷◌, All, change, arith,
  Bool-cases, inl, inr, some,
}
use llm_hub.Base.Int.{ℤ, pos, ◌+ℤ◌, ◌≤ℤ◌}
use llm_hub.Env.{Env}
use llm_hub.Inventory.{is_node}
use llm_hub.Pairing.{Unicode, Hmac}
use llm_hub.Schema.{NodeRow, Db}
use llm_hub.Sql.{Sql}
use llm_hub.Sweeper.{goes_offline, goes_degraded, set_status, silent_for, offline_after_ms, tick}
use llm_hub.Sweeper.Laws.{silent_for-late}
use llm_hub.Tenancy.{node_owned}
use llm_hub.System.{IsEnrolled, sweep_offline, Steps, next, pass_offline}
use llm_hub.System.Enrolled.{Steps-IsEnrolled}
use llm_hub.System.Lasting.{Lasting, are_silent, Steps-Lasting}

late-pos : (now seen ms : ℕ) → seen + ms < now → pos now ≤ℤ pos seen +ℤ pos ms → ⊥
unfolding ◌+ℤ◌
late-pos now seen ms h timely = ground (arith, h, timely)

module _ (unicode : Unicode) (hmac : Hmac) (sql : Sql) (env : Env) where
  -- The rows of an id that were last seen at a time, and those that are offline.
  abbrev pub LastSeen : String → ℤ → NodeRow → Type 0
  LastSeen i seen n = is_node i n ≡ true → n.last_seen_at ≡ some seen

  abbrev pub IsOffline : String → NodeRow → Type 0
  IsOffline i n = is_node i n ≡ true → n.status ≡ "offline"

  LastSeen-Lasting : (i : String) (seen : ℤ) → Lasting unicode hmac sql env i (LastSeen i seen)
  LastSeen-Lasting i seen = record {
    others = λ n other it. absurd (cc (other, it));
    offline = λ n k. k;
    degraded = λ now n hit k. k;
  }

  IsOffline-Lasting : (i : String) → Lasting unicode hmac sql env i (IsOffline i)
  unfolding goes_degraded
  IsOffline-Lasting i = record {
    others = λ n other it. absurd (cc (other, it));
    offline = λ n k it. refl;
    degraded = λ now n hit k it.
        absurd (ground (arith, hit, k it, eq_iff n.status "online", eq_iff "offline" "online"));
  }

  swept-IsOffline :
      (i : String) (seen now : ℤ) (rows : List NodeRow)
      → ¬ (now ≤ℤ seen +ℤ pos (offline_after_ms env))
      → All (LastSeen i seen) rows
      → All (IsOffline i) (change (goes_offline env now) (set_status "offline") rows)
  unfolding goes_offline
  swept-IsOffline i seen now [] late h = tt
  swept-IsOffline i seen now (n ∷ rows) late h = (
    elim (Bool-cases (goes_offline env now n)) [
      | inl goes ↦ rw goes (λ it. refl)
      | inr stays ↦ rw stays (λ it.
          let gone : silent_for (offline_after_ms env) now n.last_seen_at ≡ true =
            rw (h.0 it) (silent_for-late (offline_after_ms env) now seen late) in
          ground (arith, stays, gone, eq_iff n.status "offline"))
    ],
    swept-IsOffline i seen now rows late h.1,
  )

  silent_node-IsOffline :
      {a b c : Db} (i org : String) (seen now : ℤ)
      → IsEnrolled org i a
      → All (LastSeen i seen) a.nodes
      → (before : Steps unicode hmac sql env a b) → are_silent unicode hmac sql env i before ≡ true
      → ¬ (now ≤ℤ seen +ℤ pos (offline_after_ms env))
      → (after : Steps unicode hmac sql env (pass_offline unicode hmac sql env now b) c)
      → are_silent unicode hmac sql env i after ≡ true
      → All (IsOffline i) c.nodes
  silent_node-IsOffline {a} {b} {c} i org seen now enrolled known before silent late after silent' =
      let still =
        Steps-Lasting unicode hmac sql env i org (LastSeen i seen) (LastSeen-Lasting i seen) before
          silent enrolled known in
      let there =
        Steps-IsEnrolled unicode hmac sql env org i (next before (sweep_offline now)) enrolled in
      Steps-Lasting unicode hmac sql env i org (IsOffline i) (IsOffline-Lasting i) after silent'
        there (rw (sql.update_lem) (swept-IsOffline i seen now b.nodes late still))

  -- When an enrolled node, all of whose rows were last seen at one time, is no longer heard of,
  -- and the sweeper, its interval positive, was started no later than the time at which the node
  -- has to be offline, one of the sweeper's ticks comes at most one interval after that time, and
  -- once the offline pass has run at its clock, all rows of that id are offline and stay so,
  -- whatever calls and sweeps run before and after it that are no hello and no samples of that id.
  pub silent_node_deadline :
      {a : Db} (i org : String) (seen start interval_ms : ℕ)
      → 0 < interval_ms
      → start ≤ seen + offline_after_ms env
      → IsEnrolled org i a
      → All (LastSeen i (pos seen)) a.nodes
      → (k : ℕ) × (tick start interval_ms k ≤ seen + offline_after_ms env + interval_ms)
        × ((b c : Db) (before : Steps unicode hmac sql env a b)
              (after : Steps unicode hmac sql env
                (pass_offline unicode hmac sql env (pos (tick start interval_ms k)) b)
                c)
            → are_silent unicode hmac sql env i before ≡ true
            → are_silent unicode hmac sql env i after ≡ true
            → All (IsOffline i) c.nodes)
  silent_node_deadline i org seen start interval_ms positive soon enrolled known =
      let wait = seen + offline_after_ms env - start in
      let k = wait / interval_ms in
      let low = mul-div-le wait interval_ms in
      let high = lt-mul-div-succ wait {b = interval_ms} positive in
      (
        k,
        omega (arith, low, soon),
        λ b c before after quiet quiet'.
            silent_node-IsOffline i org (pos seen) (pos (tick start interval_ms k)) enrolled known
              before quiet
              (λ timely.
                late-pos (tick start interval_ms k) seen (offline_after_ms env)
                  (omega (arith, high, soon)) timely)
              after quiet',
      )
