-- ===== src/Sweeper/Rows.antt =====
-- `sweepOfflineNodes` of jobs/offline-sweeper.ts: what a sweep does to one row.
use llm_hub.Base.{
  ℕ, ◌≤◌, ◌≡◌, refl, sym, ap, Bool, ◌∙◌, String, not, ◌&&◌, none, some, ◌*◌, Option-cases, ◌==◌,
  eq_iff, true, false, Bool-cases, inl, inr, Option, if◌then◌else◌, arith,
}
use llm_hub.Base.Int.{ℤ, pos, ◌+ℤ◌, ltb_ℤ, ◌≤ℤ◌}
use llm_hub.Env.{Env}
use llm_hub.Schema.{NodeRow}
use llm_hub.Sweeper.{
  set_status, silent_for, offline_after_ms, degraded_after_ms, goes_offline, goes_degraded,
}

-- The last message came more than that many sampling intervals ago; a node that never sent one is
-- not late.
unfoldable pub is_late : ℕ → Env → ℤ → NodeRow → Bool
is_late intervals env now n = elim n.last_seen_at [
  | none ↦ false
  | some seen ↦ ltb_ℤ (seen +ℤ pos (env.sample_interval_ms * intervals)) now
]

-- The specification: a node that is late by six intervals is offline at once; one that was online
-- and is late by three is degraded.
unfoldable pub swept : Env → ℤ → NodeRow → NodeRow
swept env now n =
    if is_late 6 env now n && not (n.status == "offline")
    then record n { status = "offline" }
    else if is_late 3 env now n && n.status == "online"
    then record n { status = "degraded" }
    else n

-- The strict test on a shifted clock is the silence.
silent_for-late :
    (k : ℕ) (env : Env) (now : ℤ) (n : NodeRow)
    → silent_for (env.sample_interval_ms * k) now n.last_seen_at ≡ is_late k env now n
unfolding silent_for is_late ◌+ℤ◌
silent_for-late k env now n = elim (Option-cases n.last_seen_at) [
  | inl never ↦ rw never refl
  | inr (seen, at) ↦ rw at (ground arith)
]

-- What the code's tests make of a row.
unfoldable pub tested : Env → ℤ → NodeRow → NodeRow
tested env now n =
    if goes_offline env now n
    then set_status "offline" n
    else if goes_degraded env now n
    then set_status "degraded" n
    else n

pub tested-eq-swept : (env : Env) (now : ℤ) (n : NodeRow) → tested env now n ≡ swept env now n
unfolding tested swept goes_offline goes_degraded
tested-eq-swept env now n = ground (arith, silent_for-late 6 env now n, silent_for-late 3 env now n)

-- The two passes over one row are the specification.
pub passes-eq-swept :
    (env : Env) (now : ℤ) (n : NodeRow)
    → let m = if goes_offline env now n then set_status "offline" n else n in
      (if goes_degraded env now m then set_status "degraded" m else m) ≡ swept env now n
unfolding tested goes_degraded
passes-eq-swept env now n = elim (Bool-cases (goes_offline env now n)) [
  | inl gone ↦ rw (← tested-eq-swept env now n, gone)
  | inr stays ↦ rw (← tested-eq-swept env now n, stays)
]

-- Silence lasts until the next heartbeat, and silence for longer is silence for less.
pub silent_for_mono :
    (short long : ℕ) (now later : ℤ) (seen : Option ℤ)
    → short ≤ long
    → now ≤ℤ later
    → silent_for long now seen ≡ true
    → silent_for short later seen ≡ true
unfolding silent_for
silent_for_mono short long now later seen h k s = ground arith

pub online-ne-offline : (s : String) → (s == "online") ≡ true → (s == "offline") ≡ false
online-ne-offline s h = rw ((eq_iff s "online").0 h)

tested-tested :
    (env : Env) (now later : ℤ) (n : NodeRow)
    → now ≤ℤ later
    → tested env later (tested env now n) ≡ tested env later n
unfolding tested goes_offline goes_degraded
tested-tested env now later n h =
    let six : ℕ = offline_after_ms env in
    let three : ℕ = degraded_after_ms env in
    let still_gone = silent_for_mono six six now later n.last_seen_at (omega arith) h in
    let still_late = silent_for_mono three three now later n.last_seen_at (omega arith) h in
    elim (Bool-cases (goes_offline env now n)) [
      | inl gone ↦ rw gone (ground (arith, still_gone))
      | inr stays ↦ elim (Bool-cases (goes_degraded env now n)) [
        | inl late ↦
            rw (stays, late) (ground (arith, still_gone, still_late, online-ne-offline n.status))
        | inr fresh ↦ rw (stays, fresh) refl
      ]
    ]

-- Missed sweeps lose nothing: sweeping earlier and again later is sweeping later.
pub swept-swept :
    (env : Env) (now later : ℤ) (n : NodeRow)
    → now ≤ℤ later
    → swept env later (swept env now n) ≡ swept env later n
swept-swept env now later n h =
    ap (swept env later) (sym (tested-eq-swept env now n))
    ∙ (sym (tested-eq-swept env later (tested env now n))
        ∙ (tested-tested env now later n h ∙ tested-eq-swept env later n))
