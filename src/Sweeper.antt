-- ===== src/Sweeper.antt =====
-- apps/control-plane/src/jobs/offline-sweeper.ts: silent nodes become degraded, then offline.
pub mod Rows
pub mod Laws
mod Tests
use llm_hub.Base.{ℕ, ◌+◌, ◌*◌, String, ◌==◌, Bool, false, not, ◌&&◌, Option, none, some, length}
use llm_hub.Base.Int.{ℤ, pos, ◌-ℤ◌, ltb_ℤ}
use llm_hub.Env.{Env}
use llm_hub.Schema.{NodeRow, Db}
use llm_hub.Sql.{Sql}

abbrev pub degraded_after_ms : Env → ℕ
degraded_after_ms env = env.sample_interval_ms * 3

abbrev pub offline_after_ms : Env → ℕ
offline_after_ms env = env.sample_interval_ms * 6

-- `lt(column, t)`: NULL is less than nothing.
abbrev pub before : Option ℤ → ℤ → Bool
before none t = false
before (some seen) t = ltb_ℤ seen t

abbrev pub set_status : String → NodeRow → NodeRow
set_status status n = record n { status = status }

-- `lt(nodes.lastSeenAt, new Date(now.getTime() - ms))`
pub silent_for : ℕ → ℤ → Option ℤ → Bool
unfolding ◌-ℤ◌
silent_for ms now seen = before seen (now -ℤ pos ms)

module _ (env : Env) (now : ℤ) where
  unfoldable pub goes_offline : NodeRow → Bool
  goes_offline n =
      not (n.status == "offline") && silent_for (offline_after_ms env) now n.last_seen_at

  unfoldable pub goes_degraded : NodeRow → Bool
  goes_degraded n = n.status == "online" && silent_for (degraded_after_ms env) now n.last_seen_at

-- The new database, and the number of rows that the two statements touched.
unfoldable pub sweep_offline_nodes : Sql → Env → ℤ → Db → Db × ℕ
sweep_offline_nodes sql env now db =
    let offline = sql.returning (goes_offline env now) (set_status "offline") db.nodes in
    let nodes = sql.update (goes_offline env now) (set_status "offline") db.nodes in
    let degraded = sql.returning (goes_degraded env now) (set_status "degraded") nodes in
    let nodes' = sql.update (goes_degraded env now) (set_status "degraded") nodes in
    (record db { nodes = nodes' }, length offline + length degraded)

-- `startOfflineSweeper` as long as it is not stopped: the clock of its k-th sweep, where the timer
-- fires on time.
abbrev pub tick : ℕ → ℕ → ℕ → ℕ
tick start interval_ms k = start + interval_ms * (k + 1)
