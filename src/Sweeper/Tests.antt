-- ===== src/Sweeper/Tests.antt =====
-- A fleet of three nodes under the default settings, and instances of the theorems.
use llm_hub.Base.{ℕ, ◌≡◌, refl, String, some, List, [], ◌∷◌, map, count}
use llm_hub.Base.Int.{pos}
use llm_hub.Env.{Env, default_env}
use llm_hub.Schema.{HostColumns, NodeRow, Db}
use llm_hub.Sql.Reference.{lists}
use llm_hub.Sweeper.{sweep_offline_nodes, silent_for, goes_offline, goes_degraded}
use llm_hub.Sweeper.Rows.{swept}
use llm_hub.Sweeper.Laws.{is_moved, sweep_refines}

abbrev settings : Env
settings = default_env "0123456789abcdef0123456789abcdef"

abbrev blank : HostColumns
blank = record {
  hostname = "";
  platform = "";
  arch = "";
  os_version = "";
  agent_version = "";
  total_memory_bytes = 0;
  cpu_cores = 0;
}

abbrev node : String → ℕ → NodeRow
node status seen = record {
  id = "n";
  org_id = "o";
  name = "box";
  status = status;
  host = blank;
  public_key = [];
  last_seen_at = some (pos seen);
}

abbrev fleet : List NodeRow → Db
fleet nodes = record { nodes = nodes; devices = []; pairing_codes = []; organizations = [] }

abbrev busy : Db
busy = fleet (node "online" 99000 ∷ node "online" 80000 ∷ node "degraded" 60000 ∷ [])

sweep_test :
    sweep_offline_nodes lists settings (pos 100000) busy
    ≡ (fleet (node "online" 99000 ∷ node "degraded" 80000 ∷ node "offline" 60000 ∷ []), 2)
unfolding sweep_offline_nodes goes_offline goes_degraded silent_for
sweep_test = refl

sweep_refines_example :
    let (db', touched) = sweep_offline_nodes lists settings (pos 100000) busy in
    (db' ≡ record busy { nodes = map (swept settings (pos 100000)) busy.nodes })
    × (touched ≡ count (is_moved settings (pos 100000)) busy.nodes)
sweep_refines_example = sweep_refines lists settings (pos 100000) busy
