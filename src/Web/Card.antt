-- ===== src/Web/Card.antt =====
-- apps/web/src/components/NodeCard.tsx: the texts of one machine's card. The styles are the table's
-- class names.
pub mod Seen
use llm_hub.Base.{
  ℕ, String, ◌==◌, Bool, Option, none, some, List, [], ◌∷◌, ◌++◌, map, if◌then◌else◌,
}
use llm_hub.Base.Int.{ℤ}
use llm_hub.Base.Text.{codes}
use llm_hub.Proto.{HostInfo, NodeView}
use llm_hub.Web.Bar.{Ratio, Bar, device_memory_bar}
use llm_hub.Web.Format.{format_relative_time}
use llm_hub.Number.{print}

abbrev pub offline_style : String
offline_style = "bg-slate-200 text-slate-600"

-- `STATUS_STYLES[status] ?? STATUS_STYLES.offline`
abbrev pub status_style : String → String
status_style status =
    if status == "online"
    then "bg-emerald-100 text-emerald-800"
    else if status == "degraded"
    then "bg-amber-100 text-amber-800"
    else offline_style

abbrev pub or_dash : String → List ℕ
or_dash s = if s == "" then codes "—" else codes s

unfoldable pub details : Option HostInfo → List ℕ
details none = codes "Host details not reported yet"
details (some host) =
    codes host.platform
    ++ codes "/"
    ++ codes host.arch
    ++ codes " · "
    ++ print host.cpu_cores
    ++ codes " cores · agent "
    ++ or_dash host.agent_version

-- `bars` is what stands below the header: nothing is the text "No devices reported yet."
pub record Card : Type 0 where
  pub name : String
  pub details : List ℕ
  pub status : String
  pub style : String
  pub seen : List ℕ
  pub bars : Option (List Bar)

abbrev pub some_bars : List Bar → Option (List Bar)
some_bars [] = none
some_bars (b ∷ bs) = some (b ∷ bs)

unfoldable pub node_card : Ratio → NodeView → ℤ → Card
unfolding details
node_card js node now = record {
  name = node.name;
  details = details node.host;
  status = node.status;
  style = status_style node.status;
  seen = codes "seen " ++ format_relative_time node.last_seen_unix_ms now;
  bars = some_bars (map (device_memory_bar js) node.devices);
}
