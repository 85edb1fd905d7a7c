-- ===== src/Storable.antt =====
-- packages/db/src/schema/fleet.ts and `new Date(Number(sampledAtUnixMs))` of
-- apps/control-plane/src/domain/nodes.ts: the values that the columns do not take. A statement with
-- one fails, whether or not it matches a row, and its transaction is rolled back.
use llm_hub.Base.{ℕ, ◌^◌, String, Bool, not, ◌||◌, any, eqb, leb}
use llm_hub.Base.Text.{codes}
use llm_hub.Proto.{DeviceSample}
use llm_hub.Schema.{HostColumns, DeviceFacts, NodeRow}
use llm_hub.Sql.{Sql}

-- integer(...)
abbrev pub too_large_int : ℕ → Bool
too_large_int n = leb (2 ^ 31) n

-- bigint(..., { mode: "bigint" })
abbrev pub too_large_bigint : ℕ → Bool
too_large_bigint n = leb (2 ^ 63) n

-- text(...): Postgres refuses the character U+0000.
abbrev pub has_nul : String → Bool
has_nul s = any (eqb 0) (codes s)

unfoldable pub refuses_host : HostColumns → Bool
refuses_host h =
    has_nul h.hostname
    || has_nul h.platform
    || has_nul h.arch
    || has_nul h.os_version
    || has_nul h.agent_version
    || too_large_bigint h.total_memory_bytes
    || too_large_int h.cpu_cores

unfoldable pub refuses_node : NodeRow → Bool
refuses_node n = has_nul n.name || refuses_host n.host

unfoldable pub refuses_device : String → DeviceFacts → Bool
refuses_device local_id f =
    has_nul local_id
    || has_nul f.name
    || has_nul f.driver_version
    || has_nul f.compute_capability
    || too_large_int f.index
    || too_large_bigint f.total_bytes
    || too_large_bigint f.wired_limit_bytes

-- The date is one that no Date holds, or that the driver or Postgres does not take.
unfoldable pub refuses_sample : Sql → DeviceSample → Bool
refuses_sample sql s =
    has_nul s.local_id
    || too_large_bigint s.used_bytes
    || too_large_bigint s.managed_bytes
    || not (sql.takes_date s.sampled_at_unix_ms)
