-- ===== src/Env.antt =====
-- apps/control-plane/src/env.ts: the settings that the modelled code reads, with their defaults.
-- The source coerces them to numbers; durations here are whole milliseconds and not negative.
use llm_hub.Base.{ℕ, ◌*◌, String}

pub record Env : Type 0 where
  pub pairing_code_pepper : String
  pub node_auth_skew_ms : ℕ
  pub sample_interval_ms : ℕ
  pub pairing_code_ttl_ms : ℕ

-- The defaults; the pepper has none.
abbrev pub default_env : String → Env
default_env pepper = record {
  pairing_code_pepper = pepper;
  node_auth_skew_ms = 60000;
  sample_interval_ms = 5000;
  pairing_code_ttl_ms = 15 * 60000;
}
