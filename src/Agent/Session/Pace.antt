-- ===== src/Agent/Session/Pace.antt =====
-- The interval that `connect` of apps/control-plane/src/rpc/node-service.ts hands out, at which the
-- agent samples, and the thresholds of the sweeper.
use llm_hub.Env.{Env}
use llm_hub.Sql.{Sql}
