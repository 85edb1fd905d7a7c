-- ===== src/Server/Replies.antt =====
-- What the browser's listener answers, and what it keeps to itself.
use llm_hub.Base.{◌≡◌, ◌⊎◌, ◌≤◌, refl, Bool, true, false, arith, inl, inr}
use llm_hub.Result.{Result}
use llm_hub.Server.{FastifyError, health, status_of, error_reply, settled, healthz}

-- Of an exception with a server error's status, nothing but the status reaches the browser: two
-- such exceptions of the same status get the same reply, which has that status.
pub error_reply_hides :
    (e other : FastifyError)
    → status_of e ≡ status_of other
    → 500 ≤ status_of e
    → (error_reply e ≡ error_reply other) × ((error_reply e).status ≡ status_of other)
unfolding error_reply
error_reply_hides e other same server = ground (arith, same, server)

-- The health check is 200 when both stores answer, and else 503 with the state of each.
pub healthz_lem :
    (database redis : Bool)
    → let reply = healthz database redis in
      ((reply ≡ record { status = 200; body = health "ok" "ok" "ok" })
        × (database ≡ true)
        × (redis ≡ true))
      ⊎ ((reply
            ≡ record { status = 503; body = health "degraded" (settled database) (settled redis) })
          × ((database ≡ false) ⊎ (redis ≡ false)))
unfolding healthz
healthz_lem true true = inl (refl, refl, refl)
healthz_lem true false = inr (refl, inr refl)
healthz_lem false redis = inr (refl, inl refl)
