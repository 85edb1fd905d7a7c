-- ===== src/Server.antt =====
-- apps/control-plane/src/server.ts: the answers of the browser's listener that are neither Connect's
-- nor Better Auth's. Fastify calls a handler and sends what it returns, or gives its exception to
-- the error handler.
pub mod Replies
mod Tests
use llm_hub.Base.{
  ℕ, String, ◌==◌, Bool, true, false, ◌&&◌, Option, none, some, List, [], ◌∷◌, leb, if◌then◌else◌,
}
use llm_hub.Account.{BetterAuth, auth_of}
use llm_hub.Result.{Result, ok, err}
use llm_hub.Schema.{Organization}
use llm_hub.Session.{SessionError, SessionContext, User, http_error, unexpected, require_session}

-- What the error handler reads of an exception.
pub record FastifyError : Type 0 where
  pub status_code : Option ℕ
  pub code : Option String
  pub message : String

-- The JSON bodies.
pub data Body : Type 0 where
  failure : (error message : String) → Body
  missing : (error path : String) → Body
  health : (status database redis : String) → Body
  me : (id email name org_id org_name : String) → Body

pub record Reply : Type 0 where
  pub status : ℕ
  pub body : Body

abbrev pub or_else {ℓ} : {A : Type ℓ} → Option A → A → A
or_else none d = d
or_else (some a) d = a

abbrev pub status_of : FastifyError → ℕ
status_of e = or_else e.status_code 500

unfoldable pub error_reply : FastifyError → Reply
error_reply e = record {
  status = status_of e;
  body =
      if leb 500 (status_of e)
      then failure "internal_error" "internal error"
      else failure (or_else e.code "request_error") e.message;
}

abbrev pub not_found_reply : String → Reply
not_found_reply url = record { status = 404; body = missing "not_found" url }

-- `.then(() => "ok", () => "error")`
abbrev pub settled : Bool → String
settled true = "ok"
settled false = "error"

-- Whether the database answers, and whether Redis does.
unfoldable pub healthz : Bool → Bool → Reply
healthz database_answers redis_answers =
    let database = settled database_answers in
    let cache = settled redis_answers in
    let status = if database == "ok" && cache == "ok" then "ok" else "degraded" in
    record { status = if status == "ok" then 200 else 503; body = health status database cache }

-- `orgs.find((o) => o.id === orgId)?.name ?? ""`
abbrev pub org_name : String → List Organization → String
org_name org_id [] = ""
org_name org_id (o ∷ os) = if o.id == org_id then o.name else org_name org_id os

abbrev pub me_body : SessionContext → List Organization → Body
me_body who orgs = me who.user.id who.user.email who.user.name who.org_id (org_name who.org_id orgs)

-- How Fastify sees what a session throws; `seen` is what it sees of any other exception.
abbrev pub thrown : FastifyError → SessionError → FastifyError
thrown seen (http_error status code message) = record {
  status_code = some status;
  code = some code;
  message = message;
}
thrown seen unexpected = seen

-- `relisted` is the second call of `listOrganizations`, which sees what a repair made.
module _ (better : BetterAuth) (bytes : List ℕ)
    (relisted : better.Headers → Result SessionError (List Organization)) where
  unfoldable pub get_me : better.Headers → Result SessionError Body
  get_me headers = elim (require_session (auth_of better bytes) headers) [
    | err e ↦ err e
    | ok who ↦ elim (relisted headers) [ err e ↦ err e | ok orgs ↦ ok (me_body who orgs) ]
  ]

  abbrev pub reply_of : FastifyError → Result SessionError Body → Reply
  reply_of seen (ok body) = record { status = 200; body = body }
  reply_of seen (err e) = error_reply (thrown seen e)

  unfoldable pub me_reply : FastifyError → better.Headers → Reply
  unfolding get_me
  me_reply seen headers = reply_of seen (get_me headers)
