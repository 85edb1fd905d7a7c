-- ===== src/Session.antt =====
-- apps/control-plane/src/auth/session.ts: who is signed in, and for which organization. Better Auth
-- is the parameter `Auth`.
pub mod Access
mod Tests
use llm_hub.Base.{
  ℕ, ◌≡◌, ◌⊎◌, refl, String, ◌==◌, Bool, true, false, Option, none, some, List, [], ◌∷◌, arith,
  if◌then◌else◌, head, Bool-cases, Option-cases, inl, inr,
}
use llm_hub.Result.{Result, ok, err, ◌>>=◌, Result-cases}

-- `unexpected` is any exception but an HttpError.
pub data SessionError : Type 0 where
  http_error : ℕ → String → String → SessionError
  unexpected : SessionError

pub record User : Type 0 where
  pub id : String
  pub email : String
  pub name : String

pub record SignedIn : Type 0 where
  pub user : User
  pub active_organization : Option String

pub record SessionContext : Type 0 where
  pub user_id : String
  pub org_id : String
  pub user : User

-- `get_session` answers nothing where there is no session or no user; organizations are given by
-- their ids.
pub record Auth : Type 1 where
  pub Headers : Type 0
  pub get_session : Headers → Result SessionError (Option SignedIn)
  pub list_organizations : Headers → Result SessionError (List String)
  pub ensure_personal_organization : User → Result SessionError (Option String)

module _ (auth : Auth) where
  unfoldable pub self_heal_organization : User → Option String
  self_heal_organization user = elim (auth.ensure_personal_organization user) [
    | ok org ↦ org
    | err e ↦ none
  ]

  -- `active ?? first of the list ?? repaired`
  unfoldable pub find_organization : auth.Headers → SignedIn → Result SessionError (Option String)
  unfolding self_heal_organization
  find_organization headers session = elim session.active_organization [
    | some org ↦ ok (some org)
    | none ↦ elim (auth.list_organizations headers) [
      | err e ↦ err e
      | ok orgs ↦ elim (head orgs) [
        | some org ↦ ok (some org)
        | none ↦ ok (self_heal_organization session.user)
      ]
    ]
  ]

  unfoldable pub with_organization : User → Option String → Result SessionError SessionContext
  with_organization user none = err (http_error 403 "no_organization" "user has no organization")
  with_organization user (some org) =
      if org == ""
      then err (http_error 403 "no_organization" "user has no organization")
      else ok (record { user_id = user.id; org_id = org; user = user })

  unfoldable pub require_session : auth.Headers → Result SessionError SessionContext
  unfolding find_organization with_organization
  require_session headers = elim (auth.get_session headers) [
    | err e ↦ err e
    | ok none ↦ err (http_error 401 "unauthenticated" "sign in required")
    | ok (some session) ↦ do
      org ← find_organization headers session
      with_organization session.user org
  ]
