-- ===== src/Account.antt =====
-- apps/control-plane/src/auth/auth.ts: the ids of accounts and a user's own organization. Better
-- Auth is the parameter `BetterAuth`; the bytes of `randomBytes` are an argument.
pub mod Ids
mod Tests
use llm_hub.Base.{
  ℕ, ◌+◌, ◌-◌, ◌/◌, ◌%◌, String, ◌==◌, Option, none, some, List, [], ◌∷◌, ◌++◌, map, ltb,
  if◌then◌else◌,
}
use llm_hub.Base.Text.{codes}
use llm_hub.Result.{Result, ok, err}
use llm_hub.Schema.{Organization}
use llm_hub.Session.{Auth, SessionError, SignedIn, User}

abbrev pub hex_digit : ℕ → ℕ
hex_digit d = if ltb d 10 then b'0' + d else b'a' + (d - 10)

-- `toString("hex")`
unfoldable pub hex : List ℕ → List ℕ
hex [] = []
hex (byte ∷ bytes) = hex_digit (byte / 16) ∷ hex_digit (byte % 16) ∷ hex bytes

unfoldable pub generate_id : List ℕ → String → List ℕ
unfolding hex
generate_id bytes model = if model == "organization" then codes "org_" ++ hex bytes else hex bytes

pub record OrganizationBody : Type 0 where
  pub name : List ℕ
  pub slug : List ℕ
  pub user_id : String

-- What the control plane calls of Better Auth. An organization that is created has an id.
pub record BetterAuth : Type 1 where
  pub Headers : Type 0
  pub get_session : Headers → Result SessionError (Option SignedIn)
  pub list_organizations : Headers → Result SessionError (List Organization)
  pub create_organization : OrganizationBody → Result SessionError (Option Organization)

-- `user.name || user.email`
abbrev pub name_or_email : User → String
name_or_email user = if user.name == "" then user.email else user.name

abbrev pub own_organization : List ℕ → User → OrganizationBody
own_organization bytes user = record {
  name = codes (name_or_email user) ++ codes "'s fleet";
  slug = codes "org-" ++ hex bytes;
  user_id = user.id;
}

abbrev pub id_of : Option Organization → Option String
id_of none = none
id_of (some org) = some org.id

module _ (better : BetterAuth) (bytes : List ℕ) where
  abbrev pub ensure_personal_organization : User → Result SessionError (Option Organization)
  ensure_personal_organization user = better.create_organization (own_organization bytes user)

  -- The hook after a user is created: it only logs a failure. Gives what it made.
  unfoldable pub after_create : User → Result SessionError (Option Organization)
  after_create user = elim (ensure_personal_organization user) [
    | ok made ↦ ok made
    | err e ↦ ok none
  ]

  -- What a session relies on, from Better Auth.
  abbrev pub auth_ids : Result SessionError (List Organization) → Result SessionError (List String)
  auth_ids (ok orgs) = ok (map (λ (o : Organization). o.id) orgs)
  auth_ids (err e) = err e

  abbrev pub ensured_id :
      Result SessionError (Option Organization) → Result SessionError (Option String)
  ensured_id (ok made) = ok (id_of made)
  ensured_id (err e) = err e

  abbrev pub auth_of : Auth
  auth_of = record {
    Headers = better.Headers;
    get_session = better.get_session;
    list_organizations = λ headers. auth_ids (better.list_organizations headers);
    ensure_personal_organization = λ user. ensured_id (ensure_personal_organization user);
  }
