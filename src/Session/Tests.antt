-- ===== src/Session/Tests.antt =====
-- A user who is signed in, and an instance of the theorem about sessions.
use llm_hub.Base.{◌≡◌, refl}
use llm_hub.Fixture.{ann, service}
use llm_hub.Result.{ok}
use llm_hub.Session.{find_organization, self_heal_organization, with_organization, require_session}

repair_test : require_session service 1 ≡ ok ann
unfolding require_session find_organization self_heal_organization with_organization
repair_test = refl
