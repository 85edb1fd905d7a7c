-- ===== src/Server/Tests.antt =====
-- Replies to the fixture's user and to others, and instances of the theorems.
use llm_hub.Base.{ℕ, ◌≡◌, refl, String, none, some, List, [], ◌∷◌}
use llm_hub.Fixture.{better}
use llm_hub.Result.{Result, ok}
use llm_hub.Schema.{Organization}
use llm_hub.Session.{
  SessionError, require_session, find_organization, self_heal_organization, with_organization,
}
use llm_hub.Server.{FastifyError, me, get_me, me_reply}

abbrev broken : String → FastifyError
broken message = record { status_code = none; code = some "ECONNREFUSED"; message = message }

abbrev after : ℕ → Result SessionError (List Organization)
after headers = ok (record { id = "acme"; name = "Acme" } ∷ [])

me_test :
    me_reply better [] after (broken "") 1
    ≡ record { status = 200; body = me "ann" "ann@acme.test" "Ann" "acme" "Acme" }
unfolding me_reply get_me require_session find_organization self_heal_organization with_organization
me_test = refl
