-- ===== src/Account/Tests.antt =====
-- A Better Auth with one user who has no organization, ids of few bytes, and instances of the theorems.
use llm_hub.Base.{ℕ, List, ◌==◌, arith, ◌≡◌, refl, none, [], ◌∷◌}
use llm_hub.Base.Text.{codes}
use llm_hub.Fixture.{ann}
use llm_hub.Session.{SignedIn}
use llm_hub.Account.{hex, generate_id, own_organization}
use llm_hub.Account.Ids.{generate_id_injective}

generate_id_test :
    (generate_id (0 ∷ 171 ∷ 255 ∷ []) "organization" ≡ codes "org_00abff")
    × (generate_id (16 ∷ []) "session" ≡ codes "10")
unfolding generate_id hex
generate_id_test = (refl, refl)

abbrev nobody : SignedIn
nobody = record { user = ann.user; active_organization = none }

body_test :
    own_organization (1 ∷ 2 ∷ []) ann.user
    ≡ record { name = codes "Ann's fleet"; slug = codes "org-0102"; user_id = "ann" }
unfolding hex
body_test = refl

generate_id_injective_example :
    ◌≡◌ {A = List ℕ} (171 ∷ 255 ∷ []) (171 ∷ 255 ∷ [])
    × (("user" == "organization") ≡ ("session" == "organization"))
unfolding generate_id
generate_id_injective_example =
    generate_id_injective (171 ∷ 255 ∷ []) (171 ∷ 255 ∷ []) "user" "session"
      (omega arith, (omega arith, tt)) (omega arith, (omega arith, tt)) refl
