-- ===== src/Session/Access.antt =====
-- `requireSession` of auth/session.ts: whom a session lets in.
use llm_hub.Base.{◌≡◌, ◌≢◌, String, ◌==◌, eq_iff, Option, none, some, arith, Bool-cases, inl, inr}
use llm_hub.Result.{ok, Result-cases}
use llm_hub.Session.{
  SignedIn, SessionContext, Auth, find_organization, with_organization, require_session,
}

module _ (auth : Auth) (headers : auth.Headers) where
  with_organization-eq-ok :
      (s : SignedIn) (org : Option String) (who : SessionContext)
      → with_organization auth s.user org ≡ ok who
      → (org ≡ some who.org_id)
        × (who.org_id ≢ "")
        × (who.user ≡ s.user)
        × (who.user_id ≡ s.user.id)
  unfolding with_organization
  with_organization-eq-ok s none who e = absurd (ground arith)
  with_organization-eq-ok s (some org) who e = elim (Bool-cases (org == "")) [
    | inl blank ↦ absurd (ground (arith, blank))
    | inr named ↦
        let same : org ≡ who.org_id = ground (arith, named) in
        (
          ground (arith, same),
          λ h. ground (arith, named, h, same, eq_iff org ""),
          ground (arith, named),
          ground (arith, named),
        )
  ]

  find_organization-active :
      (s : SignedIn) (active org : String)
      → s.active_organization ≡ some active
      → find_organization auth headers s ≡ ok (some org)
      → org ≡ active
  unfolding find_organization
  find_organization-active s active org e found = ground (arith, e)

  -- Only a signed-in user gets through: the context is that user's, its organization is not blank,
  -- and it is the session's active one where there is one.
  pub require_session-eq-ok :
      (who : SessionContext)
      → require_session auth headers ≡ ok who
      → (s : SignedIn) × (auth.get_session headers ≡ ok (some s))
        × (who.user ≡ s.user)
        × (who.user_id ≡ s.user.id)
        × (who.org_id ≢ "")
        × ((active : String) → s.active_organization ≡ some active → who.org_id ≡ active)
  unfolding require_session
  require_session-eq-ok who e = elim (Result-cases (auth.get_session headers)) [
    | inl (c, bad) ↦ absurd (ground (arith, bad))
    | inr (none, nobody) ↦ absurd (ground (arith, nobody))
    | inr (some s, found) ↦ elim (Result-cases (find_organization auth headers s)) [
      | inl (c, bad) ↦ absurd (ground (arith, found, bad))
      | inr (org, chosen) ↦
          let (same, named, user, id) =
            with_organization-eq-ok s org who (ground (arith, found, chosen)) in
          (
            s,
            found,
            user,
            id,
            named,
            λ active h.
                find_organization-active s active who.org_id h (ground (arith, chosen, same)),
          )
    ]
  ]
