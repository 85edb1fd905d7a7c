-- ===== src/Tenancy/Connection.antt =====
-- packages/db/src/client.ts and migrations/0001_roles_and_rls.sql: the pooled connections of the
-- application role, on which transactions of `withOrg` and bare queries follow each other.
use llm_hub.Base.{
  ◌≡◌, ◌⊎◌, ◌∙◌, refl, String, ◌==◌, Bool, false, Option, none, some, List, [], ◌∷◌, keep, All,
  arith, inl, inr,
}
use llm_hub.Tenancy.{Owned, rows_of}

-- What Postgres does with the setting `app.current_org_id` of one connection. `none` is NULL, which
-- `current_setting(name, true)` gives before the first `set_config`. A local value ends with the
-- transaction, be it committed or rolled back; a setting that had none before may be left empty.
pub record Postgres : Type 1 where
  pub Session : Type 0
  pub connected : Session
  pub current_setting : Session → Option String
  pub begin : Session → Session
  pub set_config_local : String → Session → Session
  pub finish : Bool → Session → Session
  pub connected_lem : current_setting connected ≡ none
  pub set_config_local_lem :
      (value : String) (s : Session) → current_setting (set_config_local value s) ≡ some value
  pub finish_lem :
      (committed : Bool) (value : String) (s : Session)
      → (current_setting (finish committed (set_config_local value (begin s))) ≡ current_setting s)
        ⊎ (current_setting (finish committed (set_config_local value (begin s))) ≡ some "")

-- org_id = current_setting('app.current_org_id', true)
abbrev pub passes : {Row : Type 0} → ⦃o : Owned Row⦄ → Option String → Row → Bool
passes none r = false
passes ⦃o⦄ (some value) r = o.owner r == value

-- A transaction of `withOrg`, and whether it commits; or a query outside of any.
pub data Use : Type 0 where
  with_org : String → Bool → Use
  bare : Use

module _ (pg : Postgres) where
  -- The connection afterwards, and the setting under which the statements run.
  unfoldable pub use_connection : Use → pg.Session → pg.Session × Option String
  use_connection (with_org org committed) s =
      let scope = pg.set_config_local org (pg.begin s) in
      (pg.finish committed scope, pg.current_setting scope)
  use_connection bare s = (s, pg.current_setting s)

  unfoldable pub use_all : List Use → pg.Session → pg.Session
  use_all [] s = s
  use_all (u ∷ us) s = use_all us (use_connection u s).0

  abbrev IsClear : pg.Session → Type 0
  IsClear s = (pg.current_setting s ≡ none) ⊎ (pg.current_setting s ≡ some "")

  use_connection-IsClear : (u : Use) (s : pg.Session) → IsClear s → IsClear (use_connection u s).0
  unfolding use_connection
  use_connection-IsClear (with_org org committed) s clear = elim (pg.finish_lem committed org s) [
    | inl same ↦ elim clear [ inl h ↦ inl (same ∙ h) | inr h ↦ inr (same ∙ h) ]
    | inr empty ↦ inr empty
  ]
  use_connection-IsClear bare s clear = clear

  use_all-IsClear : (us : List Use) (s : pg.Session) → IsClear s → IsClear (use_all us s)
  unfolding use_all
  use_all-IsClear [] s clear = clear
  use_all-IsClear (u ∷ us) s clear =
      use_all-IsClear us (use_connection u s).0 (use_connection-IsClear u s clear)

  keep-none :
      {Row : Type 0}
      → ⦃o : Owned Row⦄ → (rows : List Row) (setting : Option String)
      → (setting ≡ none) ⊎ (setting ≡ some "")
      → All (λ (r : Row). (o.owner r == "") ≡ false) rows
      → keep (passes setting) rows ≡ []
  keep-none rows setting clear h = elim clear [
    | inl e ↦ rw e (nothing rows)
    | inr e ↦ rw e (unowned rows h)
  ]
    where
      nothing : {Row : Type 0} → ⦃o : Owned Row⦄ → (rows : List Row) → keep (passes none) rows ≡ []
      nothing [] = refl
      nothing (r ∷ rows) = nothing rows

      unowned :
          {Row : Type 0}
          → ⦃o : Owned Row⦄ → (rows : List Row) → All (λ (r : Row). (o.owner r == "") ≡ false) rows
          → keep (passes (some "")) rows ≡ []
      unowned [] h = refl
      unowned (r ∷ rows) h = ground (arith, h.0, unowned rows h.1)

  -- Whatever transactions and bare queries ran before on a pooled connection of the application's
  -- role, committed or rolled back, the policy lets a transaction of withOrg see exactly the rows
  -- of its organization, and a query outside of any such transaction no row at all. Hypothesis: no
  -- row's organization has an empty id.
  pub use_connection_scoped :
      {Row : Type 0}
      → ⦃o : Owned Row⦄ → (earlier : List Use) (rows : List Row)
      → All (λ (r : Row). (o.owner r == "") ≡ false) rows
      → let s = use_all earlier pg.connected in
        ((org : String) (committed : Bool)
          → keep (passes (use_connection (with_org org committed) s).1) rows ≡ rows_of org rows)
        × (keep (passes (use_connection bare s).1) rows ≡ [])
  unfolding use_connection
  use_connection_scoped earlier rows owned =
      let s = use_all earlier pg.connected in
      (
        λ org committed. rw (pg.set_config_local_lem org (pg.begin s)) refl,
        keep-none rows (pg.current_setting s)
            (use_all-IsClear earlier pg.connected (inl pg.connected_lem)) owned,
      )
