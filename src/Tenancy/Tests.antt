-- ===== src/Tenancy/Tests.antt =====
-- A connection whose settings are kept plainly, and an instance of the theorem about it.
use llm_hub.Base.{
  ◌≡◌, ◌⊎◌, inl, inr, refl, String, Bool, true, false, Option, none, some, List, [], ◌∷◌, keep,
}
use llm_hub.Fixture.{node}
use llm_hub.Tenancy.{rows_of, node_owned}
use llm_hub.Tenancy.Connection.{
  Postgres, passes, Use, with_org, bare, use_connection, use_all, use_connection_scoped,
}

-- The value outside of a transaction, and the local one.
pub record Settings : Type 0 where
  pub outer : Option String
  pub inner : Option String

abbrev pub shown : Option String → Option String → Option String
shown none outer = outer
shown (some value) outer = some value

-- What was never set is left empty.
abbrev pub left_over : Option String → Option String
left_over none = some ""
left_over (some value) = some value

left_over_lem : (o : Option String) → (left_over o ≡ o) ⊎ (left_over o ≡ some "")
left_over_lem none = inr refl
left_over_lem (some value) = inl refl

abbrev plain : Postgres
plain = record {
  Session = Settings;
  connected = record { outer = none; inner = none };
  current_setting = λ s. shown s.inner s.outer;
  begin = λ s. record { outer = shown s.inner s.outer; inner = none };
  set_config_local = λ value s. record s { inner = some value };
  finish = λ committed s. record { outer = left_over s.outer; inner = none };
  connected_lem = refl;
  set_config_local_lem = λ value s. refl;
  finish_lem = λ committed value s. left_over_lem (shown s.inner s.outer);
}

abbrev earlier : List Use
earlier = with_org "acme" true ∷ bare ∷ with_org "other" false ∷ []

use_connection_scoped_example :
    let s = use_all plain earlier plain.connected in
    ((org : String) (committed : Bool)
      → keep (passes (use_connection plain (with_org org committed) s).1) (node ∷ [])
        ≡ rows_of org (node ∷ []))
    × (keep (passes (use_connection plain bare s).1) (node ∷ []) ≡ [])
use_connection_scoped_example = use_connection_scoped plain earlier (node ∷ []) (refl, tt)
