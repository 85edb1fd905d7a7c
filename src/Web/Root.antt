-- ===== src/Web/Root.antt =====
-- apps/web/src/router.tsx and routes/root.tsx: which page a path leads to, and what is drawn before
-- somebody is signed in. The router itself and the session hook are parameters of the page.
use llm_hub.Base.{arith, ◌≡◌, ◌↔◌, String, ◌==◌, Bool, not, ◌&&◌, Option, none, some, if◌then◌else◌}

pub data Page : Type 0 where
  sign_in_route sign_up_route fleet_route : Page

-- The routes of the tree; the fleet's stands below the root layout.
abbrev pub page_at : String → Option Page
page_at path =
    if path == "/sign-in"
    then some sign_in_route
    else if path == "/sign-up"
    then some sign_up_route
    else if path == "/"
    then some fleet_route
    else none

-- What `useSession` has at one moment.
pub record SessionState : Type 0 where
  pub is_signed_in : Bool
  pub is_pending : Bool

-- The layout around a page: the outlet stands for the page.
pub data Layout : Type 0 where
  loading nothing outlet : Layout

unfoldable pub root_layout : SessionState → Layout
root_layout s = if s.is_pending then loading else if not s.is_signed_in then nothing else outlet

-- The effect: where it navigates to.
unfoldable pub redirect : SessionState → Option String
redirect s = if not s.is_pending && not s.is_signed_in then some "/sign-in" else none

-- Somebody is sent to sign in exactly when nothing is drawn.
redirect_iff : (s : SessionState) → (redirect s ≡ some "/sign-in") ↔ (root_layout s ≡ nothing)
unfolding redirect root_layout
redirect_iff s = ground arith
