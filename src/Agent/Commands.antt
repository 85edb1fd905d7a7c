-- ===== src/Agent/Commands.antt =====
-- agent/cmd/agent/main.go: `enroll`, `run` and `uninstall`, with config.json of
-- agent/internal/config/config.go. What the control plane answers, what the host says and whether
-- the service is removed are arguments.
pub mod Laws
use llm_hub.Base.{ℕ, ◌≡◌, Bool, true, false, not, ◌&&◌, Option, none, some, List, [], if◌then◌else◌}
use llm_hub.NodeAuth.{is_empty}
use llm_hub.Result.{Result, ok, err, ◌>>=◌}
use llm_hub.Agent.Identity.{IdentityError, is_no_identity, Key, load, load_or_create, delete}
use llm_hub.Agent.Machine.{
  Keyring, Files, FileError, missing, denied, config_json, final, Coding, State, Outcome,
  write_file,
}

-- Texts are lists of code points.
abbrev pub Text : Type 0
Text = List ℕ

pub record Config : Type 0 where
  pub server_url : Text
  pub node_id : Text
  pub org_id : Text
  pub node_name : Text

abbrev pub no_config : Config
no_config = record { server_url = []; node_id = []; org_id = []; node_name = [] }

unfoldable pub enrolled : Config → Bool
enrolled c = not (is_empty c.node_id) && not (is_empty c.server_url)

-- `json.MarshalIndent` and `json.Unmarshal` of a Config.
pub record Json : Type 0 where
  pub marshal : Config → List ℕ
  pub unmarshal : List ℕ → Option Config
  pub unmarshal-marshal : (c : Config) → unmarshal (marshal c) ≡ some c

-- `transport.EnrollResult`
pub record EnrollResult : Type 0 where
  pub node_id : Text
  pub org_id : Text
  pub org_name : Text

-- What `transport.Enroll` sends, the host's facts aside.
pub record EnrollRequest : Type 0 where
  pub pairing_code : Text
  pub public_key : List ℕ
  pub node_name : Text

-- The flags of `enroll`.
pub record Flags : Type 0 where
  pub code : Text
  pub server : Text
  pub name : Text

-- The session that `run` starts, its probes aside.
pub record Started : Type 0 where
  pub server_url : Text
  pub node_id : Text
  pub private_key : Key

pub data CommandError : Type 0 where
  config_unreadable config_broken not_enrolled identity_missing host_unread rejected unsaved :
      CommandError
  identity : IdentityError → CommandError
  not_removed : IdentityError → CommandError
  not_cleared service_left : CommandError
  service_and_identity : CommandError

module _ (json : Json) (files : Files) where
  unfoldable pub load_config : files.Store → Result CommandError Config
  load_config disk = elim (files.read (final config_json) disk) [
    | err missing ↦ ok no_config
    | err denied ↦ err config_unreadable
    | ok text ↦ elim (json.unmarshal text) [ none ↦ err config_broken | some c ↦ ok c ]
  ]

  unfoldable pub save_config : Config → files.Store → Outcome files.Store
  save_config c disk = write_file files config_json (json.marshal c) disk

  unfoldable pub clear_enrollment : files.Store → Outcome files.Store
  clear_enrollment disk = elim (files.stat (final config_json) disk) [
    | err missing ↦ (disk, ok tt)
    | err denied ↦ (disk, err denied)
    | ok t ↦ save_config no_config disk
  ]

  abbrev check_enrolled : Config → Result CommandError Config
  check_enrolled c = if enrolled c then ok c else err not_enrolled

  unfoldable pub load_enrolled : files.Store → Result CommandError Config
  load_enrolled disk = do c ← load_config disk; check_enrolled c

  module _ (coding : Coding) (keyring : Keyring) where
    abbrev start : Config → Result IdentityError Key → Result CommandError Started
    start c (ok priv) =
        ok (record { server_url = c.server_url; node_id = c.node_id; private_key = priv })
    start c (err e) = if is_no_identity e then err identity_missing else err (identity e)

    unfoldable pub run : State keyring files → Result CommandError Started
    run s = do c ← load_enrolled s.disk; start c (load coding keyring files s)

    -- `public` is the public half of a key, `control_plane` what answers the request, and `host` the
    -- host's name, if it can be read.
    module _ (public : Key → List ℕ) (control_plane : EnrollRequest → Option EnrollResult)
        (host : Option Text) where
      abbrev pub node_name : Flags → Text → Text
      node_name flags hostname = if is_empty flags.name then hostname else flags.name

      abbrev pub request : Flags → Text → Key → EnrollRequest
      request flags hostname priv = record {
        pairing_code = flags.code;
        public_key = public priv;
        node_name = node_name flags hostname;
      }

      -- What is saved of an answer.
      abbrev pub config_of : Flags → Text → EnrollResult → Config
      config_of flags hostname result = record {
        server_url = flags.server;
        node_id = result.node_id;
        org_id = result.org_id;
        node_name = node_name flags hostname;
      }

      abbrev saved :
          State keyring files
          → EnrollResult
          → Outcome files.Store
          → State keyring files × Result CommandError EnrollResult
      saved s result (disk, ok t) = (record s { disk = disk }, ok result)
      saved s result (disk, err e) = (record s { disk = disk }, err unsaved)

      unfoldable pub store_answer :
          Flags
          → Text
          → Option EnrollResult
          → State keyring files
          → State keyring files × Result CommandError EnrollResult
      store_answer flags hostname none s = (s, err rejected)
      store_answer flags hostname (some result) s =
          saved s result (save_config (config_of flags hostname result) s.disk)

      unfoldable pub ask :
          Flags
          → Option Text
          → State keyring files × Result IdentityError Key
          → State keyring files × Result CommandError EnrollResult
      ask flags hostname (s, err e) = (s, err (identity e))
      ask flags none (s, ok priv) = (s, err host_unread)
      ask flags (some hostname) (s, ok priv) =
          store_answer flags hostname (control_plane (request flags hostname priv)) s

      unfoldable pub enroll :
          Flags
          → Option Key
          → State keyring files
          → State keyring files × Result CommandError EnrollResult
      enroll flags generated s = ask flags host (load_or_create coding keyring files generated s)

    unfoldable pub clear_deleted :
        State keyring files × Result IdentityError (Unit {0})
        → State keyring files × Result CommandError (Unit {0})
    clear_deleted (s, err e) = (s, err (not_removed e))
    clear_deleted (s, ok t) =
        let (disk, cleared) = clear_enrollment s.disk in
        (record s { disk = disk }, elim cleared [ ok u ↦ ok tt | err e ↦ err not_cleared ])

    abbrev pub both : Bool → Result CommandError (Unit {0}) → Result CommandError (Unit {0})
    both true removed = removed
    both false (ok t) = err service_left
    both false (err e) = err service_and_identity

    -- `service_removed`: whether `service.Uninstall` succeeded.
    unfoldable pub uninstall :
        Bool → State keyring files → State keyring files × Result CommandError (Unit {0})
    uninstall service_removed s =
        let (after, removed) = clear_deleted (delete coding keyring files s) in
        (after, both service_removed removed)
