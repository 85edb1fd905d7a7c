-- ===== src/Agent/Identity.antt =====
-- agent/internal/config/identity.go: the node's private key, in the OS keychain or in a file. A key
-- is its 64 bytes.
pub mod Laws
use llm_hub.Base.{ℕ, ◌≡◌, Bool, true, false, Option, none, some, List, length, eqb, if◌then◌else◌}
use llm_hub.Result.{Result, ok, err, ◌>>=◌}
use llm_hub.Agent.Machine.{
  Keyring, KeyringError, not_found, unavailable, Files, FileError, missing, denied, identity_key,
  final, Coding, State, write_file,
}

-- `fallback_failed` wraps the error of the file.
pub data IdentityError : Type 0 where
  no_identity unreadable not_base64 wrong_size no_fallback not_generated unwritable : IdentityError
  fallback_failed : IdentityError → IdentityError
  keychain_left file_left both_left : IdentityError

-- `errors.Is(err, ErrNoIdentity)`
abbrev pub is_no_identity : IdentityError → Bool
is_no_identity IdentityError.no_identity = true
is_no_identity (IdentityError.fallback_failed e) = is_no_identity e
is_no_identity e = false

abbrev pub Key : Type 0
Key = List ℕ

module _ (coding : Coding) where
  unfoldable pub decode_key : List ℕ → Result IdentityError Key
  decode_key encoded = elim (coding.decode encoded) [
    | none ↦ err not_base64
    | some raw ↦ if eqb (length raw) 64 then ok raw else err wrong_size
  ]

  module _ (files : Files) where
    unfoldable pub load_file : files.Store → Result IdentityError Key
    load_file disk = elim (files.read (final identity_key) disk) [
      | ok text ↦ decode_key (coding.trim_space text)
      | err missing ↦ err no_identity
      | err denied ↦ err unreadable
    ]

  -- What the keychain's error and the file come to together.
  abbrev pub load_without : KeyringError → Result IdentityError Key → Result IdentityError Key
  load_without key_err (ok priv) = ok priv
  load_without not_found (err e) = err e
  load_without unavailable (err e) =
      if is_no_identity e then err no_fallback else err (fallback_failed e)

  module _ (keyring : Keyring) (files : Files) where
    unfoldable pub load : State keyring files → Result IdentityError Key
    load s = elim (keyring.get s.keychain) [
      | ok stored ↦ decode_key stored
      | err e ↦ load_without e (load_file files s.disk)
    ]

    abbrev pub Loaded : Type 0
    Loaded = State keyring files × Result IdentityError Key

    abbrev wrote : keyring.Store → Key → files.Store × Result FileError (Unit {0}) → Loaded
    wrote keychain priv (disk, ok t) = (record { keychain = keychain; disk = disk }, ok priv)
    wrote keychain priv (disk, err e) =
        (record { keychain = keychain; disk = disk }, err unwritable)

    unfoldable pub save_file : Key → State keyring files → Loaded
    save_file priv s =
        wrote s.keychain priv (write_file files identity_key (coding.encode priv) s.disk)

    unfoldable pub save_keychain : Key → State keyring files → Loaded
    save_keychain priv s =
        let kept = record s { keychain = (keyring.set (coding.encode priv) s.keychain).0 } in
        elim ((keyring.set (coding.encode priv) s.keychain).1) [
          | ok t ↦ (kept, ok priv)
          | err e ↦ save_file priv kept
        ]

    -- `generated` is what `ed25519.GenerateKey` returns, `none` its error.
    unfoldable pub mint_key : Bool → Option Key → State keyring files → Loaded
    mint_key usable none s = (s, err not_generated)
    mint_key usable (some priv) s = if usable then save_keychain priv s else save_file priv s

    unfoldable pub load_or_create_fallback : Bool → Option Key → State keyring files → Loaded
    load_or_create_fallback usable generated s = elim (load_file files s.disk) [
      | ok priv ↦ (s, ok priv)
      | err e ↦ if is_no_identity e then mint_key usable generated s else (s, err e)
    ]

    abbrev pub wrap_fallback : Loaded → Loaded
    wrap_fallback (s, ok priv) = (s, ok priv)
    wrap_fallback (s, err e) = (s, err (fallback_failed e))

    unfoldable pub load_or_create : Option Key → State keyring files → Loaded
    load_or_create generated s = elim (keyring.get s.keychain) [
      | ok stored ↦ (s, decode_key stored)
      | err not_found ↦ load_or_create_fallback true generated s
      | err unavailable ↦ wrap_fallback (load_or_create_fallback false generated s)
    ]

    abbrev pub joined :
        Result KeyringError (Unit {0})
        → Result FileError (Unit {0})
        → Result IdentityError (Unit {0})
    joined (err unavailable) (err denied) = err both_left
    joined (err unavailable) _ = err keychain_left
    joined _ (err denied) = err file_left
    joined _ _ = ok tt

    unfoldable pub delete :
        State keyring files → State keyring files × Result IdentityError (Unit {0})
    delete s =
        let (keychain, forgotten) = keyring.delete s.keychain in
        let (disk, removed) = files.remove (final identity_key) s.disk in
        (record { keychain = keychain; disk = disk }, joined forgotten removed)
