-- ===== src/Agent/Machine.antt =====
-- What agent/internal/config keeps between runs, and what it asks of the system: the OS keychain
-- through go-keyring, the files of one config directory, and base64. `writeFile` of config.go.
pub mod Laws
pub mod Reference
use llm_hub.Base.{ℕ, ◌≡◌, Bool, true, false, Option, none, some, List, ◌⊎◌, ◌↔◌}
use llm_hub.Result.{Result, ok, err, ◌>>=◌}

pub data KeyringError : Type 0 where
  not_found unavailable : KeyringError

-- `keyring.Get`, `Set` and `Delete` of one service and account.
pub record Keyring : Type 1 where
  pub Store : Type 0
  pub get : Store → Result KeyringError (List ℕ)
  pub set : List ℕ → Store → Store × Result KeyringError (Unit {0})
  pub delete : Store → Store × Result KeyringError (Unit {0})
  pub set_ok : (text : List ℕ) (s : Store) → (set text s).1 ≡ ok tt → get (set text s).0 ≡ ok text
  pub set_failed :
      (text : List ℕ) (s : Store) (e : KeyringError)
      → (set text s).1 ≡ err e
      → get (set text s).0 ≡ get s
  pub delete_gone :
      (s : Store)
      → ((delete s).1 ≡ ok tt) ⊎ ((delete s).1 ≡ err not_found)
      → get (delete s).0 ≡ err not_found

pub data FileName : Type 0 where
  identity_key config_json : FileName

-- A file of the directory, or the one with `.tmp` after its name.
pub data FilePath : Type 0 where
  final temporary : FileName → FilePath

abbrev pub same_name : FileName → FileName → Bool
same_name identity_key identity_key = true
same_name config_json config_json = true
same_name _ _ = false

abbrev pub same_path : FilePath → FilePath → Bool
same_path (final a) (final b) = same_name a b
same_path (temporary a) (temporary b) = same_name a b
same_path _ _ = false

pub data FileError : Type 0 where
  missing denied : FileError

abbrev pub Outcome : Type 0 → Type 0
Outcome Store = Store × Result FileError (Unit {0})

-- `os.ReadFile`, `Stat`, `MkdirAll` of the directory, `WriteFile`, `Rename` and `Remove`.
pub record Files : Type 1 where
  pub Store : Type 0
  pub read : FilePath → Store → Result FileError (List ℕ)
  pub stat : FilePath → Store → Result FileError (Unit {0})
  pub mkdir_all : Store → Outcome Store
  pub write : FilePath → List ℕ → Store → Outcome Store
  pub rename : FilePath → FilePath → Store → Outcome Store
  pub remove : FilePath → Store → Outcome Store
  pub stat_missing :
      (p : FilePath) (s : Store) → (stat p s ≡ err missing) ↔ (read p s ≡ err missing)
  pub mkdir_all_kept : (p : FilePath) (s : Store) → read p (mkdir_all s).0 ≡ read p s
  pub write_ok :
      (p : FilePath) (text : List ℕ) (s : Store)
      → (write p text s).1 ≡ ok tt
      → read p (write p text s).0 ≡ ok text
  pub write_kept :
      (p q : FilePath) (text : List ℕ) (s : Store)
      → same_path p q ≡ false
      → read q (write p text s).0 ≡ read q s
  pub rename_ok :
      (p q : FilePath) (s : Store) → (rename p q s).1 ≡ ok tt → read q (rename p q s).0 ≡ read p s
  pub rename_failed :
      (p q r : FilePath) (s : Store) (e : FileError)
      → (rename p q s).1 ≡ err e
      → read r (rename p q s).0 ≡ read r s
  pub rename_kept :
      (p q r : FilePath) (s : Store)
      → same_path p r ≡ false
      → same_path q r ≡ false
      → read r (rename p q s).0 ≡ read r s
  pub remove_gone :
      (p : FilePath) (s : Store)
      → ((remove p s).1 ≡ ok tt) ⊎ ((remove p s).1 ≡ err missing)
      → read p (remove p s).0 ≡ err missing
  pub remove_kept :
      (p q : FilePath) (s : Store) → same_path p q ≡ false → read q (remove p s).0 ≡ read q s

-- `base64.StdEncoding` and `strings.TrimSpace`.
pub record Coding : Type 0 where
  pub encode : List ℕ → List ℕ
  pub decode : List ℕ → Option (List ℕ)
  pub trim_space : List ℕ → List ℕ
  pub decode-encode : (raw : List ℕ) → decode (encode raw) ≡ some raw
  pub trim_space-encode : (raw : List ℕ) → trim_space (encode raw) ≡ encode raw

pub record State (keyring : Keyring) (files : Files) : Type 0 where
  pub keychain : keyring.Store
  pub disk : files.Store

module _ (files : Files) where
  -- Goes on with what a call left, unless it failed.
  abbrev after : Outcome files.Store → (files.Store → Outcome files.Store) → Outcome files.Store
  after (s, ok t) next = next s
  after (s, err e) next = (s, err e)

  unfoldable pub write_file : FileName → List ℕ → files.Store → Outcome files.Store
  write_file name text s = after (files.mkdir_all s) (λ made.
      after (files.write (temporary name) text made)
        (λ written. files.rename (temporary name) (final name) written))
