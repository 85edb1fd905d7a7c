-- ===== src/Agent/Identity/Laws.antt =====
-- agent/internal/config/identity.go: what is loaded after a key was created or deleted.
use llm_hub.Agent.Identity.{
  IdentityError, no_identity, is_no_identity, Key, decode_key, load_file, load_without, load,
  save_file, save_keychain, mint_key, load_or_create_fallback, wrap_fallback, load_or_create,
  joined, delete,
}
use llm_hub.Agent.Machine.{
  Keyring, KeyringError, not_found, unavailable, Files, FileError, missing, denied, identity_key,
  final, Coding, State, write_file,
}
use llm_hub.Agent.Machine.Laws.{write_file_lem}
use llm_hub.Base.{
  ℕ, ◌≡◌, ◌↔◌, ◌⊎◌, refl, ◌∙◌, ap, Bool, true, false, Option, none, some, List, length, arith,
  Option-cases, Bool-cases, inl, inr,
}
use llm_hub.Result.{Result, ok, err, Result-cases}

module _ (coding : Coding) (keyring : Keyring) (files : Files) where
  decode_key-encode :
      (priv : Key) → length priv ≡ 64 → decode_key coding (coding.encode priv) ≡ ok priv
  unfolding decode_key
  decode_key-encode priv long = rw (coding.decode-encode priv, decode_key) (ground (arith, long))

  decode_key-ne-no_identity : (text : List ℕ) → ¬ (decode_key coding text ≡ err no_identity)
  unfolding decode_key
  decode_key-ne-no_identity text e = elim (Option-cases (coding.decode text)) [
    | inl bad ↦ absurd (ground (arith, bad))
    | inr (raw, good) ↦ absurd (ground (arith, good))
  ]

  pub load-no_identity_iff :
      (s : State keyring files)
      → (load coding keyring files s ≡ err no_identity) ↔ (
          (keyring.get s.keychain ≡ err not_found)
          × (files.read (final identity_key) s.disk ≡ err missing))
  unfolding load load_file
  load-no_identity_iff s = (
    λ e. elim (Result-cases (keyring.get s.keychain)) [
      | inr (text, held) ↦
          let same : decode_key coding text ≡ err no_identity = ground (arith, held) in
          absurd (decode_key-ne-no_identity text same)
      | inl (unavailable, locked) ↦ absurd (locked_out s locked e)
      | inl (not_found, free) ↦ elim (Result-cases (files.read (final identity_key) s.disk)) [
        | inl (missing, gone) ↦ (free, gone)
        | inl (denied, bad) ↦ absurd (ground (arith, free, bad))
        | inr (text, there) ↦
            absurd
              (decode_key-ne-no_identity (coding.trim_space text) (file_only s text free there e))
      ]
    ],
    λ h. rw (h.0, h.1, load, load_file),
  )
    where
      locked_out :
          (s : State keyring files)
          → keyring.get s.keychain ≡ err unavailable
          → ¬ (load coding keyring files s ≡ err no_identity)
      locked_out s locked e = elim (Result-cases (load_file coding files s.disk)) [
        | inr (priv, good) ↦ absurd (ground (arith, locked, good))
        | inl (x, bad) ↦ elim (Bool-cases (is_no_identity x)) [
          | inl same ↦ absurd (ground (arith, locked, bad, same))
          | inr other ↦ absurd (ground (arith, locked, bad, other))
        ]
      ]

      file_only :
          (s : State keyring files) (text : List ℕ)
          → keyring.get s.keychain ≡ err not_found
          → files.read (final identity_key) s.disk ≡ ok text
          → load coding keyring files s ≡ err no_identity
          → decode_key coding (coding.trim_space text) ≡ err no_identity
      file_only s text free there e =
          elim (Result-cases (decode_key coding (coding.trim_space text))) [
            | inr (priv, good) ↦ absurd (ground (arith, free, there, good, e))
            | inl (x, bad) ↦ ground (arith, free, there, bad, e)
          ]

  load_without-ok :
      (e : KeyringError) (file : Result IdentityError Key) (priv : Key)
      → load_without coding e file ≡ ok priv
      → file ≡ ok priv
  load_without-ok not_found (ok x) priv h = h
  load_without-ok not_found (err x) priv h = cc
  load_without-ok unavailable (ok x) priv h = h
  load_without-ok unavailable (err x) priv h = elim (Bool-cases (is_no_identity x)) [
    | inl same ↦ absurd (ground (arith, same, h))
    | inr other ↦ absurd (ground (arith, other, h))
  ]

  -- Where a key can be loaded, loading or creating returns that key and changes nothing, in the
  -- keychain or on disk, whatever key would have been generated.
  pub load_or_create_keeps :
      (generated : Option Key) (s : State keyring files) (priv : Key)
      → load coding keyring files s ≡ ok priv
      → load_or_create coding keyring files generated s ≡ (s, ok priv)
  unfolding load load_or_create load_or_create_fallback
  load_or_create_keeps generated s priv h = elim (Result-cases (keyring.get s.keychain)) [
    | inr (text, held) ↦ ground (arith, held, h)
    | inl (e, lacking) ↦
        let from : load_without coding e (load_file coding files s.disk) ≡ ok priv =
          ground (arith, lacking, h) in
        let file = load_without-ok e (load_file coding files s.disk) priv from in
        elim e [
          | not_found ↦ ground (arith, lacking, file)
          | unavailable ↦ ground (arith, lacking, file)
        ]
  ]

  load-file :
      (e : KeyringError) (k : Key) (s : State keyring files)
      → length k ≡ 64
      → keyring.get s.keychain ≡ err e
      → files.read (final identity_key) s.disk ≡ ok (coding.encode k)
      → load coding keyring files s ≡ ok k
  unfolding load load_file
  load-file e k s long lacking stored =
      let file : load_file coding files s.disk ≡ ok k =
        rw (stored, coding.trim_space-encode k, load_file) (decode_key-encode k long) in
      elim e [
        | not_found ↦ ground (arith, lacking, file)
        | unavailable ↦ ground (arith, lacking, file)
      ]

  save_file-load :
      (e : KeyringError) (k priv : Key) (s : State keyring files)
      → length k ≡ 64
      → keyring.get s.keychain ≡ err e
      → (save_file coding keyring files k s).1 ≡ ok priv
      → load coding keyring files (save_file coding keyring files k s).0 ≡ ok priv
  unfolding save_file
  save_file-load e k priv s long lacking h =
      let text = coding.encode k in
      let run = write_file files identity_key text s.disk in
      elim (write_file_lem files identity_key text s.disk) [
        | inl (good, stored) ↦
            let same : k ≡ priv = ground (arith, good, h) in
            let disk : (save_file coding keyring files k s).0.disk ≡ run.0 = ground (arith, good) in
            let kept : (save_file coding keyring files k s).0.keychain ≡ s.keychain =
              ground (arith, good) in
            load-file e k (save_file coding keyring files k s).0 long
              (ap keyring.get kept ∙ lacking) (ap (files.read (final identity_key)) disk ∙ stored)
            ∙ ap ok same
        | inr (x, bad, stored) ↦ absurd (ground (arith, bad, h))
      ]

  save_keychain-load :
      (k priv : Key) (s : State keyring files)
      → length k ≡ 64
      → keyring.get s.keychain ≡ err not_found
      → (save_keychain coding keyring files k s).1 ≡ ok priv
      → load coding keyring files (save_keychain coding keyring files k s).0 ≡ ok priv
  unfolding save_keychain load
  save_keychain-load k priv s long free h =
      let text = coding.encode k in
      let set = keyring.set text s.keychain in
      let kept : State keyring files = record s { keychain = set.0 } in
      elim (Result-cases set.1) [
        | inr (t, good) ↦
            let stored : keyring.get set.0 ≡ ok text = keyring.set_ok text s.keychain good in
            let same : k ≡ priv = ground (arith, good, h) in
            let all : save_keychain coding keyring files k s ≡ (kept, ok k) =
              ground (arith, good) in
            rw all (rw (stored, load) (decode_key-encode k long ∙ ap ok same))
        | inl (e, bad) ↦
            let lacking : keyring.get set.0 ≡ err not_found =
              keyring.set_failed text s.keychain e bad ∙ free in
            let all : save_keychain coding keyring files k s
                ≡ save_file coding keyring files k kept =
              ground (arith, bad) in
            rw all (save_file-load not_found k priv kept long lacking (rw all at h))
      ]

  mint_key-load :
      (usable : Bool) (e : KeyringError) (generated : Option Key) (priv : Key)
      (s : State keyring files)
      → ((k : Key) → generated ≡ some k → length k ≡ 64)
      → keyring.get s.keychain ≡ err e
      → (usable ≡ true → e ≡ not_found)
      → (mint_key coding keyring files usable generated s).1 ≡ ok priv
      → load coding keyring files (mint_key coding keyring files usable generated s).0 ≡ ok priv
  unfolding mint_key
  mint_key-load usable e none priv s long lacking free h = cc
  mint_key-load true e (some k) priv s long lacking free h =
      save_keychain-load k priv s (long k refl) (lacking ∙ ap err (free refl)) h
  mint_key-load false e (some k) priv s long lacking free h =
      save_file-load e k priv s (long k refl) lacking h

  fallback-load :
      (usable : Bool) (e : KeyringError) (generated : Option Key) (priv : Key)
      (s : State keyring files)
      → ((k : Key) → generated ≡ some k → length k ≡ 64)
      → keyring.get s.keychain ≡ err e
      → (usable ≡ true → e ≡ not_found)
      → let run = load_or_create_fallback coding keyring files usable generated s in
        run.1 ≡ ok priv → load coding keyring files run.0 ≡ ok priv
  unfolding load_or_create_fallback load
  fallback-load usable e generated priv s long lacking free h =
      let minted = mint_key-load usable e generated priv s long lacking free in
      elim (Result-cases (load_file coding files s.disk)) [
        | inr (k, found) ↦
            let same : k ≡ priv = ground (arith, found, h) in
            let all : load_or_create_fallback coding keyring files usable generated s ≡ (s, ok k) =
              ground (arith, found) in
            let there : load coding keyring files s ≡ ok k =
              ground (arith, lacking, found, load_without_ok e k) in
            rw all (there ∙ ap ok same)
        | inl (x, bad) ↦ elim (Bool-cases (is_no_identity x)) [
          | inl gone ↦
              let all : load_or_create_fallback coding keyring files usable generated s
                  ≡ mint_key coding keyring files usable generated s =
                ground (arith, bad, gone) in
              rw all (minted (rw all at h))
          | inr other ↦ absurd (ground (arith, bad, other, h))
        ]
      ]
    where
      load_without_ok : (e : KeyringError) (k : Key) → load_without coding e (ok k) ≡ ok k
      load_without_ok not_found k = refl
      load_without_ok unavailable k = refl

  wrapped-load :
      (run : State keyring files × Result IdentityError Key) (priv : Key)
      → (run.1 ≡ ok priv → load coding keyring files run.0 ≡ ok priv)
      → (wrap_fallback coding keyring files run).1 ≡ ok priv
      → load coding keyring files (wrap_fallback coding keyring files run).0 ≡ ok priv
  wrapped-load (s, ok k) priv done h = done h
  wrapped-load (s, err e) priv done h = cc

  -- The key that loading or creating returns is the one that is loaded afterwards, wherever it had
  -- to be stored: in the keychain, in the file where the keychain is locked, or in the file after
  -- the keychain refused it. Hypothesis: a generated key has 64 bytes.
  pub load-load_or_create :
      (generated : Option Key) (s : State keyring files) (priv : Key)
      → ((k : Key) → generated ≡ some k → length k ≡ 64)
      → (load_or_create coding keyring files generated s).1 ≡ ok priv
      → load coding keyring files (load_or_create coding keyring files generated s).0 ≡ ok priv
  unfolding load_or_create load
  load-load_or_create generated s priv long h = elim (Result-cases (keyring.get s.keychain)) [
    | inr (text, held) ↦ ground (arith, held, h)
    | inl (not_found, free) ↦
        let done = fallback-load true not_found generated priv s long free (λ e. refl) in
        let run = load_or_create_fallback coding keyring files true generated s in
        let all : load_or_create coding keyring files generated s ≡ run = ground (arith, free) in
        rw all (done (rw all at h))
    | inl (unavailable, locked) ↦
        let run = load_or_create_fallback coding keyring files false generated s in
        let done =
          fallback-load false unavailable generated priv s long locked (λ e. absurd (cc e)) in
        let all : load_or_create coding keyring files generated s
            ≡ wrap_fallback coding keyring files run =
          ground (arith, locked) in
        rw all (wrapped-load run priv done (rw all at h))
  ]

  joined-ok :
      (a : Result KeyringError (Unit {0})) (b : Result FileError (Unit {0}))
      → joined coding keyring files a b ≡ ok tt
      → ((a ≡ ok tt) ⊎ (a ≡ err not_found)) × ((b ≡ ok tt) ⊎ (b ≡ err missing))
  joined-ok (ok t) (ok u) h = (inl refl, inl refl)
  joined-ok (ok t) (err missing) h = (inl refl, inr refl)
  joined-ok (ok t) (err denied) h = absurd (cc h)
  joined-ok (err not_found) (ok u) h = (inr refl, inl refl)
  joined-ok (err not_found) (err missing) h = (inr refl, inr refl)
  joined-ok (err not_found) (err denied) h = absurd (cc h)
  joined-ok (err unavailable) (ok u) h = absurd (cc h)
  joined-ok (err unavailable) (err missing) h = absurd (cc h)
  joined-ok (err unavailable) (err denied) h = absurd (cc h)

  -- Deleting without an error leaves no identity.
  pub load-delete :
      (s : State keyring files)
      → (delete coding keyring files s).1 ≡ ok tt
      → load coding keyring files (delete coding keyring files s).0 ≡ err no_identity
  unfolding delete
  load-delete s h =
      let (forgotten, removed) =
        joined-ok (keyring.delete s.keychain).1 (files.remove (final identity_key) s.disk).1 h in
      (load-no_identity_iff (delete coding keyring files s).0).1 (
        keyring.delete_gone s.keychain forgotten,
        files.remove_gone (final identity_key) s.disk removed,
      )
