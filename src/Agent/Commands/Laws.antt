-- ===== src/Agent/Commands/Laws.antt =====
-- agent/cmd/agent/main.go: the commands one after the other.
use llm_hub.Agent.Commands.{
  Text, Config, no_config, enrolled, Json, EnrollResult, EnrollRequest, Flags, CommandError,
  not_enrolled, service_left, not_removed, not_cleared, load_config, save_config, clear_enrollment,
  load_enrolled, run, config_of, request, store_answer, ask, enroll, clear_deleted, both, uninstall,
}
use llm_hub.Agent.Identity.{no_identity, Key, load_file, load, load_or_create, delete}
use llm_hub.Agent.Identity.Laws.{load-load_or_create, load_or_create_keeps, load-delete}
use llm_hub.Agent.Machine.{
  Keyring, Files, missing, denied, identity_key, config_json, final, Coding, State, write_file,
}
use llm_hub.Agent.Machine.Laws.{write_file_lem, write_file_kept}
use llm_hub.Base.{
  ℕ, ◌≡◌, refl, ◌∙◌, ap, Bool, true, false, ◌⊎◌, Option, some, List, length, arith, Option-cases,
  inl, inr,
}
use llm_hub.NodeAuth.{is_empty}
use llm_hub.Result.{Result, ok, err, Result-cases}

module _ (json : Json) (files : Files) (coding : Coding) (keyring : Keyring) where
  -- What is loaded stands in the keychain and in the one file.
  load_same :
      (a b : State keyring files)
      → a.keychain ≡ b.keychain
      → files.read (final identity_key) a.disk ≡ files.read (final identity_key) b.disk
      → load coding keyring files a ≡ load coding keyring files b
  unfolding load load_file
  load_same a b keychain file =
      let one : load_file coding files a.disk ≡ load_file coding files b.disk =
        ground (arith, file) in
      ground (arith, keychain, one)

  -- A config that says enrolled starts with the key that is loaded.
  run_lem :
      (s : State keyring files) (c : Config) (priv : Key)
      → files.read (final config_json) s.disk ≡ ok (json.marshal c)
      → enrolled c ≡ true
      → load coding keyring files s ≡ ok priv
      → run json files coding keyring s
        ≡ ok (record { server_url = c.server_url; node_id = c.node_id; private_key = priv })
  unfolding run load_enrolled load_config
  run_lem s c priv stored set loaded = ground (arith, stored, json.unmarshal-marshal c, set, loaded)

  module _ (public : Key → List ℕ) (control_plane : EnrollRequest → Option EnrollResult)
      (host : Option Text) (flags : Flags) (generated : Option Key) (s : State keyring files) where
    abbrev pub enrolling : State keyring files × Result CommandError EnrollResult
    enrolling = enroll json files coding keyring public control_plane host flags generated s

    -- The key and the host that an answered enrollment went out with.
    pub enroll-eq-ok :
        (result : EnrollResult)
        → enrolling.1 ≡ ok result
        → let first = load_or_create coding keyring files generated s in
          (priv : Key) × (hostname : Text) × (host ≡ some hostname)
          × (first.1 ≡ ok priv)
          × (control_plane
                (request json files coding keyring public control_plane host flags hostname priv)
              ≡ some result)
          × (enrolling
              ≡ store_answer json files coding keyring public control_plane host flags hostname
                  (some result)
                  first.0)
    unfolding enroll ask store_answer
    enroll-eq-ok result h =
        let first = load_or_create coding keyring files generated s in
        elim (Result-cases first.1) [
          | inl (e, bad) ↦ absurd (ground (arith, bad, h))
          | inr (priv, good) ↦ elim (Option-cases host) [
            | inl unread ↦ absurd (ground (arith, good, unread, h))
            | inr (hostname, named) ↦
                let sent =
                  request json files coding keyring public control_plane host flags hostname priv in
                elim (Option-cases (control_plane sent)) [
                  | inl refused ↦ absurd (ground (arith, good, named, refused, h))
                  | inr (answer, given) ↦
                      let c =
                        config_of json files coding keyring public control_plane host flags hostname
                          answer in
                      elim (Result-cases (save_config json files c first.0.disk).1) [
                        | inl (e, bad) ↦ absurd (ground (arith, good, named, given, bad, h))
                        | inr (t, fine) ↦
                            let same : answer ≡ result =
                              ground (arith, good, named, given, fine, h) in
                            let all : enrolling
                                ≡ store_answer json files coding keyring public control_plane host
                                    flags hostname (some result) first.0 =
                              ground (arith, good, named, given, same) in
                            (priv, hostname, named, good, given ∙ ap some same, all)
                      ]
                ]
          ]
        ]

    -- After a successful enrollment, running the agent starts a session with the server that was
    -- given, the node id that the control plane answered, and the key whose public half was sent
    -- to it. Hypotheses: a generated key has 64 bytes, and neither the server nor the node id is
    -- empty.
    pub run-enroll :
        (result : EnrollResult)
        → ((k : Key) → generated ≡ some k → length k ≡ 64)
        → is_empty flags.server ≡ false
        → is_empty result.node_id ≡ false
        → enrolling.1 ≡ ok result
        → (priv : Key) × (hostname : Text) × (host ≡ some hostname)
          × ((load_or_create coding keyring files generated s).1 ≡ ok priv)
          × (control_plane
                (request json files coding keyring public control_plane host flags hostname priv)
              ≡ some result)
          × (run json files coding keyring enrolling.0
              ≡ ok (record {
                server_url = flags.server;
                node_id = result.node_id;
                private_key = priv;
              }))
    unfolding enrolled store_answer save_config
    run-enroll result long served named h =
        let first = load_or_create coding keyring files generated s in
        let (priv, hostname, read, loaded, given, all) = enroll-eq-ok result h in
        let c =
          config_of json files coding keyring public control_plane host flags hostname result in
        let wrote = write_file files config_json (json.marshal c) first.0.disk in
        let last : State keyring files = record first.0 { disk = wrote.0 } in
        elim (write_file_lem files config_json (json.marshal c) first.0.disk) [
          | inr (e, bad, stored) ↦ absurd (ground (arith, rw all at h, bad))
          | inl (good, stored) ↦
              let at : enrolling.0 ≡ last = ground (arith, all, good) in
              let before = load-load_or_create coding keyring files generated s priv long loaded in
              let kept =
                write_file_kept files config_json (json.marshal c) first.0.disk identity_key refl in
              let after = load_same last first.0 refl kept ∙ before in
              let set : enrolled c ≡ true = ground (arith, served, named) in
              (priv, hostname, read, loaded, given, rw at (run_lem last c priv stored set after))
        ]

    -- Whatever became of an enrollment, its key stays: the next one goes out with the same key.
    pub enroll_again :
        (priv : Key)
        → ((k : Key) → generated ≡ some k → length k ≡ 64)
        → (load_or_create coding keyring files generated s).1 ≡ ok priv
        → (other : Option Key)
        → let after = enrolling.0 in
          load_or_create coding keyring files other after ≡ (after, ok priv)
    unfolding enroll ask store_answer save_config
    enroll_again priv long loaded other =
        let first = load_or_create coding keyring files generated s in
        let before = load-load_or_create coding keyring files generated s priv long loaded in
        load_or_create_keeps coding keyring files other enrolling.0 priv (elim (Option-cases host) [
          | inl unread ↦
              let at : enrolling.0 ≡ first.0 = ground (arith, loaded, unread) in rw at before
          | inr (hostname, named) ↦
              let sent =
                request json files coding keyring public control_plane host flags hostname priv in
              elim (Option-cases (control_plane sent)) [
                | inl refused ↦
                    let at : enrolling.0 ≡ first.0 = ground (arith, loaded, named, refused) in
                    rw at before
                | inr (answer, given) ↦
                    let c =
                      config_of json files coding keyring public control_plane host flags hostname
                        answer in
                    let wrote = write_file files config_json (json.marshal c) first.0.disk in
                    let last : State keyring files = record first.0 { disk = wrote.0 } in
                    let kept =
                      write_file_kept files config_json (json.marshal c) first.0.disk identity_key
                        refl in
                    let at : enrolling.0 ≡ last = elim (Result-cases wrote.1) [
                      | inl (e, bad) ↦ ground (arith, loaded, named, given, bad)
                      | inr (t, fine) ↦ ground (arith, loaded, named, given, fine)
                    ] in
                    rw at (load_same last first.0 refl kept ∙ before)
              ]
        ])

  cleared-not_enrolled :
      (disk : files.Store)
      → (clear_enrollment json files disk).1 ≡ ok tt
      → (load_enrolled json files (clear_enrollment json files disk).0 ≡ err not_enrolled)
        × (files.read (final identity_key) (clear_enrollment json files disk).0
            ≡ files.read (final identity_key) disk)
  unfolding clear_enrollment load_enrolled load_config save_config enrolled
  cleared-not_enrolled disk h =
      let text = json.marshal no_config in
      elim (Result-cases (files.stat (final config_json) disk)) [
        | inl (missing, gone) ↦
            let none = (files.stat_missing (final config_json) disk).0 gone in
            let at : clear_enrollment json files disk ≡ (disk, ok tt) = ground (arith, gone) in
            rw at (ground (arith, none), refl)
        | inl (denied, bad) ↦ absurd (ground (arith, bad, h))
        | inr (t, there) ↦
            let wrote = write_file files config_json text disk in
            let at : clear_enrollment json files disk ≡ wrote = ground (arith, there) in
            elim (write_file_lem files config_json text disk) [
              | inr (e, bad, stored) ↦ absurd (ground (arith, at, bad, h))
              | inl (good, stored) ↦ rw at (
                ground (arith, stored, json.unmarshal-marshal no_config),
                write_file_kept files config_json text disk identity_key refl,
              )
            ]
      ]

  both-done :
      (b : Bool) (e : CommandError)
      → ((both json files coding keyring b (err e) ≡ ok tt)
          ⊎ (both json files coding keyring b (err e) ≡ err service_left))
      → e ≡ service_left
  both-done true e (inl h) = absurd (cc h)
  both-done true e (inr h) = ground (arith, h)
  both-done false e (inl h) = absurd (cc h)
  both-done false e (inr h) = absurd (cc h)

  -- After an uninstall that succeeds, or that fails only to remove the service, the agent is not
  -- enrolled any more and has no identity left, in the keychain or on disk.
  pub run-uninstall :
      (service_removed : Bool) (s : State keyring files)
      → let (after, outcome) = uninstall json files coding keyring service_removed s in
        ((outcome ≡ ok tt) ⊎ (outcome ≡ err service_left))
        → (run json files coding keyring after ≡ err not_enrolled)
          × (load coding keyring files after ≡ err no_identity)
  unfolding uninstall clear_deleted run
  run-uninstall service_removed s h =
      let deleted = delete coding keyring files s in
      let cleared = clear_enrollment json files deleted.0.disk in
      let last : State keyring files = record deleted.0 { disk = cleared.0 } in
      let outcome = clear_deleted json files coding keyring deleted in
      elim (Result-cases deleted.1) [
        | inl (e, bad) ↦
            let failed : outcome.1 ≡ err (not_removed e) = ground (arith, bad) in
            absurd (cc (both-done service_removed (not_removed e) (rw failed at h)))
        | inr (t, good) ↦ elim (Result-cases cleared.1) [
          | inl (e, bad) ↦
              let failed : outcome.1 ≡ err not_cleared = ground (arith, good, bad) in
              absurd (cc (both-done service_removed not_cleared (rw failed at h)))
          | inr (u, fine) ↦
              let at : outcome.0 ≡ last = ground (arith, good) in
              let (off, kept) = cleared-not_enrolled deleted.0.disk fine in
              let gone = load-delete coding keyring files s good in
              rw at (rw (off, run) refl, load_same last deleted.0 refl kept ∙ gone)
        ]
      ]
