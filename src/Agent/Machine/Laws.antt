-- ===== src/Agent/Machine/Laws.antt =====
-- agent/internal/config/config.go, `writeFile`: what is read after it.
use llm_hub.Base.{ℕ, ◌≡◌, refl, ◌∙◌, true, false, List, ◌⊎◌, inl, inr}
use llm_hub.Result.{ok, err, Result-cases}
use llm_hub.Agent.Machine.{Files, FileName, final, temporary, FileError, same_name, write_file}

same_name_refl : (a : FileName) → same_name a a ≡ true
same_name_refl FileName.identity_key = refl
same_name_refl FileName.config_json = refl

module _ (files : Files) (name : FileName) (text : List ℕ) (s : files.Store) where
  abbrev made : files.Store
  made = (files.mkdir_all s).0

  abbrev written : files.Store
  written = (files.write (temporary name) text made).0

  -- Whatever fails on the way, the other files are as before.
  pub write_file_kept :
      (other : FileName)
      → same_name name other ≡ false
      → files.read (final other) (write_file files name text s).0 ≡ files.read (final other) s
  unfolding write_file
  write_file_kept other apart =
      let first = files.mkdir_all_kept (final other) s in
      let second = files.write_kept (temporary name) (final other) text made refl in
      let third =
        files.rename_kept (temporary name) (final name) (final other) written refl apart in
      elim (Result-cases (files.mkdir_all s).1) [
        | inl (e, bad) ↦ rw (bad, write_file) first
        | inr (t, good) ↦ elim (Result-cases (files.write (temporary name) text made).1) [
          | inl (e, bad) ↦ rw (good, bad, write_file) (second ∙ first)
          | inr (u, fine) ↦ rw (good, fine, write_file) (third ∙ second ∙ first)
        ]
      ]

  -- What it wrote is read back when it succeeds, and what was there before when it fails.
  pub write_file_lem :
      (((write_file files name text s).1 ≡ ok tt)
        × (files.read (final name) (write_file files name text s).0 ≡ ok text))
      ⊎ ((e : FileError) × ((write_file files name text s).1 ≡ err e)
          × (files.read (final name) (write_file files name text s).0 ≡ files.read (final name) s))
  unfolding write_file
  write_file_lem =
      let first = files.mkdir_all_kept (final name) s in
      let second = files.write_kept (temporary name) (final name) text made refl in
      elim (Result-cases (files.mkdir_all s).1) [
        | inl (e, bad) ↦ rw (bad, write_file) (inr (e, refl, first))
        | inr (t, good) ↦ elim (Result-cases (files.write (temporary name) text made).1) [
          | inl (e, bad) ↦ rw (good, bad, write_file) (inr (e, refl, second ∙ first))
          | inr (u, fine) ↦
              let stored = files.write_ok (temporary name) text made fine in
              elim (Result-cases (files.rename (temporary name) (final name) written).1) [
                | inl (e, bad) ↦
                    let kept =
                      files.rename_failed (temporary name) (final name) (final name) written e
                        bad in
                    rw (good, fine, write_file) (inr (e, bad, kept ∙ second ∙ first))
                | inr (v, moved) ↦
                    let kept = files.rename_ok (temporary name) (final name) written moved in
                    rw (good, fine, write_file) (inl (moved, kept ∙ stored))
              ]
        ]
      ]
