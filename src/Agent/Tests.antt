-- ===== src/Agent/Tests.antt =====
-- Headers, keys, commands and connections of a machine, and instances of the theorems about them.
use llm_hub.Agent.Base64.{encode, digit}
use llm_hub.Agent.Commands.{
  Text, Flags, EnrollRequest, EnrollResult, not_enrolled, request, run, enroll, ask, store_answer,
  save_config, uninstall, clear_deleted, clear_enrollment,
}
use llm_hub.Agent.Commands.Laws.{run-enroll, run-uninstall}
use llm_hub.Agent.Fresh.{fresh_header_accepted}
use llm_hub.Agent.Header.{auth_header}
use llm_hub.Agent.Identity.{
  no_identity, Key, no_identity, load, load_file, decode_key, load_or_create,
  load_or_create_fallback, mint_key, save_keychain, save_file, delete,
}
use llm_hub.Agent.Identity.Laws.{load_or_create_keeps, load-load_or_create}
use llm_hub.Agent.Machine.{State, write_file}
use llm_hub.Agent.Machine.Reference.{locked, held, chain, disk, coding, json}
use llm_hub.Agent.Reference.{toy, sealing, sealing-Agrees}
use llm_hub.Base.{◌≡◌, refl, none, some, List, [], ◌∷◌, ℕ, Memᴰ, arith, true, Option, length, inl}
use llm_hub.Base.Int.{pos, ◌+ℤ◌}
use llm_hub.Base.Text.{codes}
use llm_hub.Enrollment.{key_eq}
use llm_hub.Fixture.{repeated, fleet, node, settings, ascii, mac}
use llm_hub.NodeAuth.{authenticate_node}
use llm_hub.NodeAuth.Reference.{memory}
use llm_hub.Result.{ok, err}
use llm_hub.Sql.Reference.{lists}
use llm_hub.System.{here}
use llm_hub.System.WellFormed.{WellFormed}
use llm_hub.Uuid.{is_uuid, is_grouped, after_hex}

tables : WellFormed fleet
unfolding key_eq
tables = record {
  ids = (refl, tt);
  keys = (refl, tt);
  statuses = (refl, tt);
  places = (refl, (refl, tt));
  owners = (refl, (refl, tt));
  hashes = (refl, tt);
  code_ids = (refl, tt);
}

abbrev machine_id : List ℕ
machine_id = codes "0188f4f6-0000-4000-8000-00000000000a"

abbrev random : List ℕ
random = 1 ∷ 2 ∷ 3 ∷ 4 ∷ []

encode_test : encode (0xfb ∷ 0xff ∷ 0x00 ∷ 0x10 ∷ []) ≡ codes "-_8AEA"
unfolding encode digit
encode_test = refl

id_test : is_uuid machine_id ≡ true
unfolding is_uuid is_grouped after_hex
id_test = refl

fresh_header_accepted_example :
    (authenticate_node sealing lists settings memory
      (pos 130000)
      (pos 130001)
      (some (auth_header toy machine_id 7 (pos 100000) random))
      fleet
      []).1
    ≡ ok (record { node_id = machine_id; org_id = "acme" })
unfolding ◌+ℤ◌
fresh_header_accepted_example =
    fresh_header_accepted toy sealing lists settings sealing-Agrees machine_id 7 100000 random ascii
      mac memory (pos 130000) (pos 130001) [] node tables (Memᴰ.head refl) refl refl here id_test
      (omega arith) (omega arith) (omega arith) (omega arith) refl

abbrev key : Key
key = repeated 64 5

key_long : (k : Key) → ◌≡◌ {A = Option Key} (some key) (some k) → length k ≡ 64
key_long k e = let same : key ≡ k = cc e in rw (← same) refl

abbrev blank : State chain disk
blank = record { keychain = held none; disk = λ p. none }

abbrev keyed : State chain disk
keyed = record { keychain = held (some key); disk = λ p. none }

load_or_create_keeps_example : load_or_create coding chain disk none keyed ≡ (keyed, ok key)
unfolding load decode_key
load_or_create_keeps_example = load_or_create_keeps coding chain disk none keyed key refl

load-load_or_create_example :
    load coding chain disk (load_or_create coding chain disk (some key) blank).0 ≡ ok key
unfolding load_or_create load_or_create_fallback load_file mint_key save_keychain
load-load_or_create_example =
    load-load_or_create coding chain disk (some key) blank key key_long refl

-- A locked keychain that holds a key: enrolling makes another one, which the file then has.
locked_test :
    (load_or_create coding chain disk (some key) (record blank { keychain = locked })).1 ≡ ok key
unfolding load_or_create load_or_create_fallback load_file mint_key save_file write_file
locked_test = refl

abbrev flags : Flags
flags = record { code = codes "abcd-2345"; server = codes "http://hub"; name = [] }

abbrev answer : EnrollResult
answer = record { node_id = machine_id; org_id = codes "acme"; org_name = codes "Acme" }

abbrev hub : EnrollRequest → Option EnrollResult
hub r = some answer

abbrev public : Key → List ℕ
public k = k

run-enroll_example :
    (priv : Key) × (hostname : Text) × (◌≡◌ {A = Option Text} (some (codes "box")) (some hostname))
    × ((load_or_create coding chain disk (some key) blank).1 ≡ ok priv)
    × (hub (request json disk coding chain public hub (some (codes "box")) flags hostname priv)
        ≡ some answer)
    × (run json disk coding chain
          (enroll json disk coding chain public hub (some (codes "box")) flags (some key) blank).0
        ≡ ok (record { server_url = codes "http://hub"; node_id = machine_id; private_key = priv }))
unfolding enroll ask store_answer save_config write_file load_or_create load_or_create_fallback
    load_file mint_key save_keychain
run-enroll_example =
    run-enroll json disk coding chain public hub (some (codes "box")) flags (some key) blank answer
      key_long refl refl refl

run-uninstall_example :
    let after = (uninstall json disk coding chain true keyed).0 in
    (run json disk coding chain after ≡ err not_enrolled)
    × (load coding chain disk after ≡ err no_identity)
unfolding uninstall clear_deleted clear_enrollment delete
run-uninstall_example = run-uninstall json disk coding chain true keyed (inl refl)
