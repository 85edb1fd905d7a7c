-- ===== src/Agent/JoinedTests.antt =====
-- A machine that enrolls and connects, and an instance of the theorem about it.
use llm_hub.Agent.Commands.{
  Flags, EnrollRequest, EnrollResult, Started, run, enroll, ask, store_answer, save_config,
}
use llm_hub.Agent.Fresh.{Agrees}
use llm_hub.Agent.Header.{auth_header}
use llm_hub.Agent.Identity.{
  Key, load_or_create, load_or_create_fallback, load_file, mint_key, save_keychain,
}
use llm_hub.Agent.Joined.{Call, enrollment, joining, sent_by, enrolled_agent_accepted}
use llm_hub.Agent.Machine.{State, write_file}
use llm_hub.Agent.Machine.Reference.{held, chain, disk, coding, json}
use llm_hub.Agent.Reference.{toy, sealing, sealing-Agrees}
use llm_hub.Base.{◌≡◌, refl, String, Option, none, some, [], ◌∷◌, ℕ, arith, length, true}
use llm_hub.Base.Int.{pos, ◌+ℤ◌}
use llm_hub.Base.Text.{codes}
use llm_hub.Enrollment.{key_eq, enroll_node, after_redeem, insert_node}
use llm_hub.Fixture.{repeated, box, typed, fleet, settings, ascii, mac}
use llm_hub.NodeAuth.{Platform, authenticate_node}
use llm_hub.NodeAuth.Reference.{memory}
use llm_hub.Pairing.{redeem_pairing_code, settle, hash_code, normalize}
use llm_hub.Proto.{EnrollResponse}
use llm_hub.Result.{ok}
use llm_hub.Storable.{refuses_node, refuses_host}
use llm_hub.Sql.Reference.{lists}
use llm_hub.System.{here}
use llm_hub.System.WellFormed.{WellFormed}
use llm_hub.Uuid.{is_uuid, is_grouped, after_hex}

abbrev new_id : String
new_id = "0188f4f6-0000-4000-8000-00000000000b"

-- Every uuid is that of the new node.
abbrev reading : Platform
reading = record sealing { uuid_in = λ text. new_id }

reading-Agrees : Agrees toy reading
reading-Agrees = record {
  decoded = sealing-Agrees.decoded;
  same_bytes = sealing-Agrees.same_bytes;
  verified = sealing-Agrees.verified;
  dated = sealing-Agrees.dated;
}

abbrev call : Call
call = record { others = λ d. d; claimed = pos 1000; checked = pos 1001; id = new_id; db = fleet }

abbrev key : Key
key = repeated 64 5

key_long : (k : Key) → ◌≡◌ {A = Option Key} (some key) (some k) → length k ≡ 64
key_long k e = let same : key ≡ k = cc e in rw (← same) refl

abbrev number_of : Key → ℕ
number_of k = 9

abbrev blank : State chain disk
blank = record { keychain = held none; disk = λ p. none }

abbrev flags : Flags
flags = record { code = typed; server = codes "http://hub"; name = [] }

abbrev answer : EnrollResponse
answer = record { node_id = new_id; org_id = "acme"; org_name = "Acme" }

abbrev result : EnrollResult
result = record { node_id = codes new_id; org_id = codes "acme"; org_name = codes "Acme" }

accept_test :
    (enrollment ascii mac lists settings call box
      (λ t. "")
      (sent_by ascii mac lists settings call box
        (λ t. "")
        toy
        reading
        memory
        reading-Agrees
        json
        disk
        coding
        chain
        number_of
        (codes "box")
        flags
        (some key)
        blank
        key)).1
    ≡ ok answer
unfolding enroll_node key_eq redeem_pairing_code hash_code normalize settle after_redeem insert_node
    refuses_node refuses_host
accept_test = refl

abbrev sent : EnrollRequest
sent =
    sent_by ascii mac lists settings call box (λ t. "") toy reading memory reading-Agrees json disk
      coding chain number_of (codes "box") flags (some key) blank key

joined_test :
    (joining ascii mac lists settings call box
      (λ t. "")
      toy
      reading
      memory
      reading-Agrees
      json
      disk
      coding
      chain
      number_of
      (codes "box")
      flags
      (some key)
      blank).1
    ≡ ok result
unfolding enroll ask store_answer save_config write_file load_or_create load_or_create_fallback
    load_file mint_key save_keychain enroll_node key_eq redeem_pairing_code hash_code normalize
    settle after_redeem insert_node refuses_node refuses_host
joined_test = refl

id_test : is_uuid (codes new_id) ≡ true
unfolding is_uuid is_grouped after_hex
id_test = refl

tables : WellFormed fleet
unfolding key_eq
tables = record {
  ids = (refl, tt);
  keys = (refl, tt);
  statuses = (refl, tt);
  places = (refl, (refl, tt));
  owners = (refl, (refl, tt));
  hashes = (refl, tt);
  code_ids = (refl, tt);
}

enrolled_agent_accepted_example :
    (started : Started) × (run json disk coding chain
        (joining ascii mac lists settings call box
          (λ t. "")
          toy
          reading
          memory
          reading-Agrees
          json
          disk
          coding
          chain
          number_of
          (codes "box")
          flags
          (some key)
          blank).0
      ≡ ok started)
    × ((authenticate_node reading lists settings memory
          (pos 130000)
          (pos 130001)
          (some (
            auth_header toy started.node_id
              (number_of started.private_key)
              (pos 100000)
              (1 ∷ 2 ∷ 3 ∷ [])))
          (enrollment ascii mac lists settings call box (λ t. "") sent).0
          []).1
        ≡ ok (record { node_id = started.node_id; org_id = "acme" }))
unfolding load_or_create load_or_create_fallback load_file mint_key save_keychain
    redeem_pairing_code hash_code normalize settle ◌+ℤ◌
enrolled_agent_accepted_example =
    enrolled_agent_accepted ascii mac lists settings call box (λ t. "") toy reading memory
      reading-Agrees json disk coding chain number_of (codes "box") flags (some key) blank key
      answer result 100000 (1 ∷ 2 ∷ 3 ∷ []) (pos 130000) (pos 130001) [] key_long refl refl
      joined_test accept_test id_test refl tables (λ d. here) refl here (omega arith) (omega arith)
      (omega arith) (omega arith) refl
