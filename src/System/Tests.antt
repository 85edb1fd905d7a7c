-- ===== src/System/Tests.antt =====
-- The fixture's tables, and instances of the theorems on runs of the control plane.
use llm_hub.Base.{Memᴰ, arith, ℕ, true, All, ◌≤◌, ◌≡◌, refl, some, [], ◌∷◌}
use llm_hub.Base.Int.{pos, ◌+ℤ◌}
use llm_hub.Base.Text.{codes}
use llm_hub.Pairing.{mint_pairing_code, generate_code, pick, hash_code, normalize}
use llm_hub.Enrollment.{EnrollInput, key_eq, enroll_node}
use llm_hub.Fixture.{
  ann, service, node, settings, ascii, mac, fleet, gpu, box, typed, bytes, messages, header, who,
}
use llm_hub.Inventory.{record_inventory}
use llm_hub.NodeAuth.{
  strip, split, fields_of, parse_header, check_node_id, check_time, find_node, check_signature,
  verify_header, authenticate_node,
}
use llm_hub.NodeAuth.Reference.{memory, plain}
use llm_hub.NodeService.{connect}
use llm_hub.Proto.{CreatePairingCodeResponse, EnrollResponse}
use llm_hub.Result.{ok}
use llm_hub.Schema.{NodeRow, Db}
use llm_hub.Storable.{refuses_device, refuses_sample, refuses_host, refuses_node}
use llm_hub.Wire.{kind_name, host_columns}
use llm_hub.NodeService.{is_refused}
use llm_hub.Inventory.{known_devices}
use llm_hub.Sql.Reference.{lists}
use llm_hub.Sweeper.{tick, sweep_offline_nodes}
use llm_hub.Uuid.{is_uuid, is_grouped, after_hex}
use llm_hub.System.{Steps, pass_offline}
use llm_hub.System.WellFormed.{WellFormed}
use llm_hub.System.Invariant.{Steps-WellFormed}
use llm_hub.System.Lasting.{are_silent}
use llm_hub.System.Silence.{IsOffline, silent_node_deadline}
use llm_hub.FleetService.{session, create_pairing_code}
use llm_hub.Session.{require_session, find_organization, self_heal_organization, with_organization}
use llm_hub.System.Onboarding.{created_code_enrolls}
use llm_hub.System.Runs.{report_stored, sweep-Steps, connect-Steps}

fleet-WellFormed : WellFormed fleet
unfolding key_eq
fleet-WellFormed = record {
  ids = (refl, tt);
  keys = (refl, tt);
  statuses = (refl, tt);
  places = (refl, (refl, tt));
  owners = (refl, (refl, tt));
  hashes = (refl, tt);
  code_ids = (refl, tt);
}

Steps-WellFormed_example : WellFormed (sweep_offline_nodes lists settings (pos 100000) fleet).0
Steps-WellFormed_example =
    Steps-WellFormed ascii mac lists settings
      (sweep-Steps ascii mac lists settings (pos 100000) fleet) fleet-WellFormed

report_stored_example :
    let db = (sweep_offline_nodes lists settings (pos 100000) fleet).0 in
    (db' : Db) × (record_inventory lists "acme" "n1" (λ i. "new") (gpu ∷ []) db ≡ ok db')
unfolding known_devices kind_name refuses_device
report_stored_example =
    report_stored ascii mac lists settings "acme" "n1" fleet
      (sweep_offline_nodes lists settings (pos 100000) fleet).0 (λ i. "new") (gpu ∷ [])
      fleet-WellFormed refl (sweep-Steps ascii mac lists settings (pos 100000) fleet) refl

abbrev machine : EnrollInput
machine = record { pairing_code = typed; public_key = bytes 9; node_name = ""; host = box }

connect-Steps_example :
    let outcome =
      connect plain lists settings memory
        (pos 100000)
        (pos 100001)
        (some header)
        messages
        fleet
        [] in
    Steps ascii mac lists settings fleet outcome.db × (outcome.result ≡ ok tt)
unfolding authenticate_node verify_header parse_header strip split fields_of check_node_id is_uuid
    is_grouped after_hex check_time find_node check_signature ◌+ℤ◌ is_refused known_devices
    kind_name refuses_device refuses_sample refuses_host host_columns
connect-Steps_example =
    connect-Steps ascii mac lists settings plain memory (pos 100000) (pos 100001) (some header)
      messages fleet [] who fleet-WellFormed refl

-- The node was last heard of at 100 seconds, when the sweeper started.
abbrev heard : Db
heard = record fleet {
  nodes = record node { status = "online"; last_seen_at = some (pos 100000) } ∷ [];
}

silent_node_deadline_example :
    (k : ℕ) × (tick 100000 5000 k ≤ 135000)
    × ((b c : Db) (before : Steps ascii mac lists settings heard b)
          (after : Steps ascii mac lists settings
            (pass_offline ascii mac lists settings (pos (tick 100000 5000 k)) b)
            c)
        → are_silent ascii mac lists settings "n1" before ≡ true
        → are_silent ascii mac lists settings "n1" after ≡ true
        → All (IsOffline ascii mac lists settings "n1") c.nodes)
silent_node_deadline_example =
    silent_node_deadline ascii mac lists settings "n1" "acme" 100000 100000 5000 (omega arith)
      (omega arith) refl (λ it. refl, tt)

abbrev draws : ℕ → ℕ
draws k = 31

abbrev unpaired : Db
unpaired = record fleet { pairing_codes = [] }

abbrev response : CreatePairingCodeResponse
response = record { code = codes "9999-9999"; expires_at_unix_ms = pos 900000 }

create_test :
    (create_pairing_code ascii mac lists settings service draws "p2" (pos 0) 1 "lab" unpaired).1
    ≡ ok response
unfolding create_pairing_code session require_session find_organization self_heal_organization
    with_organization mint_pairing_code generate_code pick hash_code normalize ◌+ℤ◌
create_test = refl

created_code_enrolls_example :
    let created =
      create_pairing_code ascii mac lists settings service draws "p2" (pos 0) 1 "lab" unpaired in
    let run =
      enroll_node ascii mac lists settings (λ d. d) (pos 1000) (pos 1001) "n2" machine created.0 in
    (n : NodeRow) × Memᴰ n run.0.nodes
    × (n.id ≡ "n2")
    × (n.org_id ≡ "acme")
    × (n.public_key ≡ bytes 9)
    × (answer : EnrollResponse) × (run.1 ≡ ok answer)
    × (answer.node_id ≡ "n2")
    × (answer.org_id ≡ "acme")
unfolding session require_session find_organization self_heal_organization with_organization
    hash_code normalize key_eq refuses_node refuses_host create_pairing_code mint_pairing_code
created_code_enrolls_example =
    created_code_enrolls ascii mac lists settings service (λ d. d) (λ d. d) draws "p2" (pos 0) 1
      "lab" unpaired (pos 1000) (pos 1001) "n2" machine ann response refl create_test refl refl
      (omega arith) refl refl (λ d h. h) refl refl refl
