-- ===== src/NodeService/Tests.antt =====
-- Streams of the fixture's node, and instances of the theorems.
use llm_hub.Base.{◌≡◌, refl, eq_iff, none, some, [], ◌∷◌}
use llm_hub.Base.Int.{pos, ◌+ℤ◌}
use llm_hub.Fixture.{settings, fleet, messages, header, who}
use llm_hub.NodeAuth.{
  missing_header, message, strip, split, fields_of, parse_header, check_node_id, check_time,
  find_node, check_signature, verify_header, authenticate_node,
}
use llm_hub.NodeAuth.Reference.{memory, plain}
use llm_hub.Result.{ok, err}
use llm_hub.Rpc.{connect_error, unauthenticated}
use llm_hub.Sql.Reference.{lists}
use llm_hub.Tenancy.{SameOrg}
use llm_hub.Uuid.{is_uuid, is_grouped, after_hex}
use llm_hub.NodeService.{connect}
use llm_hub.Proto.{hello_ack}
use llm_hub.NodeService.Stream.{connect_unauthenticated, connect-SameOrg}

no_header_test :
    (authenticate_node plain lists settings memory (pos 100000) (pos 100001) none fleet []).1
    ≡ err missing_header
unfolding authenticate_node verify_header parse_header
no_header_test = refl

connect_unauthenticated_example :
    let outcome =
      connect plain lists settings memory (pos 100000) (pos 100001) none messages fleet [] in
    (outcome.result ≡ err (connect_error unauthenticated (message missing_header)))
    × (outcome.db ≡ fleet)
    × (outcome.sent ≡ [])
    × (outcome.store ≡ [])
connect_unauthenticated_example =
    connect_unauthenticated plain lists settings memory (pos 100000) (pos 100001) none messages
      fleet [] missing_header no_header_test

header_test :
    (authenticate_node plain lists settings memory
      (pos 100000)
      (pos 100001)
      (some header)
      fleet
      []).1
    ≡ ok who
unfolding authenticate_node verify_header parse_header strip split fields_of check_node_id is_uuid
    is_grouped after_hex check_time find_node check_signature ◌+ℤ◌
header_test = refl

connect-SameOrg_example :
    let outcome =
      connect plain lists settings memory
        (pos 100000)
        (pos 100001)
        (some header)
        messages
        fleet
        [] in
    (outcome.sent ≡ hello_ack (record { node_id = who.node_id; sample_interval_ms = 5000 }) ∷ [])
    × SameOrg "globex" outcome.db fleet
connect-SameOrg_example =
    connect-SameOrg plain lists settings memory (pos 100000) (pos 100001) (some header) messages
      fleet [] who "globex" header_test (λ e. cc ((eq_iff "globex" "acme").1 e))
