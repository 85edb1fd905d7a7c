-- ===== src/NodeAuth/Tests.antt =====
-- Headers of the fixture's node, and instances of the theorems about them.
use llm_hub.Base.{ℕ, ◌≡◌, ◌↔◌, refl, true, false, some, List, [], ◌++◌, arith}
use llm_hub.Base.Int.{pos, ◌+ℤ◌}
use llm_hub.Base.Text.{codes}
use llm_hub.Fixture.{settings, fleet}
use llm_hub.Result.{ok, err}
use llm_hub.Sql.Reference.{lists}
use llm_hub.Uuid.{is_uuid, is_grouped, after_hex}
use llm_hub.NodeAuth.{
  Fields, NodeIdentity, node_auth_scheme, strip, split, fields_of, parse_header, nonce_key,
  check_node_id, check_time, find_node, check_signature, verify_header, authenticate_node, replayed,
}
use llm_hub.NodeAuth.Accept.{Evidence, authenticate_node_lem}
use llm_hub.NodeAuth.Header.{AreFields, dotted, parse_header_iff}
use llm_hub.NodeAuth.Reference.{memory, plain, same_bytes}
use llm_hub.NodeAuth.Replay.{Request, answer, serve, authenticate_node_once}

abbrev fields : Fields
fields = record {
  node_id = codes "0188f4f6-0000-4000-8000-00000000000A";
  millis = codes "100000";
  nonce = codes "n";
  signature = codes "sssssssssssssssssssssssssssssssssssssssssssss";
}

abbrev header : List ℕ
header =
    codes
      "ModelHubNode 0188f4f6-0000-4000-8000-00000000000A.100000.n.sssssssssssssssssssssssssssssssssssssssssssss"

abbrev box : NodeIdentity
box = record { node_id = fields.node_id; org_id = "acme" }

abbrev first : Request
first = record { now = pos 100000; stored = pos 100001; header = some header; db = fleet }

abbrev second : Request
second = record { now = pos 150000; stored = pos 150001; header = some header; db = fleet }

parse_test : parse_header (some header) ≡ ok fields
unfolding parse_header strip split fields_of
parse_test = refl

accept_test : (answer plain lists settings memory first []).1 ≡ ok box
unfolding authenticate_node verify_header parse_header strip split fields_of check_node_id is_uuid
    is_grouped after_hex check_time find_node check_signature ◌+ℤ◌
accept_test = refl

parse_header_iff_example :
    (parse_header (some header) ≡ ok fields)
    ↔ ((header ≡ node_auth_scheme ++ dotted fields) × AreFields fields)
parse_header_iff_example = parse_header_iff header fields

authenticate_node_lem_example :
    (f : Fields) × Evidence plain settings (pos 100000) (some header) fleet f box
    × (memory.holds (nonce_key f) (pos 100001) [] ≡ false)
    × ((memory.set_nx (pos 100001) (nonce_key f) 120000 []).1 ≡ true)
    × ((answer plain lists settings memory first []).0
        ≡ (memory.set_nx (pos 100001) (nonce_key f) 120000 []).0)
authenticate_node_lem_example =
    authenticate_node_lem plain lists settings memory (pos 100000) (pos 100001) (some header) fleet
      [] box accept_test

replay_test :
    (answer plain lists settings memory second (answer plain lists settings memory first []).0).1
    ≡ err replayed
unfolding authenticate_node verify_header parse_header strip split fields_of check_node_id is_uuid
    is_grouped after_hex check_time find_node check_signature ◌+ℤ◌ same_bytes
replay_test = refl

authenticate_node_once_example : ¬ (
    (answer plain lists settings memory second
      (serve plain lists settings memory [] (answer plain lists settings memory first []).0)).1
    ≡ ok box)
unfolding ◌+ℤ◌
authenticate_node_once_example =
    authenticate_node_once plain lists settings memory first second [] [] box box fields fields
      (omega arith) parse_test parse_test refl refl refl (omega arith) accept_test

-- A header dated the whole window ahead is taken twice, if the second call is slower than the first
-- between its check of the time and its SET.
abbrev early : Request
early = record first { now = pos 40000; stored = pos 40001 }

abbrev slow : Request
slow = record first { now = pos 160000; stored = pos 160002 }

slow_replay_test :
    ((answer plain lists settings memory early []).1 ≡ ok box)
    × ((answer plain lists settings memory slow (answer plain lists settings memory early []).0).1
        ≡ ok box)
unfolding authenticate_node verify_header parse_header strip split fields_of check_node_id is_uuid
    is_grouped after_hex check_time find_node check_signature ◌+ℤ◌ same_bytes
slow_replay_test = (refl, refl)
