-- ===== src/Enrollment.antt =====
-- apps/control-plane/src/domain/nodes.ts, `enrollNode`: a pairing code and a public key become a
-- node. What other sessions commit between the redemption and the insert is the argument `others`;
-- the organization is not deleted in between.
pub mod Keys
pub mod Laws
pub mod Joined
mod Tests
use llm_hub.Base.{
  ℕ, String, ◌==◌, Bool, true, false, ◌&&◌, Option, none, some, List, [], ◌∷◌, length, eqb,
  if◌then◌else◌,
}
use llm_hub.Base.Int.{ℤ}
use llm_hub.Env.{Env}
use llm_hub.Proto.{EnrollResponse}
use llm_hub.Result.{Result, ok, err}
use llm_hub.Schema.{HostColumns, NodeRow, Organization, Db}
use llm_hub.Sql.{Sql}
use llm_hub.Storable.{refuses_node}
use llm_hub.Tenancy.{DbError, bad_value}
use llm_hub.Pairing
use llm_hub.Pairing.{Unicode, Hmac, PairingError, Redeemed, redeem_pairing_code}

pub data EnrollError : Type 0 where
  bad_key already_enrolled : EnrollError
  pairing : PairingError → EnrollError
  -- Another error than the unique violation, which is thrown again.
  database : DbError → EnrollError

-- The text of an EnrollmentError or a PairingCodeError; a database error is neither.
abbrev pub message : EnrollError → Option String
message bad_key = some "public key must be a 32-byte Ed25519 key"
message already_enrolled = some "this key is already enrolled; re-install to get a new identity"
message (pairing e) = some (Pairing.message e)
message (database e) = none

pub record EnrollInput : Type 0 where
  pub pairing_code : List ℕ
  pub public_key : List ℕ
  pub node_name : String
  pub host : HostColumns

-- Equality of byte strings.
unfoldable pub key_eq : List ℕ → List ℕ → Bool
key_eq [] [] = true
key_eq (a ∷ xs) (b ∷ ys) = eqb a b && key_eq xs ys
key_eq _ _ = false

abbrev pub has_key : List ℕ → NodeRow → Bool
has_key key n = key_eq n.public_key key

-- `a || b` on strings
infixr 30 ◌or◌
abbrev pub ◌or◌ : String → String → String
a or b = if a == "" then b else a

abbrev pub new_node : String → EnrollInput → Redeemed → NodeRow
new_node id input claim = record {
  id = id;
  org_id = claim.org_id;
  name = input.node_name or claim.node_name or input.host.hostname or "node";
  status = "offline";
  host = input.host;
  public_key = input.public_key;
  last_seen_at = none;
}

abbrev name_or_empty : Option Organization → String
name_or_empty none = ""
name_or_empty (some org) = org.name

module _ (unicode : Unicode) (hmac : Hmac) (sql : Sql) (env : Env) where
  -- The insert, with the violation of the unique index on public_key caught; `id` is the
  -- database's choice. Then the name of the organization, for the answer.
  unfoldable pub insert_node :
      String → EnrollInput → Redeemed → Db → Db × Result EnrollError EnrollResponse
  insert_node id input claim db =
      if refuses_node (new_node id input claim)
      then (db, err (database bad_value))
      else elim (sql.insert (has_key input.public_key) (new_node id input claim) db.nodes) [
        | none ↦ (db, err already_enrolled)
        | some rows ↦ (
          record db { nodes = rows },
          ok (record {
            node_id = id;
            org_id = claim.org_id;
            org_name =
                name_or_empty
                  (sql.first (λ (o : Organization). o.id == claim.org_id) db.organizations);
          }),
        )
      ]

  unfoldable pub after_redeem :
      (Db → Db)
      → String
      → EnrollInput
      → Db × Result PairingError Redeemed
      → Db × Result EnrollError EnrollResponse
  after_redeem others id input (db, err e) = (db, err (pairing e))
  after_redeem others id input (db, ok redeemed) = insert_node id input redeemed (others db)

  unfoldable pub enroll_node :
      (Db → Db) → ℤ → ℤ → String → EnrollInput → Db → Db × Result EnrollError EnrollResponse
  enroll_node others claimed checked id input db =
      if eqb (length input.public_key) 32
      then elim (sql.first (has_key input.public_key) db.nodes) [
        | some existing ↦ (db, err already_enrolled)
        | none ↦
            after_redeem others id input
              (redeem_pairing_code unicode hmac sql env claimed checked input.pairing_code db)
      ]
      else (db, err bad_key)
