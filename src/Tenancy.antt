-- ===== src/Tenancy.antt =====
-- packages/db/src/client.ts and migrations/0001_roles_and_rls.sql: `withOrg` runs statements in a
-- transaction that is scoped to one organization. The policies let a statement see and change only
-- rows of that organization, and refuse a row of another one; a refusal rolls the transaction back.
pub mod Connection
mod Tests
use llm_hub.Base.{◌≡◌, String, ◌==◌, Bool, ◌&&◌, List, keep}
use llm_hub.Schema.{NodeRow, DeviceRow, PairingRow, Db}

-- A failure that the database reports.
pub data DbError : Type 0 where
  policy_violation foreign_key_violation bad_value : DbError
  unique_violation : String → DbError

-- The column that the policies compare.
pub record Owned (Row : Type 0) : Type 0 where
  pub owner : Row → String

instance abbrev pub node_owned : Owned NodeRow
node_owned = record { owner = λ r. r.org_id }

instance abbrev pub device_owned : Owned DeviceRow
device_owned = record { owner = λ r. r.org_id }

instance abbrev pub pairing_owned : Owned PairingRow
pairing_owned = record { owner = λ r. r.org_id }

module _ {Row : Type 0} ⦃o : Owned Row⦄ (org : String) where
  -- USING and WITH CHECK (org_id = current_setting('app.current_org_id'))
  abbrev pub visible : Row → Bool
  visible r = o.owner r == org

  -- What a statement in the transaction runs over, where the code wrote `where p`.
  abbrev pub scoped : (Row → Bool) → Row → Bool
  scoped p r = visible r && p r

  -- The rows of one organization.
  abbrev pub rows_of : List Row → List Row
  rows_of rows = keep visible rows

-- Nothing that belongs to an organization differs between two databases.
pub record SameOrg (org : String) (a b : Db) : Type 0 where
  pub same_nodes : rows_of org a.nodes ≡ rows_of org b.nodes
  pub same_devices : rows_of org a.devices ≡ rows_of org b.devices
  pub same_pairing_codes : rows_of org a.pairing_codes ≡ rows_of org b.pairing_codes
