-- ===== src/Pairing.antt =====
-- apps/control-plane/src/domain/pairing.ts: codes that bring one machine into one organization.
-- Text is read by code points; the case mapping of Unicode, the HMAC of node:crypto and the random
-- numbers are parameters.
pub mod Codes
pub mod Claim
pub mod Redeem
pub mod Mint
pub mod Race
mod Tests
use llm_hub.Base.{
  ℕ, zero, suc, ◌+◌, ◌-◌, ◌<◌, ◌≡◌, String, ◌==◌, Bool, true, false, ◌&&◌, ◌||◌, Option, none, some,
  List, [], ◌∷◌, ◌++◌, keep, head, leb, if◌then◌else◌,
}
use llm_hub.Base.Int.{ℤ, pos, ◌+ℤ◌, ltb_ℤ}
use llm_hub.Base.Text.{codes}
use llm_hub.Env.{Env}
use llm_hub.Result.{Result, ok, err}
use llm_hub.Schema.{PairingRow, Db}
use llm_hub.Sql.{Sql}
use llm_hub.Storable.{has_nul}
use llm_hub.Tenancy.{bad_value, DbError, unique_violation}

abbrev pub is_upper_case : ℕ → Bool
is_upper_case c = leb b'A' c && leb c b'Z'

abbrev pub is_lower_case : ℕ → Bool
is_lower_case c = leb b'a' c && leb c b'z'

abbrev pub is_digit : ℕ → Bool
is_digit c = leb b'0' c && leb c b'9'

-- `toUpperCase` maps each code point to one or more; below 128 it is the ASCII mapping.
pub record Unicode : Type 0 where
  pub upper : ℕ → List ℕ
  pub upper_lem : (c : ℕ) → c < 128 → upper c ≡ (if is_lower_case c then c - 32 else c) ∷ []

-- `createHmac("sha256", key).update(text).digest("hex")`
abbrev pub Hmac : Type 0
Hmac = String → List ℕ → String

abbrev pub alphabet : List ℕ
alphabet = codes "ABCDEFGHJKLMNPQRSTUVWXYZ23456789"

-- `ALPHABET[i]`; past the end it is undefined, which `join` leaves out.
abbrev pub char_at : List ℕ → ℕ → List ℕ
char_at [] i = []
char_at (c ∷ cs) zero = c ∷ []
char_at (c ∷ cs) (suc i) = char_at cs i

-- `pick()`: four letters, by the random numbers from the i-th on.
unfoldable pub pick : (ℕ → ℕ) → ℕ → List ℕ
pick random i =
    char_at alphabet (random i)
    ++ (char_at alphabet (random (i + 1))
        ++ (char_at alphabet (random (i + 2)) ++ char_at alphabet (random (i + 3))))

-- `random i` is the i-th `randomInt(ALPHABET.length)`.
unfoldable pub generate_code : (ℕ → ℕ) → List ℕ
unfolding pick
generate_code random = pick random 0 ++ (b'-' ∷ pick random 4)

-- `[A-Z0-9]`
abbrev pub is_code_char : ℕ → Bool
is_code_char c = is_upper_case c || is_digit c

abbrev pub upper_all : (ℕ → List ℕ) → List ℕ → List ℕ
upper_all upper [] = []
upper_all upper (c ∷ cs) = upper c ++ upper_all upper cs

module _ (unicode : Unicode) where
  unfoldable pub normalize : List ℕ → List ℕ
  normalize code = keep is_code_char (upper_all unicode.upper code)

  unfoldable pub hash_code : Hmac → Env → List ℕ → String
  hash_code hmac env code = hmac env.pairing_code_pepper (normalize code)

pub record Minted : Type 0 where
  pub code : List ℕ
  pub expires_at : ℤ

pub data PairingError : Type 0 where
  already_used unknown_code expired : PairingError

abbrev pub message : PairingError → String
message already_used = "pairing code already used"
message unknown_code = "unknown pairing code"
message expired = "pairing code expired"

abbrev pub has_hash : String → PairingRow → Bool
has_hash hash r = r.code_hash == hash

abbrev pub is_unused : PairingRow → Bool
is_unused r = elim r.used_at [ none ↦ true | some t ↦ false ]

abbrev pub is_claimable : String → PairingRow → Bool
is_claimable hash r = has_hash hash r && is_unused r

abbrev pub set_used : Option ℤ → PairingRow → PairingRow
set_used used r = record r { used_at = used }

abbrev pub has_id : String → PairingRow → Bool
has_id id r = r.id == id

pub record Redeemed : Type 0 where
  pub org_id : String
  pub node_name : String

module _ (unicode : Unicode) (hmac : Hmac) (sql : Sql) (env : Env) where
  -- The row is inserted for the transaction's own organization, so its policy never refuses it;
  -- `id` is the database's choice.
  unfoldable pub mint_pairing_code :
      (ℕ → ℕ) → String → ℤ → String → String → String → Db → Db × Result DbError Minted
  unfolding hash_code ◌+ℤ◌
  mint_pairing_code random id now org_id user_id node_name db =
      let code = generate_code random in
      let expires_at = now +ℤ pos env.pairing_code_ttl_ms in
      let hash = hash_code unicode hmac env code in
      let row : PairingRow = record {
        id = id;
        org_id = org_id;
        code_hash = hash;
        node_name = node_name;
        created_by = user_id;
        expires_at = expires_at;
        used_at = none;
      } in
      if has_nul node_name
      then (db, err bad_value)
      else elim (sql.insert (has_hash hash) row db.pairing_codes) [
        | none ↦ (db, err (unique_violation "pairing_codes_code_hash_unique"))
        | some rows ↦ (
          record db { pairing_codes = rows },
          ok (record { code = code; expires_at = expires_at }),
        )
      ]

  -- After the claim: the three ways in which it ends. `checked` is the clock at the expiry test.
  unfoldable pub settle : ℤ → String → Option PairingRow → Db → Db × Result PairingError Redeemed
  settle checked hash none db = elim (sql.first (has_hash hash) db.pairing_codes) [
    | none ↦ (db, err unknown_code)
    | some existing ↦ (db, err already_used)
  ]
  settle checked hash (some row) db =
      if ltb_ℤ row.expires_at checked
      then (
        record db { pairing_codes = sql.update (has_id row.id) (set_used none) db.pairing_codes },
        err expired,
      )
      else (db, ok (record { org_id = row.org_id; node_name = row.node_name }))

  -- `claimed` is the clock at the claim.
  unfoldable pub redeem_pairing_code : ℤ → ℤ → List ℕ → Db → Db × Result PairingError Redeemed
  redeem_pairing_code claimed checked code db =
      let hash = hash_code unicode hmac env code in
      let won = sql.returning (is_claimable hash) (set_used (some claimed)) db.pairing_codes in
      let rows = sql.update (is_claimable hash) (set_used (some claimed)) db.pairing_codes in
      settle checked hash (head won) (record db { pairing_codes = rows })
