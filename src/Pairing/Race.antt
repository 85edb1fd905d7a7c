-- ===== src/Pairing/Race.antt =====
-- `redeemPairingCode` of domain/pairing.ts called by any number of agents at once: the statements of
-- different calls come in any order, and codes are minted in between.
pub mod Codes
pub mod Owner
pub mod Minting
pub mod Invariant
pub mod Winner
use llm_hub.Base.{
  ℕ, ◌≡◌, String, ◌==◌, Bool, false, Option, none, some, List, [], ◌∷◌, any, head, eqb,
  if◌then◌else◌,
}
use llm_hub.Base.Distinct.{Distinct}
use llm_hub.Base.Int.{ℤ}
use llm_hub.Env.{Env}
use llm_hub.Pairing.{
  Unicode, Hmac, PairingError, Redeemed, is_claimable, has_id, set_used, settle, mint_pairing_code,
}
use llm_hub.Result.{Result, ok, err}
use llm_hub.Schema.{PairingRow, Db}
use llm_hub.Sql.{Sql}

-- Where a call stands: before its claim, after it with what the claim returned, or at its answer.
-- The hash is that of the code it was called with.
pub data Call : Type 0 where
  waiting : Call
  claimed : String → Option PairingRow → Call
  answered : String → Result PairingError Redeemed → Call

pub record Race : Type 0 where
  pub db : Db
  pub calls : ℕ → Call

abbrev pub set_call : (ℕ → Call) → ℕ → Call → ℕ → Call
set_call calls i c j = if eqb i j then c else calls j

abbrev pub HasIds : List PairingRow → Type 0
HasIds = Distinct (λ r s. has_id r.id s)

module _ (unicode : Unicode) (hmac : Hmac) (sql : Sql) (env : Env) where
  abbrev pub returned : ℤ → String → Db → Option PairingRow
  returned now hash db =
      head (sql.returning (is_claimable hash) (set_used (some now)) db.pairing_codes)

  abbrev pub marked : ℤ → String → Db → Db
  marked now hash db = record db {
    pairing_codes = sql.update (is_claimable hash) (set_used (some now)) db.pairing_codes;
  }

  pub data Move (s : Race) : Race → Type 0 where
    start :
        (i : ℕ) (hash : String) (now : ℤ)
        → s.calls i ≡ waiting
        → Move s (record {
          db = marked now hash s.db;
          calls = set_call s.calls i (claimed hash (returned now hash s.db));
        })
    finish :
        (i : ℕ) (hash : String) (row : Option PairingRow) (checked : ℤ)
        → s.calls i ≡ claimed hash row
        → Move s (record {
          db = (settle unicode hmac sql env checked hash row s.db).0;
          calls =
              set_call s.calls i
                (answered hash (settle unicode hmac sql env checked hash row s.db).1);
        })
    mint :
        (random : ℕ → ℕ) (id : String) (now : ℤ) (org_id user_id node_name : String)
        → any (has_id id) s.db.pairing_codes ≡ false
        → Move s (record s {
          db =
              (mint_pairing_code unicode hmac sql env random id now org_id user_id node_name
                s.db).0;
        })

  -- From a table whose rows have different ids, with no call begun.
  pub data Reach (db : Db) : Race → Type 0 where
    begin : Reach db (record { db = db; calls = λ i. waiting })
    move : {s t : Race} → Reach db s → Move s t → Reach db t
