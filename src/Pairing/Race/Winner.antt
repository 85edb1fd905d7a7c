-- ===== src/Pairing/Race/Winner.antt =====
-- Who wins when a code is redeemed by several agents at once.
use llm_hub.Base.{refl, List, ℕ, ◌≡◌, ◌≢◌, String, ap}
use llm_hub.Base.Int.{ℤ}
use llm_hub.Env.{Env}
use llm_hub.Pairing.{Unicode, Hmac, Redeemed, hash_code, settle, redeem_pairing_code}
use llm_hub.Result.{ok}
use llm_hub.Schema.{Db}
use llm_hub.Sql.{Sql}
use llm_hub.Pairing.Race.{Race, returned, marked, HasIds, answered, Reach}
use llm_hub.Pairing.Race.Owner.{owns}
use llm_hub.Pairing.Race.Invariant.{Reach-Inv}

module _ (unicode : Unicode) (hmac : Hmac) (sql : Sql) (env : Env) where
  -- When any number of machines redeem codes at once, their statements in any order and codes
  -- minted in between, each with an id of its own, at most one of those that redeem codes of one
  -- hash is accepted, at whatever time the others check. Hypothesis: the rows of the first table
  -- have different ids.
  pub one_winner :
      {db : Db} {s : Race}
      → HasIds db.pairing_codes
      → Reach unicode hmac sql env db s
      → (i j : ℕ) (hash : String) (v w : Redeemed) → i ≢ j
      → s.calls i ≡ answered hash (ok v)
      → s.calls j ≢ answered hash (ok w)
  one_winner ids r i j hash v w differ won won' =
      differ ((Reach-Inv unicode hmac sql env ids r).only i j hash (ap owns won) (ap owns won'))

  -- One call by itself: its claim and then the rest are `redeemPairingCode`.
  pub redeem-settle :
      (claimed checked : ℤ) (code : List ℕ) (db : Db)
      → let hash = hash_code unicode hmac env code in
        redeem_pairing_code unicode hmac sql env claimed checked code db
        ≡ settle unicode hmac sql env checked hash
            (returned unicode hmac sql env claimed hash db)
            (marked unicode hmac sql env claimed hash db)
  unfolding redeem_pairing_code
  redeem-settle claimed checked code db = refl
