-- ===== src/Pairing/Tests.antt =====
-- A code of the fixture redeemed, and instances of the theorems about codes.
use llm_hub.Base.{ℕ, ◌≡◌, ◌≢◌, refl, List, [], ◌∷◌, change, none, some, Option, String, arith}
use llm_hub.Base.Int.{pos, ◌+ℤ◌}
use llm_hub.Base.Text.{codes}
use llm_hub.Fixture.{settings, ascii, mac, fleet, invitation, typed}
use llm_hub.Result.{ok, err}
use llm_hub.Schema.{PairingRow, Db}
use llm_hub.Sql.Reference.{lists}
use llm_hub.Pairing.{
  Minted, mint_pairing_code, Redeemed, PairingError, already_used, is_claimable, set_used,
  normalize, hash_code, generate_code, pick, redeem_pairing_code, settle,
}
use llm_hub.Pairing.Claim.{redeemed}
use llm_hub.Pairing.Redeem.{redeem_lem, redeem_single_use}
use llm_hub.Pairing.Race.{
  Race, waiting, claimed, answered, set_call, marked, Reach, begin, move, start, finish,
}
use llm_hub.Pairing.Race.Winner.{one_winner}

abbrev welcome : Redeemed
welcome = record { org_id = "acme"; node_name = "lab" }

abbrev spent : Db
spent = record fleet { pairing_codes = set_used (some (pos 1000)) invitation ∷ [] }

hash_test : hash_code ascii mac settings typed ≡ "eight"
unfolding hash_code normalize
hash_test = refl

redeem_test :
    redeem_pairing_code ascii mac lists settings (pos 1000) (pos 1001) typed fleet
    ≡ (spent, ok welcome)
unfolding redeem_pairing_code hash_code normalize settle
redeem_test = refl

redeem_lem_example :
    let (db', result) =
      redeem_pairing_code ascii mac lists settings (pos 1000) (pos 1001) typed fleet in
    (result ≡ redeemed (pos 1001) (some invitation))
    × ((e : PairingError) → result ≡ err e → db' ≡ fleet)
    × ((v : Redeemed)
        → result ≡ ok v
        → db' ≡ record fleet {
          pairing_codes =
              change
                (is_claimable (hash_code ascii mac settings typed))
                (set_used (some (pos 1000)))
                fleet.pairing_codes;
        })
unfolding hash_code normalize
redeem_lem_example =
    redeem_lem ascii mac lists settings (pos 1000) (pos 1001) typed fleet (some invitation) refl
      (λ r e. let same : invitation ≡ r = ground (arith, e) in rw (← same))

redeem_single_use_example :
    redeem_pairing_code ascii mac lists settings (pos 2000) (pos 2001) (codes "ABCD2345") spent
    ≡ (spent, err already_used)
unfolding redeem_pairing_code hash_code normalize settle
redeem_single_use_example =
    redeem_single_use ascii mac lists settings (pos 1000) (pos 1001) (pos 2000) (pos 2001) typed
      (codes "ABCD2345") fleet invitation welcome refl refl refl refl

abbrev shown : List ℕ
shown = codes "ABCD-2345"

abbrev draws : ℕ → ℕ
draws k = 31

abbrev issued : Minted
issued = record { code = codes "9999-9999"; expires_at = pos 900000 }

mint_test :
    (mint_pairing_code ascii mac lists settings draws "p2"
      (pos 0)
      "acme"
      "ann"
      "lab"
      (record fleet { pairing_codes = [] })).1
    ≡ ok issued
unfolding mint_pairing_code generate_code pick hash_code normalize ◌+ℤ◌
mint_test = refl

-- Two machines are given the same code: both claim it, and the first one gets its answer.
abbrev hash : String
hash = "eight"

abbrev won : Option PairingRow
won = some (set_used (some (pos 1000)) invitation)

abbrev both : Race
both = record {
  db =
      marked ascii mac lists settings (pos 1002) hash
        (marked ascii mac lists settings (pos 1000) hash fleet);
  calls = set_call (set_call (λ i. waiting) 0 (claimed hash won)) 1 (claimed hash none);
}

-- The second one is told that the code is used.
abbrev both_answered : Race
both_answered = record {
  db = both.db;
  calls =
      set_call (set_call both.calls 0 (answered hash (ok welcome))) 1
        (answered hash (err already_used));
}

both-Reach : Reach ascii mac lists settings fleet both
both-Reach = move (move begin (start 0 hash (pos 1000) refl)) (start 1 hash (pos 1002) refl)

both_answered-Reach : Reach ascii mac lists settings fleet both_answered
unfolding settle
both_answered-Reach =
    move (move both-Reach (finish 0 hash won (pos 1003) refl)) (finish 1 hash none (pos 1004) refl)

one_winner_example : both_answered.calls 1 ≢ answered hash (ok welcome)
unfolding settle
one_winner_example =
    one_winner ascii mac lists settings (refl, tt) both_answered-Reach 0 1 hash welcome welcome
      (λ e. ground (arith, e)) refl
