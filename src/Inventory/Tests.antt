-- ===== src/Inventory/Tests.antt =====
-- Reports of the fixture's node, and instances of the theorems about them.
use llm_hub.Base.{true, false, any, ℕ, eq_iff, ◌≡◌, ◌≢◌, refl, String, [], ◌∷◌}
use llm_hub.Base.Int.{pos}
use llm_hub.Fixture.{fleet, device, sample}
use llm_hub.Result.{ok, err}
use llm_hub.Schema.{Db}
use llm_hub.Storable.{refuses_sample}
use llm_hub.Tenancy.{bad_value}
use llm_hub.Sql.Reference.{lists}
use llm_hub.Inventory.{record_samples}
use llm_hub.Inventory.Report.{facts_at, reading_at}
use llm_hub.Inventory.Samples.{record_samples_lem, last_sample, resampled}
use llm_hub.Inventory.Upsert.{find_at}

-- One of the two devices is still there.
abbrev fewer : Db
fewer = record fleet { devices = device "gpu-1" ∷ [] }

abbrev fresh_id : ℕ → String
fresh_id i = "new"

elsewhere : ◌≢◌ {A = String} "globex" "acme"
elsewhere e = cc ((eq_iff "globex" "acme").1 e)

record_samples_lem_example :
    let samples = sample ∷ [] in
    let run = record_samples lists "acme" "n1" (pos 100000) samples fleet in
    (any (refuses_sample lists) samples ≡ true → run ≡ err bad_value)
    × (any (refuses_sample lists) samples ≡ false
        → (db' : Db) × (run ≡ ok db')
          × (facts_at "n1" "gpu-1" db'.devices ≡ facts_at "n1" "gpu-1" fleet.devices)
          × (reading_at "n1" "gpu-1" db'.devices
              ≡ resampled (last_sample "gpu-1" samples) (reading_at "n1" "gpu-1" fleet.devices))
          × (◌≢◌ {A = String} "n1" "n1"
              → find_at "n1" "gpu-1" db'.devices ≡ find_at "n1" "gpu-1" fleet.devices))
record_samples_lem_example =
    record_samples_lem lists "acme" "n1" (pos 100000) (sample ∷ []) fleet "n1" "gpu-1"
      (refl, (refl, tt))

-- A byte count of 2 ^ 63 fails the batch.
huge_test :
    record_samples lists "acme" "n1"
      (pos 100000)
      (sample ∷ (record sample { used_bytes = 9223372036854775808 }) ∷ [])
      fleet
    ≡ err bad_value
unfolding record_samples refuses_sample
huge_test = refl

-- A time that no Date holds does too.
late_test :
    record_samples lists "acme" "n1"
      (pos 100000)
      ((record sample { sampled_at_unix_ms = pos 8640000000000001 }) ∷ [])
      fleet
    ≡ err bad_value
unfolding record_samples refuses_sample
late_test = refl
