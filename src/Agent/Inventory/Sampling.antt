-- ===== src/Agent/Inventory/Sampling.antt =====
-- agent/internal/inventory/inventory.go, `SampleAll`: each device and the probe that found it.
use llm_hub.Agent.Inventory.{
  Sample, Probe, Inventory, collect, owner_of, add_sample, sample_each, sample_all,
}
use llm_hub.Agent.Inventory.Laws.{Found, discovery, clash, inventory_of, collect_iff}
use llm_hub.Base.{◌≡◌, refl, String, eq_refl, false, some, List, [], ◌∷◌, any, All, arith}
use llm_hub.Base.Distinct.{Distinct}
use llm_hub.Result.{ok}

-- The samples that the devices' own probes take.
abbrev pub samples_of : List Found → List Sample
samples_of [] = []
samples_of (f ∷ fs) = add_sample (f.1.sample f.0) (samples_of fs)

abbrev IsOwned : List (String × Probe) → Found → Type 0
IsOwned owner f = owner_of owner f.0.local_id ≡ some f.1

owner_of-All : (fs : List Found) → Distinct clash fs → All (IsOwned (inventory_of fs).owner) fs
unfolding owner_of
owner_of-All [] d = tt
owner_of-All (f ∷ fs) d = (
  ground (arith, eq_refl f.0.local_id),
  later f fs (inventory_of fs).owner d.0 (owner_of-All fs d.1),
)
  where
    later :
        (f : Found) (fs : List Found) (owner : List (String × Probe))
        → any (clash f) fs ≡ false
        → All (IsOwned owner) fs
        → All (IsOwned ((f.0.local_id, f.1) ∷ owner)) fs
    later f [] owner apart h = tt
    later f (x ∷ fs) owner apart h =
        (ground (arith, apart, h.0), later f fs owner (ground (arith, apart)) h.1)

sample_each-owned :
    (owner : List (String × Probe)) (fs : List Found)
    → All (IsOwned owner) fs
    → sample_each owner (inventory_of fs).devices ≡ some (samples_of fs)
unfolding sample_each
sample_each-owned owner [] h = refl
sample_each-owned owner (f ∷ fs) h = ground (arith, h.0, sample_each-owned owner fs h.1)

-- Each device that was discovered is asked for a sample by the probe that found it, and a device that
-- gives none leaves the others' samples as they are.
pub sample_all-collect :
    (ps : List Probe) (inv : Inventory)
    → collect ps ≡ ok inv
    → (found : List Found) × (discovery ps ≡ some found)
      × (sample_all inv ≡ some (samples_of found))
unfolding sample_all
sample_all-collect ps inv h =
    let (found, all, d, same) = (collect_iff ps inv).0 h in
    (
      found,
      all,
      rw (same) (sample_each-owned (inventory_of found).owner found (owner_of-All found d)),
    )
