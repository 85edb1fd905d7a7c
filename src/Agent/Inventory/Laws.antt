-- ===== src/Agent/Inventory/Laws.antt =====
-- agent/internal/inventory/inventory.go, `Collect`: what a discovery finds.
use llm_hub.Agent.Inventory.{
  Device, Probe, Inventory, add_device, add_devices, collect_onto, collect,
}
use llm_hub.Base.{
  ◌≡◌, ◌↔◌, refl, ◌∙◌, ap, String, ◌==◌, eq_iff, Bool, false, Option, none, some, List, [], ◌∷◌,
  ◌++◌, map, any, arith, Bool-cases, Option-cases, inl, inr,
}
use llm_hub.Base.Distinct.{Distinct, Distinct-snoc, any-append}
use llm_hub.Result.{ok, Result-cases}
use mathlib.Core.List.{append_assoc, append-nil}

abbrev pub Found : Type 0
Found = Device × Probe

abbrev pub found_by : Probe → List Device → List Found
found_by p ds = map (λ d. (d, p)) ds

abbrev or_fail : Option (List Device) → Probe → Option (List Found) → Option (List Found)
or_fail none p rest = none
or_fail (some ds) p none = none
or_fail (some ds) p (some rest) = some (found_by p ds ++ rest)

-- What all the probes discover, in their order; `none` if one of them fails.
abbrev pub discovery : List Probe → Option (List Found)
discovery [] = some []
discovery (p ∷ ps) = or_fail p.discover p (discovery ps)

abbrev pub clash : Found → Found → Bool
clash a b = a.0.local_id == b.0.local_id

abbrev pub inventory_of : List Found → Inventory
inventory_of fs = record {
  devices = map (λ (f : Found). f.0) fs;
  owner = map (λ (f : Found). (f.0.local_id, f.1)) fs;
}

any-owner :
    (id : String) (fs : List Found)
    → any (λ (e : String × Probe). e.0 == id) (inventory_of fs).owner
      ≡ any (λ (f : Found). f.0.local_id == id) fs
any-owner id [] = refl
any-owner id (f ∷ fs) = ground (arith, any-owner id fs)

eq_comm : (a b : String) → (a == b) ≡ (b == a)
eq_comm a b = ground (arith, eq_iff a b, eq_iff b a)

any-clash :
    (d : Device) (p : Probe) (fs : List Found)
    → any (λ (f : Found). f.0.local_id == d.local_id) fs ≡ any (clash (d, p)) fs
any-clash d p [] = refl
any-clash d p (f ∷ fs) = ground (arith, any-clash d p fs, eq_comm f.0.local_id d.local_id)

inventory_of-snoc :
    (p : Probe) (d : Device) (fs : List Found)
    → add_device p d (inventory_of fs) ≡ inventory_of (fs ++ (d, p) ∷ [])
inventory_of-snoc p d [] = refl
inventory_of-snoc p d (f ∷ fs) = ground (arith, inventory_of-snoc p d fs)

Distinct-middle :
    (x : Found) (xs ys : List Found) → Distinct clash (xs ++ x ∷ ys) → any (clash x) xs ≡ false
Distinct-middle x [] ys h = refl
Distinct-middle x (y ∷ xs) ys h = ground (
  arith,
  Distinct-middle x xs ys h.1,
  any-append (clash y) xs (x ∷ ys),
  h.0,
  eq_comm x.0.local_id y.0.local_id,
)

-- Devices are added exactly where no two of all have the same id.
add_devices_iff :
    (p : Probe) (ds : List Device) (fs : List Found) (inv : Inventory)
    → Distinct clash fs
    → (add_devices p ds (inventory_of fs) ≡ ok inv)
      ↔ (Distinct clash (fs ++ found_by p ds) × (inventory_of (fs ++ found_by p ds) ≡ inv))
unfolding add_devices
add_devices_iff p [] fs inv d = rw (append-nil fs) (λ h. (d, ground (arith, h)), λ h. ap ok h.1)
add_devices_iff p (x ∷ ds) fs inv d =
    let next = fs ++ (x, p) ∷ [] in
    let same = append_assoc fs ((x, p) ∷ []) (found_by p ds) in
    let step = inventory_of-snoc p x fs in
    let test = any-owner x.local_id fs ∙ any-clash x p fs in
    elim (Bool-cases (any (clash (x, p)) fs)) [
      | inl twice ↦ (
        λ h. absurd (ground (arith, test, twice, h)),
        λ h. absurd (cc (twice, Distinct-middle (x, p) fs (found_by p ds) h.0)),
      )
      | inr new ↦
          let grown = Distinct-snoc clash fs (x, p) (λ y. eq_comm y.0.local_id x.local_id) d new in
          let rest = add_devices_iff p ds next inv grown in
          let at : add_devices p (x ∷ ds) (inventory_of fs) ≡ add_devices p ds (inventory_of next) =
            ground (arith, test, new, step) in
          rw (at, ← same) rest
    ]

Distinct-before : (xs ys : List Found) → Distinct clash (xs ++ ys) → Distinct clash xs
Distinct-before [] ys h = tt
Distinct-before (x ∷ xs) ys h =
    (ground (arith, any-append (clash x) xs ys, h.0), Distinct-before xs ys h.1)

collect_onto-ok :
    (ps : List Probe) (fs : List Found) (inv : Inventory)
    → Distinct clash fs
    → collect_onto ps (inventory_of fs) ≡ ok inv
    → (found : List Found) × (discovery ps ≡ some found)
      × Distinct clash (fs ++ found)
      × (inv ≡ inventory_of (fs ++ found))
unfolding collect_onto
collect_onto-ok [] fs inv d h =
    ([], refl, rw (append-nil fs) d, rw (append-nil fs) (ground (arith, h)))
collect_onto-ok (p ∷ ps) fs inv d h = elim (Option-cases p.discover) [
  | inl bad ↦ absurd (ground (arith, bad, h))
  | inr (ds, good) ↦ elim (Result-cases (add_devices p ds (inventory_of fs))) [
    | inl (e, bad) ↦ absurd (ground (arith, good, bad, h))
    | inr (grown, added) ↦
        let next = fs ++ found_by p ds in
        let (distinct, same) = (add_devices_iff p ds fs grown d).0 added in
        let more : collect_onto ps (inventory_of next) ≡ ok inv =
          ground (arith, good, added, same, h) in
        let (found, all, apart, at) = collect_onto-ok ps next inv distinct more in
        (
          found_by p ds ++ found,
          rw (good, all) refl,
          rw (← append_assoc fs (found_by p ds) found) apart,
          rw (← append_assoc fs (found_by p ds) found) at,
        )
  ]
]

collect_onto-done :
    (ps : List Probe) (fs found : List Found)
    → discovery ps ≡ some found
    → Distinct clash (fs ++ found)
    → collect_onto ps (inventory_of fs) ≡ ok (inventory_of (fs ++ found))
unfolding collect_onto
collect_onto-done [] fs found all d =
    let same : found ≡ [] = ground (arith, all) in rw (same, append-nil fs) refl
collect_onto-done (p ∷ ps) fs found all d = elim (Option-cases p.discover) [
  | inl bad ↦ absurd (ground (arith, bad, all))
  | inr (ds, good) ↦ elim (Option-cases (discovery ps)) [
    | inl bad ↦ absurd (ground (arith, good, bad, all))
    | inr (rest, others) ↦
        let next = fs ++ found_by p ds in
        let same : found_by p ds ++ rest ≡ found = ground (arith, good, others, all) in
        let whole : next ++ rest ≡ fs ++ found =
          append_assoc fs (found_by p ds) rest ∙ ap (λ t. fs ++ t) same in
        let apart : Distinct clash (next ++ rest) = rw whole d in
        let first = Distinct-before next rest apart in
        let added : add_devices p ds (inventory_of fs) ≡ ok (inventory_of next) =
          (add_devices_iff p ds fs (inventory_of next) (Distinct-before fs found d)).1
            (first, refl) in
        let step : collect_onto (p ∷ ps) (inventory_of fs) ≡ collect_onto ps (inventory_of next) =
          ground (arith, good, added) in
        rw (step, ← whole) (collect_onto-done ps next rest others apart)
  ]
]

-- A discovery succeeds exactly when every probe's does and no two devices of all have the same id;
-- it then has all the probes' devices in their order, each with the probe that found it.
pub collect_iff :
    (ps : List Probe) (inv : Inventory)
    → (collect ps ≡ ok inv) ↔ (
        (found : List Found) × (discovery ps ≡ some found)
        × Distinct clash found
        × (inv ≡ inventory_of found))
unfolding collect
collect_iff ps inv = (
  λ h. collect_onto-ok ps [] inv tt h,
  λ (found, all, apart, same). rw (same) (collect_onto-done ps [] found all apart),
)
