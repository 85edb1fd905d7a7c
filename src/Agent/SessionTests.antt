-- ===== src/Agent/SessionTests.antt =====
-- Discoveries and connections of a machine, and instances of the theorems about them.
use llm_hub.Agent.Inventory.{
  Device, Sample, Probe, Inventory, collect, collect_onto, add_devices, sample_all, sample_each,
  owner_of,
}
use llm_hub.Agent.Inventory.Laws.{Found, discovery, clash, inventory_of, collect_iff}
use llm_hub.Agent.Session.{
  Turn, panicked, session_run, second, sample_loop, done, tick, sent, Script, connect_once,
}
use llm_hub.Agent.Session.Backoff.{session_run_waits}
use llm_hub.Agent.Session.Stored.{delivered, connection_stored}
use llm_hub.Agent.Session.Transcript.{Nothing, Greeted, Reported, connect_once_sends}
use llm_hub.Agent.Wire.{sample_proto, device_proto, kind_proto}
use llm_hub.Agent.Wire.Laws.{IsSendable, facts_found, reading_of-sample_proto}
use llm_hub.Inventory.{known_devices}
use llm_hub.Wire.{kind_name, host_columns}
use llm_hub.Storable.{refuses_device, refuses_sample, refuses_host}
use llm_hub.Fixture.{who}
use llm_hub.Proto.{HelloAck}
use llm_hub.Base.Distinct.{Distinct}
use llm_hub.Base.{
  ◌≡◌, ◌≢◌, ◌↔◌, ◌⊎◌, ◌+◌, ◌*◌, ◌^◌, ◌≤◌, refl, none, some, List, [], ◌∷◌, ℕ, arith, true, false,
  nth, All, min,
}
use llm_hub.Base.Int.{pos}
use llm_hub.Enrollment.{key_eq}
use llm_hub.Fixture.{gib, fleet, settings, ascii, mac}
use llm_hub.Inventory.{reading_of}
use llm_hub.Inventory.Report.{facts_at}
use llm_hub.NodeService.{on_messages, is_refused}
use llm_hub.Result.{ok}
use llm_hub.Sql.Reference.{lists}
use llm_hub.System.WellFormed.{WellFormed}

tables : WellFormed fleet
unfolding key_eq
tables = record {
  ids = (refl, tt);
  keys = (refl, tt);
  statuses = (refl, tt);
  places = (refl, (refl, tt));
  owners = (refl, (refl, tt));
  hashes = (refl, tt);
  code_ids = (refl, tt);
}

abbrev card : Device
card = record {
  local_id = "gpu-1";
  kind = "cuda";
  index = 0;
  name = "RTX";
  total_bytes = 24 * gib;
  wired_limit_bytes = 0;
  driver_version = "550";
  compute_capability = "8.9";
}

abbrev taken : Sample
taken = record {
  local_id = "gpu-1";
  used_bytes = 10 * gib;
  managed_bytes = 0;
  utilization = 0;
  temperature_c = 0;
  power_watts = 0;
  pressure = "";
  sampled_at = pos 100000;
}

abbrev stock_probe : Probe
stock_probe = record { name = "cuda"; discover = some (card ∷ []); sample = λ d. some taken }

abbrev probes : List Probe
probes = stock_probe ∷ []

abbrev stock : Inventory
stock = record { devices = card ∷ []; owner = ("gpu-1", stock_probe) ∷ [] }

collect_test : collect probes ≡ ok stock
unfolding collect collect_onto add_devices
collect_test = refl

collect_iff_example : (collect probes ≡ ok stock) ↔ (
    (found : List Found) × (discovery probes ≡ some found)
    × Distinct clash found
    × (stock ≡ inventory_of found))
collect_iff_example = collect_iff probes stock

reading_of-sample_proto_example : reading_of (sample_proto taken) ≡ record {
  last_used_bytes = 10 * gib;
  last_managed_bytes = 0;
  last_utilization = 0;
  last_pressure = "normal";
  last_sample_at = some (pos 100000);
}
reading_of-sample_proto_example = reading_of-sample_proto taken

abbrev turns : List Turn
turns =
    record { cancelled_connected = false; draw = 12345678901; cancelled_waiting = false }
    ∷ record { cancelled_connected = true; draw = 0; cancelled_waiting = false }
    ∷ []

session_run_waits_example :
    ((k w : ℕ)
      → nth k (session_run (pos 0) (pos 0) turns).0 ≡ some w
      → w ≤ min (second * 2 ^ k) (30 * second))
    × ((session_run (pos 0) (pos 0) turns).1 ≢ panicked)
session_run_waits_example =
    session_run_waits (pos 0) (pos 0) turns second (30 * second) refl refl (omega arith)
      (omega arith)

abbrev script : Script
script = record {
  version = "1.1";
  host = some (record {
    hostname = "box";
    platform = "linux";
    arch = "amd64";
    os_version = "6.1";
    total_memory_bytes = 64 * gib;
    cpu_cores = 16;
  });
  hello_sent = true;
  first = some 5000;
  probes = probes;
  inventory_sent = true;
  moments = tick (λ l. none) sent ∷ tick (λ l. some taken) sent ∷ done true ∷ [];
}

connect_once_sends_example :
    let ms = (connect_once script).0 in Nothing ms ⊎ (Greeted script ms ⊎ Reported script ms)
connect_once_sends_example = connect_once_sends script

script-Reported : Reported script (connect_once script).0
unfolding connect_once sample_loop sample_all sample_each owner_of collect collect_onto add_devices
script-Reported = (_, refl, _, refl, (refl, tt), _, refl, ((_, _, refl), tt))

sendable :
    (found : List Found) → discovery probes ≡ some found → All (λ (f : Found). IsSendable f.0) found
sendable found e =
    let same : (card, stock_probe) ∷ [] ≡ found = cc e in rw (← same) ((refl, omega arith), tt)

connection_stored_example :
    let out =
      on_messages lists "acme" "n1"
        (delivered (λ i. pos (100000 + i)) (λ i j. "new") 0 (connect_once script).0)
        fleet in
    (out.1 ≡ ok tt)
    × (found : List Found) × (discovery script.probes ≡ some found)
    × (facts_at "n1" "gpu-1" out.0.devices ≡ facts_found "gpu-1" found)
unfolding device_proto kind_proto sample_proto host_columns is_refused known_devices kind_name
    refuses_device refuses_sample refuses_host connect_once sample_loop sample_all sample_each
    owner_of collect collect_onto add_devices
connection_stored_example =
    connection_stored ascii mac lists settings "acme" "n1" (λ i. pos (100000 + i)) (λ i j. "new")
      script fleet "gpu-1" script-Reported sendable refl tables refl

abbrev ack : HelloAck
ack = record { node_id = who.node_id; sample_interval_ms = 5000 }
