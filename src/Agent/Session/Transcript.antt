-- ===== src/Agent/Session/Transcript.antt =====
-- agent/internal/transport/session.go, `connectOnce`: what a connection sends.
use llm_hub.Agent.Inventory.{Inventory, Sample, collect}
use llm_hub.Agent.Inventory.Laws.{Found, discovery, clash, inventory_of, collect_iff}
use llm_hub.Agent.Session.{
  Sending, sent, cancelled, broken, Moment, done, tick, Script, Transcript, now_sampled, send_batch,
  sample_loop, connect_once,
}
use llm_hub.Agent.Wire.{Host, host_proto, devices_proto}
use llm_hub.Base.{
  ◌≡◌, ◌⊎◌, refl, ap, some, List, [], ◌∷◌, All, arith, Option-cases, Bool-cases, inl, inr,
}
use llm_hub.Base.Distinct.{Distinct}
use llm_hub.Proto.{Payload, hello, inventory, samples, unset}
use llm_hub.Result.{Result-cases}

-- A batch of at least one sample.
abbrev pub IsBatch : Payload → Type 0
IsBatch (samples b) = (s : _) × (ss : _) × (b.samples ≡ s ∷ ss)
IsBatch (hello h) = ⊥
IsBatch (inventory r) = ⊥
IsBatch unset = ⊥

send_batch-IsBatch :
    (sending : Sending) (ss : List Sample) (rest : Transcript)
    → All IsBatch rest.0
    → All IsBatch (send_batch sending ss rest).0
send_batch-IsBatch sending [] rest h = h
send_batch-IsBatch sent (s ∷ ss) rest h = ((_, _, refl), h)
send_batch-IsBatch cancelled (s ∷ ss) rest h = tt
send_batch-IsBatch broken (s ∷ ss) rest h = tt

sample_loop-IsBatch : (inv : Inventory) (ms : List Moment) → All IsBatch (sample_loop inv ms).0
unfolding sample_loop
sample_loop-IsBatch inv [] = tt
sample_loop-IsBatch inv (done closed ∷ ms) = tt
sample_loop-IsBatch inv (tick reading sending ∷ ms) =
    let rest = sample_loop-IsBatch inv ms in
    elim (Option-cases (now_sampled reading inv)) [
      | inl bad ↦ rw (bad, sample_loop) tt
      | inr (ss, taken) ↦
          rw (taken, sample_loop) (send_batch-IsBatch sending ss (sample_loop inv ms) rest)
    ]

-- The first message of a connection.
abbrev pub greeting : Script → Host → Payload
greeting s host =
    hello (record { agent_version = s.version; host = some (host_proto s.version host) })

-- What a connection has sent when it ends.
abbrev pub Nothing : List Payload → Type 0
Nothing ms = ms ≡ []

abbrev pub Greeted : Script → List Payload → Type 0
Greeted s ms = (host : Host) × (s.host ≡ some host) × (ms ≡ greeting s host ∷ [])

abbrev pub Reported : Script → List Payload → Type 0
Reported s ms =
    (host : Host) × (s.host ≡ some host)
    × (found : List Found) × (discovery s.probes ≡ some found)
    × Distinct clash found
    × (batches : List Payload) × (ms
        ≡ greeting s host
          ∷ inventory (record { devices = devices_proto (inventory_of found).devices })
          ∷ batches)
    × All IsBatch batches

-- However a connection of the agent ends, it has sent nothing; or its greeting with the host's
-- facts; or its greeting, then one report of all devices of a discovery without duplicate ids, and
-- then batches of samples, none of them empty.
pub connect_once_sends :
    (s : Script) → let ms = (connect_once s).0 in Nothing ms ⊎ (Greeted s ms ⊎ Reported s ms)
unfolding connect_once
connect_once_sends s = elim (Option-cases s.host) [
  | inl unread ↦ inl (ground (arith, unread))
  | inr (host, read) ↦ elim (Bool-cases s.hello_sent) [
    | inr failed ↦ inl (ground (arith, read, failed))
    | inl greeted ↦ elim (Option-cases s.first) [
      | inl lost ↦ inr (inl (host, read, ground (arith, read, greeted, lost)))
      | inr (ms, heard) ↦ elim (Result-cases (collect s.probes)) [
        | inl (e, bad) ↦ inr (inl (host, read, ground (arith, read, greeted, heard, bad)))
        | inr (inv, good) ↦ elim (Bool-cases s.inventory_sent) [
          | inr failed ↦ inr (inl (host, read, ground (arith, read, greeted, heard, good, failed)))
          | inl reported ↦
              let (found, all, apart, same) = (collect_iff s.probes inv).0 good in
              let batches = (sample_loop inv s.moments).0 in
              let at : (connect_once s).0
                  ≡ greeting s host
                    ∷ inventory (record { devices = devices_proto inv.devices })
                    ∷ batches =
                ground (arith, read, greeted, heard, good, reported) in
              let devices : inv.devices ≡ (inventory_of found).devices =
                ap (λ (i : Inventory). i.devices) same in
              inr (
                inr (
                  host,
                  read,
                  found,
                  all,
                  apart,
                  batches,
                  rw (← devices) at,
                  sample_loop-IsBatch inv s.moments,
                ))
        ]
      ]
    ]
  ]
]
