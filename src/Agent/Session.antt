-- ===== src/Agent/Session.antt =====
-- agent/internal/transport/session.go. Durations are counts of nanoseconds, and a product of them
-- wraps around at 64 bits. The connection is a script of what its calls return: whether a message is
-- sent, what is received and discovered, and when the ticker fires.
pub mod Backoff
pub mod Transcript
pub mod Stored
pub mod Pace
use llm_hub.Agent.Inventory.{Inventory, Probe, Sample, CollectError, collect, sample_all}
use llm_hub.Agent.Wire.{Host, host_proto, devices_proto, samples_proto}
use llm_hub.Base.{
  ℕ, suc, ◌+◌, ◌-◌, ◌*◌, ◌%◌, ◌^◌, String, Bool, true, false, Option, none, some, List, [], ◌∷◌,
  map, ltb, eqb, if◌then◌else◌,
}
use llm_hub.Base.Int.{ℤ, pos, negsuc, ◌≤ℤ◌, ltb_ℤ, min_ℤ}
use llm_hub.Proto.{Payload, hello, inventory, samples}
use llm_hub.Result.{Result, ok, err}

abbrev pub second : ℕ
second = 1000000000

-- The value of the low 64 bits, signed.
unfoldable pub int64 : ℕ → ℤ
int64 n = let low = n % 2 ^ 64 in if ltb low (2 ^ 63) then pos low else negsuc (2 ^ 64 - low - 1)

abbrev pub or_default : ℤ → ℕ → ℤ
or_default (pos n) fallback = if eqb n 0 then pos fallback else pos n
or_default (negsuc n) fallback = pos fallback

-- `backoff*2`, where the backoff is not negative
abbrev pub doubled : ℕ → ℤ
doubled n = int64 (n * 2)

unfoldable pub next_backoff : ℕ → ℤ → ℤ
next_backoff backoff max_backoff = min_ℤ (doubled backoff) max_backoff

-- One turn of the loop of `Run`: whether the context was cancelled during the connection or the wait,
-- and the number that the generator draws.
pub record Turn : Type 0 where
  pub cancelled_connected : Bool
  pub draw : ℕ
  pub cancelled_waiting : Bool

-- `panicked`: `rand.Int63n` of a number that is not positive.
pub data Ending : Type 0 where
  stopped panicked : Ending
  running : ℤ → Ending

abbrev pub Loop : Type 0
Loop = List ℕ × Ending

abbrev pub waited : ℕ → Loop → Loop
waited w (ws, ending) = (w ∷ ws, ending)

-- What `rand.Int63n(backoff + 1)` gives, for a backoff below 2 ^ 63 - 1.
abbrev pub jitter : ℕ → ℕ → ℕ
jitter draw backoff = draw % suc backoff

unfoldable pub reconnect : ℤ → List Turn → ℤ → Loop
reconnect max_backoff [] backoff = ([], running backoff)
reconnect max_backoff (t ∷ ts) (negsuc n) =
    ([], (if t.cancelled_connected then stopped else panicked))
reconnect max_backoff (t ∷ ts) (pos backoff) =
    let rest =
      waited (jitter t.draw backoff)
        (reconnect max_backoff ts (next_backoff backoff max_backoff)) in
    if t.cancelled_connected
    then ([], stopped)
    else if t.cancelled_waiting
    then (jitter t.draw backoff ∷ [], stopped)
    else rest

-- `Run` with its two settings, and the turns that come.
unfoldable pub session_run : ℤ → ℤ → List Turn → Loop
session_run min_backoff max_backoff turns =
    reconnect (or_default max_backoff (30 * second)) turns (or_default min_backoff second)

pub data Sending : Type 0 where
  sent cancelled broken : Sending

-- The context is done, or the ticker fires: then every device is asked, and what comes of sending.
pub data Moment : Type 0 where
  done : Bool → Moment
  tick : (String → Option Sample) → Sending → Moment

pub record Script : Type 0 where
  pub version : String
  pub host : Option Host
  pub hello_sent : Bool
  -- The interval of the first message, 0 if it carries none; `none` is an error.
  pub first : Option ℕ
  pub probes : List Probe
  pub inventory_sent : Bool
  pub moments : List Moment

pub data ConnectError : Type 0 where
  host_unread send_failed receive_failed close_failed sampling_panicked : ConnectError
  collect_failed : CollectError → ConnectError

abbrev pub Transcript : Type 0
Transcript = List Payload × Result ConnectError (Unit {0})

-- The sampler's interval in milliseconds.
abbrev pub interval : ℕ → ℕ
interval ms = if ltb 0 ms then ms else 5000

abbrev pub after_message : Payload → Transcript → Transcript
after_message m (ms, result) = (m ∷ ms, result)

abbrev pub now_sampled : (String → Option Sample) → Inventory → Option (List Sample)
now_sampled reading inv = sample_all (record inv {
  owner =
      map (λ (e : String × Probe). (e.0, record e.1 { sample = λ d. reading d.local_id }))
        inv.owner;
})

abbrev pub send_batch : Sending → List Sample → Transcript → Transcript
send_batch sending [] rest = rest
send_batch sent (s ∷ ss) rest =
    after_message (samples (record { samples = samples_proto (s ∷ ss) })) rest
send_batch cancelled (s ∷ ss) rest = ([], ok tt)
send_batch broken (s ∷ ss) rest = ([], err send_failed)

-- The loop of the ticker; the script's end leaves it running, which counts as no error.
unfoldable pub sample_loop : Inventory → List Moment → Transcript
sample_loop inv [] = ([], ok tt)
sample_loop inv (done closed ∷ ms) = ([], (if closed then ok tt else err close_failed))
sample_loop inv (tick reading sending ∷ ms) =
    let rest = sample_loop inv ms in
    elim (now_sampled reading inv) [
      | none ↦ ([], err sampling_panicked)
      | some ss ↦ send_batch sending ss rest
    ]

abbrev report : Bool → Inventory → List Moment → Transcript
report false inv ms = ([], err send_failed)
report true inv ms =
    after_message (inventory (record { devices = devices_proto inv.devices })) (sample_loop inv ms)

abbrev discover : Script → Transcript
discover s = elim (collect s.probes) [
  | err e ↦ ([], err (collect_failed e))
  | ok inv ↦ report s.inventory_sent inv s.moments
]

unfoldable pub connect_once : Script → Transcript
connect_once s = elim s.host [
  | none ↦ ([], err host_unread)
  | some host ↦
      let greeting =
        hello (record { agent_version = s.version; host = some (host_proto s.version host) }) in
      if s.hello_sent
      then after_message greeting
          (elim s.first [ none ↦ ([], err receive_failed) | some ms ↦ discover s ])
      else ([], err send_failed)
]
