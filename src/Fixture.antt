-- ===== src/Fixture.antt =====
-- The data that the tests share: one organization with a node of two devices, a pairing code, the
-- default settings, the case mapping of ASCII and a stand-in for the HMAC.
use llm_hub.Base.{
  true, some, ℕ, zero, suc, false, ◌-◌, ◌*◌, ◌^◌, refl, String, none, List, [], ◌∷◌, length, eqb,
  if◌then◌else◌,
}
use llm_hub.Base.Int.{pos}
use llm_hub.Base.Text.{codes}
use llm_hub.Env.{Env, default_env}
use llm_hub.Pairing.{Unicode, Hmac, is_lower_case}
use llm_hub.Proto.{Device, DeviceView, DeviceSample, hello, inventory, samples}
use llm_hub.NodeAuth.{NodeIdentity}
use llm_hub.NodeService.{AgentMessage}
use llm_hub.Result.{ok}
use llm_hub.Account.{BetterAuth}
use llm_hub.Session.{Auth, SessionContext}
use llm_hub.Schema.{HostColumns, NodeRow, DeviceFacts, DeviceReading, DeviceRow, PairingRow, Db}

abbrev pub settings : Env
settings = default_env "0123456789abcdef0123456789abcdef"

abbrev pub ascii : Unicode
ascii = record {
  upper = λ c. (if is_lower_case c then c - 32 else c) ∷ [];
  upper_lem = λ c h. refl;
}

-- It tells a code of eight characters from the others.
abbrev pub mac : Hmac
mac key text = if eqb (length text) 8 then "eight" else "other"

abbrev pub gib : ℕ
gib = 1024 ^ 3

abbrev pub box : HostColumns
box = record {
  hostname = "box";
  platform = "linux";
  arch = "amd64";
  os_version = "6.1";
  agent_version = "1.0";
  total_memory_bytes = 64 * gib;
  cpu_cores = 16;
}

abbrev pub repeated : ℕ → ℕ → List ℕ
repeated zero c = []
repeated (suc n) c = c ∷ repeated n c

-- A key of 32 equal bytes.
abbrev pub bytes : ℕ → List ℕ
bytes b = repeated 32 b

abbrev pub node : NodeRow
node = record {
  id = "n1";
  org_id = "acme";
  name = "box";
  status = "offline";
  host = box;
  public_key = bytes 7;
  last_seen_at = none;
}

abbrev pub blank : DeviceReading
blank = record {
  last_used_bytes = 0;
  last_managed_bytes = 0;
  last_utilization = 0;
  last_pressure = "normal";
  last_sample_at = none;
}

abbrev pub gpu_facts : DeviceFacts
gpu_facts = record {
  kind = "cuda";
  index = 0;
  name = "RTX";
  total_bytes = 24 * gib;
  wired_limit_bytes = 0;
  driver_version = "550";
  compute_capability = "8.9";
}

abbrev pub device : String → DeviceRow
device local_id = record {
  id = local_id;
  org_id = "acme";
  node_id = "n1";
  local_id = local_id;
  facts = gpu_facts;
  interactive = false;
  reading = blank;
}

abbrev pub gpu : Device
gpu = record {
  local_id = "gpu-1";
  kind = 2;
  index = 0;
  name = "RTX";
  total_bytes = 24 * gib;
  driver_version = "550";
  compute_capability = "8.9";
  wired_limit_bytes = 0;
}

abbrev pub sample : DeviceSample
sample = record {
  local_id = "gpu-1";
  used_bytes = 10 * gib;
  managed_bytes = 6 * gib;
  utilization = 0;
  temperature_c = 0;
  power_watts = 0;
  pressure = 1;
  sampled_at_unix_ms = pos 100000;
}

abbrev pub invitation : PairingRow
invitation = record {
  id = "p1";
  org_id = "acme";
  code_hash = "eight";
  node_name = "lab";
  created_by = "ann";
  expires_at = pos 900000;
  used_at = none;
}

abbrev pub typed : List ℕ
typed = codes "abcd-2345"

abbrev pub fleet : Db
fleet = record {
  nodes = node ∷ [];
  devices = device "gpu-0" ∷ device "gpu-1" ∷ [];
  pairing_codes = invitation ∷ [];
  organizations = record { id = "acme"; name = "Acme" } ∷ [];
}

abbrev pub ann : SessionContext
ann = record {
  user_id = "ann";
  org_id = "acme";
  user = record { id = "ann"; email = "ann@acme.test"; name = "Ann" };
}

-- Better Auth with one user, whose header is 1 and who has no organization until it is repaired.
abbrev pub service : Auth
service = record {
  Headers = ℕ;
  get_session = λ h.
      ok (if eqb h 1 then some (record { user = ann.user; active_organization = none }) else none);
  list_organizations = λ h. ok [];
  ensure_personal_organization = λ u. ok (some "acme");
}

-- A node that says hello, reports one device and sends a sample of it.
abbrev pub messages : List AgentMessage
messages =
    record {
      now = pos 100000;
      supply = λ i. "new";
      payload = hello (record { agent_version = "1.1"; host = some box });
    }
    ∷ record {
      now = pos 100001;
      supply = λ i. "new";
      payload = inventory (record { devices = gpu ∷ [] });
    }
    ∷ record {
      now = pos 105000;
      supply = λ i. "new";
      payload = samples (record { samples = sample ∷ [] });
    }
    ∷ []

-- The header of the node that `NodeAuth.Reference` knows.
abbrev pub header : List ℕ
header =
    codes
      "ModelHubNode 0188f4f6-0000-4000-8000-00000000000A.100000.n.sssssssssssssssssssssssssssssssssssssssssssss"

abbrev pub who : NodeIdentity
who = record { node_id = codes "0188f4f6-0000-4000-8000-00000000000A"; org_id = "acme" }

-- The second device, with nothing in use.
abbrev pub idle : DeviceView
idle = record {
  id = "gpu-1";
  local_id = "gpu-1";
  kind = 2;
  name = "RTX";
  total_bytes = 24 * gib;
  managed_bytes = 0;
  foreign_bytes = 0;
  headroom_bytes = 2061584302;
  available_bytes = 23708219474;
  utilization = 0;
  pressure = 1;
  schedulable = true;
}

-- The same, as Better Auth itself: one user, no organization, and one that is made on demand.
abbrev pub better : BetterAuth
better = record {
  Headers = ℕ;
  get_session = λ h.
      ok (if eqb h 1 then some (record { user = ann.user; active_organization = none }) else none);
  list_organizations = λ h. ok [];
  create_organization = λ body. ok (some (record { id = "acme"; name = "Acme" }));
}
