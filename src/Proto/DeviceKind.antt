-- ===== src/Proto/DeviceKind.antt =====
-- enum DeviceKind of proto/modelhub/v1/common.proto
use llm_hub.Base.{ℕ}

abbrev pub unspecified : ℕ
unspecified = 0

abbrev pub cpu : ℕ
cpu = 1

abbrev pub cuda : ℕ
cuda = 2

abbrev pub metal : ℕ
metal = 3
