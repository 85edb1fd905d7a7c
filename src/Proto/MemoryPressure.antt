-- ===== src/Proto/MemoryPressure.antt =====
-- enum MemoryPressure of proto/modelhub/v1/common.proto
use llm_hub.Base.{ℕ}

abbrev pub unspecified : ℕ
unspecified = 0

abbrev pub normal : ℕ
normal = 1

abbrev pub warn : ℕ
warn = 2

abbrev pub critical : ℕ
critical = 3
