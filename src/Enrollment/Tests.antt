-- ===== src/Enrollment/Tests.antt =====
-- A machine that joins the fixture's organization, and instances of the theorems.
use llm_hub.Fixture.{typed, bytes, box}
use llm_hub.Schema.{Db}
use llm_hub.Enrollment.{EnrollInput}

abbrev machine : EnrollInput
machine = record { pairing_code = typed; public_key = bytes 9; node_name = ""; host = box }

abbrev alone : Db → Db
alone db = db
