-- ===== src/Web/Bar.antt =====
-- apps/web/src/components/DeviceMemoryBar.tsx: the texts, widths and notices of one device's bar.
-- Colours and layout are left out. The rounded share in doubles is the parameter
-- `Ratio`.
pub mod Notice
use llm_hub.Base.{
  ℕ, zero, ◌+◌, ◌*◌, ◌≤◌, ◌<◌, String, Bool, not, Option, none, some, List, [], ◌∷◌, ◌++◌, map, eqb,
  leb, if◌then◌else◌,
}
use llm_hub.Base.Text.{codes}
use llm_hub.Proto.{DeviceView}
use llm_hub.Proto.MemoryPressure
use llm_hub.Web.Format.{format_bytes}
use llm_hub.Number.{print, print_hundredths}

-- `Math.round((part / whole) * 10_000)` in doubles, in hundredths of a percent.
pub record Ratio : Type 0 where
  pub of_parts : ℕ → ℕ → ℕ

pub data Key : Type 0 where
  managed_bytes foreign_bytes headroom_bytes available_bytes : Key

-- `device[key]`
abbrev pub bytes_of : DeviceView → Key → ℕ
bytes_of d managed_bytes = d.managed_bytes
bytes_of d foreign_bytes = d.foreign_bytes
bytes_of d headroom_bytes = d.headroom_bytes
bytes_of d available_bytes = d.available_bytes

abbrev pub label : Key → String
label managed_bytes = "Model Hub"
label foreign_bytes = "Other processes"
label headroom_bytes = "Reserved headroom"
label available_bytes = "Available"

abbrev pub segments : List Key
segments = managed_bytes ∷ foreign_bytes ∷ headroom_bytes ∷ available_bytes ∷ []

-- What is drawn for a key: `data-bytes`, `title` and `width`.
pub record Segment : Type 0 where
  pub key : Key
  pub data_bytes : List ℕ
  pub title : List ℕ
  pub width : List ℕ

pub record Bar : Type 0 where
  pub name : String
  pub local_id : String
  pub drawn : List Segment
  pub legend : List (List ℕ)
  pub summary : List ℕ
  pub notice : Option String

abbrev pub under_pressure : String
under_pressure = "Not accepting work — the machine is under memory pressure"

unfoldable pub notice_of : DeviceView → Option String
notice_of d =
    if not d.schedulable
    then some (if leb MemoryPressure.warn d.pressure then under_pressure else "Not accepting work")
    else none

module _ (js : Ratio) where
  unfoldable pub percent : ℕ → ℕ → List ℕ
  percent part whole =
      if eqb whole 0 then codes "0%" else print_hundredths (js.of_parts part whole) ++ codes "%"

  abbrev pub segment : DeviceView → Key → Segment
  segment d key = record {
    key = key;
    data_bytes = print (bytes_of d key);
    title = codes (label key) ++ codes ": " ++ format_bytes (bytes_of d key);
    width = percent (bytes_of d key) d.total_bytes;
  }

  unfoldable pub device_memory_bar : DeviceView → Bar
  device_memory_bar d = record {
    name = d.name;
    local_id = d.local_id;
    drawn = map (segment d) segments;
    legend =
        map (λ key. codes (label key) ++ codes " · " ++ format_bytes (bytes_of d key)) segments;
    summary =
        format_bytes d.available_bytes
        ++ codes " available of "
        ++ format_bytes d.total_bytes
        ++ codes " total";
    notice = notice_of d;
  }
