-- ===== src/Web/Tests.antt =====
-- Counts, ages and bars as they are shown, and instances of the theorems.
use llm_hub.Base.{
  ℕ, ◌+◌, ◌-◌, ◌*◌, ◌/◌, ◌%◌, ◌^◌, ◌≡◌, ◌≢◌, ◌≤◌, ◌<◌, ◌⊎◌, ◌↔◌, refl, String, none, some, nth,
  List, [], ◌∷◌, ◌++◌,
}
use llm_hub.Base.Int.{ℤ, pos, pos_part, ◌-ℤ◌}
use llm_hub.Base.Text.{codes}
use llm_hub.Number.{print, print_onto, print_hundredths}
use llm_hub.Web.Format.{units, scale, format_bytes, ago, format_relative_time}
use llm_hub.Fixture.{device, idle, node}
use llm_hub.Memory.{compute_budget, limits_of, budget_of, raw_of, foreign_of, is_schedulable}
use llm_hub.Memory.Exact.{exact}
use llm_hub.Proto.{NodeView}
use llm_hub.Schema.{NodeRow}
use llm_hub.Wire.{memory_input, view_of, value_or, device_view, device_views, node_view}
use llm_hub.Web.Bar.{Ratio, percent}
use llm_hub.Web.Card.{node_card}
use llm_hub.Web.Card.Seen.{node_card_lem}
use llm_hub.Web.Format.Bytes.{IsNearest, format_bytes_lem}
use llm_hub.Web.Format.Age.{SaysAge}

format_bytes_test :
    (format_bytes 0 ≡ codes "0 B")
    × (format_bytes 1024 ≡ codes "1.0 KiB")
    × (format_bytes (24 * 1024 ^ 3) ≡ codes "24.0 GiB")
    × (format_bytes (3 * 512 * 1024 ^ 2) ≡ codes "1.5 GiB")
unfolding format_bytes scale print print_onto
format_bytes_test = (refl, refl, refl, refl)

-- One byte below the next unit.
rounded_up_test : format_bytes (1024 ^ 2 - 1) ≡ codes "1024.0 KiB"
unfolding format_bytes scale print print_onto
rounded_up_test = refl

format_bytes_lem_example :
    (1536 < 1024 → format_bytes 1536 ≡ print 1536 ++ codes " B")
    × (1024 ≤ 1536
        → (k t : ℕ) × (unit : String) × ((1 ≤ k)
            × (k ≤ 4)
            × (1024 ^ k ≤ 1536)
            × ((k ≡ 4) ⊎ (1536 < 1024 * 1024 ^ k))
            × (nth k units ≡ some unit))
          × (format_bytes 1536 ≡ (print (t / 10) ++ b'.' ∷ print (t % 10)) ++ b' ' ∷ codes unit)
          × IsNearest 1536 (1024 ^ k) t)
format_bytes_lem_example = format_bytes_lem 1536

abbrev later : ℤ
later = pos 400000

format_relative_time_test :
    (format_relative_time (pos 397000) later ≡ codes "3s ago")
    × (format_relative_time (pos 280000) later ≡ codes "2m ago")
    × (format_relative_time (pos 0) later ≡ codes "never")
    × (format_relative_time (pos 500000) later ≡ codes "0s ago")
unfolding format_relative_time ago ◌-ℤ◌ print print_onto
format_relative_time_test = (refl, refl, refl, refl)

abbrev nearest : ℕ → ℕ → ℕ
nearest part whole = (20000 * part + whole) / (2 * whole)

-- Exact division, rounded to the nearest.
abbrev ratio : Ratio
ratio = record { of_parts = nearest }

percent_test :
    (percent ratio 6 24 ≡ codes "25%")
    × (percent ratio 5 0 ≡ codes "0%")
    × (percent ratio 1 3 ≡ codes "33.33%")
    × (percent ratio 1 1000 ≡ codes "0.1%")
unfolding percent print_hundredths print print_onto
percent_test = (refl, refl, refl, refl)

idle_test : device_view exact (device "gpu-1") ≡ some idle
unfolding device_view view_of memory_input value_or compute_budget limits_of budget_of raw_of
    foreign_of is_schedulable
idle_test = refl

abbrev seen_node : NodeRow
seen_node = record node { last_seen_at = some (pos 100000) }

abbrev view : NodeView
view = record {
  id = "n1";
  name = "box";
  status = "offline";
  last_seen_unix_ms = pos 100000;
  host = some node.host;
  devices = idle ∷ [];
}

view_test : node_view exact seen_node (device "gpu-1" ∷ []) ≡ some view
unfolding node_view device_views
view_test = rw idle_test refl

node_card_lem_example :
    let card = node_card ratio view later in
    (card.status ≡ "offline")
    × ((card.bars ≡ none) ↔ (device "gpu-1" ∷ [] ≡ []))
    × (some (pos 100000) ≡ none → card.seen ≡ codes "seen never")
    × ((t : ℤ)
        → some (pos 100000) ≡ some t
        → t ≢ pos 0
        → (text : List ℕ) × (card.seen ≡ codes "seen " ++ text)
          × SaysAge text (pos_part (later -ℤ t)))
node_card_lem_example =
    node_card_lem ratio exact seen_node (device "gpu-1" ∷ []) later view view_test
