-- ===== src/Web/Card/Seen.antt =====
-- What a machine's card says of the stored node.
use llm_hub.Base.{
  ℕ, ◌≡◌, ◌≢◌, ◌↔◌, refl, ap, ◌++◌, none, some, List, [], ◌∷◌, sym, ◌∙◌, map, arith, Option-cases,
  inl, inr,
}
use llm_hub.Base.Int.{ℤ, pos, pos_part, ◌-ℤ◌}
use llm_hub.Base.Text.{codes}
use llm_hub.Memory.{Floats}
use llm_hub.Proto.{NodeView, DeviceView}
use llm_hub.Schema.{NodeRow, DeviceRow}
use llm_hub.Wire.{device_view, device_views, node_view, time_or_zero}
use llm_hub.Web.Bar.{Ratio, device_memory_bar}
use llm_hub.Web.Card.{node_card, some_bars}
use llm_hub.Web.Format.{format_relative_time}
use llm_hub.Web.Format.Age.{SaysAge, format_relative_time_lem}

views-none_iff :
    (floats : Floats) (rows : List DeviceRow) (vs : List DeviceView)
    → device_views floats rows ≡ some vs
    → (vs ≡ []) ↔ (rows ≡ [])
unfolding device_views
views-none_iff floats [] vs e = (λ h. refl, λ h. ground (arith, e))
views-none_iff floats (d ∷ ds) vs e = elim (Option-cases (device_view floats d)) [
  | inl failed ↦ absurd (ground (arith, e, failed))
  | inr (v, shown) ↦ elim (Option-cases (device_views floats ds)) [
    | inl failed ↦ absurd (ground (arith, e, failed, shown))
    | inr (rest, others) ↦
        let same : v ∷ rest ≡ vs = ground (arith, e, shown, others) in
        (λ h. absurd (cc (same, h)), λ h. absurd (cc h))
  ]
]

node_view-shows :
    (floats : Floats) (n : NodeRow) (rows : List DeviceRow) (v : NodeView)
    → node_view floats n rows ≡ some v
    → (device_views floats rows ≡ some v.devices)
      × (v.status ≡ n.status)
      × (v.last_seen_unix_ms ≡ time_or_zero n.last_seen_at)
unfolding node_view
node_view-shows floats n rows v e = elim (Option-cases (device_views floats rows)) [
  | inl failed ↦ absurd (ground (arith, failed, e))
  | inr (ds, found) ↦
      let same : record {
        id = n.id;
        name = n.name;
        status = n.status;
        last_seen_unix_ms = time_or_zero n.last_seen_at;
        host = some n.host;
        devices = ds;
      }
          ≡ v =
        ground (arith, e, found) in
      rw (← same) (found, refl, refl)
]

some_bars-none_iff :
    (js : Ratio) (vs : List DeviceView)
    → (some_bars (map (device_memory_bar js) vs) ≡ none) ↔ (vs ≡ [])
some_bars-none_iff js [] = (λ h. refl, λ h. refl)
some_bars-none_iff js (v ∷ vs) = (λ h. absurd (cc h), λ h. absurd (cc h))

-- A stored node's card shows its status, says that no devices are reported exactly when it has
-- none, says never for a node that was not seen, and else an age in seconds, minutes, hours or
-- days, of which the first three stay below 60, 60 and 24, that is off by at most half a second,
-- 30.5 seconds, 30 minutes and 30.5 seconds, and 12 hours, 30 minutes and 30.5 seconds; a node
-- seen at the time zero is left out.
pub node_card_lem :
    (js : Ratio) (floats : Floats) (n : NodeRow) (rows : List DeviceRow) (now : ℤ) (v : NodeView)
    → node_view floats n rows ≡ some v
    → let card = node_card js v now in
      (card.status ≡ n.status)
      × ((card.bars ≡ none) ↔ (rows ≡ []))
      × (n.last_seen_at ≡ none → card.seen ≡ codes "seen never")
      × ((t : ℤ)
          → n.last_seen_at ≡ some t
          → t ≢ pos 0
          → (text : List ℕ) × (card.seen ≡ codes "seen " ++ text)
            × SaysAge text (pos_part (now -ℤ t)))
unfolding node_card
node_card_lem js floats n rows now v e =
    let (found, status, seen) = node_view-shows floats n rows v e in
    let bars = some_bars-none_iff js v.devices in
    let views = views-none_iff floats rows v.devices found in
    let (never, aged) = format_relative_time_lem v.last_seen_unix_ms now in
    (
      status,
      (λ h. views.0 (bars.0 h), λ h. bars.1 (views.1 h)),
      λ h. ap (λ text. codes "seen " ++ text) (never (seen ∙ ap time_or_zero h)),
      λ t h nonzero.
          let at : v.last_seen_unix_ms ≡ t = seen ∙ ap time_or_zero h in
          (
            format_relative_time v.last_seen_unix_ms now,
            refl,
            rw (← at) (aged (λ z. nonzero (sym at ∙ z))),
          ),
    )
