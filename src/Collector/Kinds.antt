-- ===== src/Collector/Kinds.antt =====
-- The kinds of collectors of collector/*.go, and `execute` of collector/collector.go around the `Update`
-- of one. The collectors run in parallel there; the order of the list stands for the one in which they
-- happen to send.
pub mod Labels
pub mod Fleet
pub mod Scrape
pub mod Tests
use kasa_exporter.Collector.Dimmer.{new_dimmer_collector}
use kasa_exporter.Base.{
  ℕ, zero, suc, ◌+◌, ◌-◌, ◌*◌, ◌/◌, ◌%◌, ◌^◌, ◌≤◌, ◌<◌, String, ◌≡◌, refl, sym, ap, ◌∙◌, subst, ◌≢◌,
  ◌↔◌, ◌⊎◌, inl, inr, Bool, true, false, not, ◌&&◌, ◌||◌, Option, none, some, List, [], ◌∷◌, ◌++◌,
  map, arith, ltb, leb, ◌==◌, if◌then◌else◌, ltb→lt, lt→ltb, leb→le, ==_iff, Bool-cases,
  Option-cases, length, get_elem?, set, get_or, take, drop, replicate, length-append,
  take-append-drop, length-take, length-drop, length-replicate, length-map, All, Any, take_all,
  drop_all, take-append, drop-append, is_some, All-append, All-take, All-drop,
}
use kasa_exporter.Base.Text.{Text, codes}
use kasa_exporter.Reading.{plug, strip, bulb, light_strip, dimmer, wall_switch, hub}
use kasa_exporter.Floats.{Arithmetic}
use kasa_exporter.Collector.{const_gauge, Sample, new_desc, Desc}
use kasa_exporter.Registry.{Outcome}
use kasa_exporter.Collector.Plug.{new_plug_collector, plug_update}
use kasa_exporter.Collector.Strip.{new_strip_collector, strip_update}
use kasa_exporter.Collector.Bulb.{new_bulb_collector, bulb_update}
use kasa_exporter.Collector.LightStrip.{new_light_strip_collector, light_strip_update}
use kasa_exporter.Collector.Dimmer.{dimmer_update}
use kasa_exporter.Collector.WallSwitch.{new_wall_switch_collector, wall_switch_update}
use kasa_exporter.Collector.Hub.{new_hub_collector, hub_update}
use kasa_exporter.Errors.{Error, Result, err}

-- The collectors of the kinds, by the name that they are registered under, with their `Update`.
pub data Kind : Type 0 where
  plugs strips bulbs light_strips dimmers wall_switches hubs : Kind

module _ {F : Type 0} (ops : Arithmetic F) where
  -- The `Update` of what the factory of a kind makes.
  unfoldable pub kind_update : Kind → Result (List (Outcome F)) → List (Sample F) × Option Error
  kind_update plugs snapshot = plug_update ops new_plug_collector snapshot
  kind_update strips snapshot = strip_update ops new_strip_collector snapshot
  kind_update bulbs snapshot = bulb_update ops new_bulb_collector snapshot
  kind_update light_strips snapshot = light_strip_update ops new_light_strip_collector snapshot
  kind_update dimmers snapshot = dimmer_update ops new_dimmer_collector snapshot
  kind_update wall_switches snapshot = wall_switch_update ops new_wall_switch_collector snapshot
  kind_update hubs snapshot = hub_update ops new_hub_collector snapshot

  abbrev pub duration_desc : Desc
  duration_desc =
      new_desc (codes "scrape") (codes "collector_duration_seconds")
        (codes "kasa_exporter: Duration of a collector scrape.") (codes "collector" ∷ [])

  abbrev pub success_desc : Desc
  success_desc =
      new_desc (codes "scrape") (codes "collector_success")
        (codes "kasa_exporter: Whether a collector succeeded.") (codes "collector" ∷ [])

  abbrev pub success : Option Error → F
  success none = ops.of_ℕ 1
  success (some e) = ops.of_ℕ 0

  -- `execute`, with the seconds that the clock measures.
  pub execute : (name : Text) (duration : F) → List (Sample F) × Option Error → List (Sample F)
  execute name duration (samples, error) =
      samples
      ++ (const_gauge duration_desc duration (name ∷ [])
          ++ const_gauge success_desc (success error) (name ∷ []))
