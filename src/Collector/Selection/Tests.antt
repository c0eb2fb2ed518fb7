-- ===== src/Collector/Selection/Tests.antt =====
-- Two collectors, of which one is enabled.
use mathlib.Core.Option
use kasa_exporter.Collector.Selection.Toggles.{
  states_of, holds, new_toggles, new_toggles_lem, parsed_into, toggle_tag,
}
use kasa_exporter.Collector.Selection.Registered.{Made, registered}
use kasa_exporter.Collector.Selection.Registered.OptedIn.{opted_in, opted_in_lem}
use kasa_exporter.Base.{
  Bool, ◌&&◌, false, List, ◌≡◌, refl, true, false, some, [], ◌∷◌, All, is_some,
}
use kasa_exporter.Base.Text.{Text, codes, ◌==ₜ◌, contains}
use kasa_exporter.Base.Dict.{Dict, lookup, insert}
use kasa_exporter.Errors.{ok}
use kasa_exporter.Collector.Selection.{
  Selection, new_kasa_collector, check_filters, build_collectors,
}
use kasa_exporter.Collector.Selection.States.{PathElement}
use kasa_exporter.Collector.Selection.States.Forced.{set_by}
use kasa_exporter.Collector.Selection.Chosen.{chosen, new_kasa_collector-chosen, filters_enabled}

abbrev two_collectors : Selection Text
two_collectors = record {
  enabled = (codes "plug", true) ∷ (codes "hub", false) ∷ [];
  forced = codes "plug" ∷ [];
  initiated = [];
}

abbrev plug_only : Dict Text
plug_only = (codes "plug", codes "plug") ∷ []

built : (new_kasa_collector (λ name. ok name) two_collectors (codes "plug" ∷ [])).0 ≡ ok plug_only
unfolding new_kasa_collector check_filters build_collectors lookup insert contains ◌==ₜ◌
built = refl

new_kasa_collector-chosen_example :
    is_some (lookup (codes "plug") plug_only)
    ≡ chosen (codes "plug" ∷ []) two_collectors.enabled (codes "plug")
new_kasa_collector-chosen_example =
    new_kasa_collector-chosen (λ name. ok name) two_collectors (codes "plug" ∷ []) plug_only
      (codes "plug") built

filters_enabled_example : All (λ f. lookup f two_collectors.enabled ≡ some true) (codes "plug" ∷ [])
filters_enabled_example =
    filters_enabled (λ name. ok name) two_collectors (codes "plug" ∷ []) plug_only built

-- --collector.plug, and a flag of something else.
abbrev command_line : List PathElement
command_line =
    record { flag = some (codes "collector.plug"); resolved = false }
    ∷ record { flag = some (codes "log.level"); resolved = false }
    ∷ []

abbrev unforced : Selection Text
unforced = record two_collectors { forced = [] }

-- The flag of the plugs was given, and that of the hubs was not.
opted_in_lem_example :
    (out : Dict Made) × ((opted_in (λ name. true) command_line).0 ≡ ok out)
    × (is_some (lookup (codes "plug") out) ≡ (
        is_some (lookup (codes "plug") registered.enabled)
        && (set_by (codes "plug") command_line && true)))
opted_in_lem_example = opted_in_lem (λ name. true) command_line (codes "plug")

abbrev defaults : Dict Bool
defaults = (codes "plug", true) ∷ (codes "hub", true) ∷ []

-- --collector.hub --no-collector.plug
abbrev only_hub : (tag : Text) → Bool
only_hub tag = tag ==ₜ toggle_tag (codes "hub") true

new_toggles_lem_example :
    (lookup
        (codes "hub")
        (states_of (new_toggles defaults unforced).0 (new_toggles defaults unforced).1)
      ≡ lookup (codes "hub") unforced.enabled)
    × (lookup (codes "hub") (parsed_into only_hub (new_toggles defaults unforced) unforced).enabled
        ≡ Option.map
            (λ _. only_hub (toggle_tag (codes "hub") (holds (lookup (codes "hub") defaults))))
            (lookup (codes "hub") unforced.enabled))
new_toggles_lem_example = new_toggles_lem defaults unforced only_hub (codes "hub")

hub_tag :
    toggle_tag (codes "hub") true
    ≡ codes
        "name:\"collector.hub\" negatable:\"\" default:\"true\" help:\"Enable the hub collector (default: enabled).\""
unfolding toggle_tag
hub_tag = refl
