-- ===== src/Collector/Selection/Registered.antt =====
-- The collectors that the `init` functions of collector/*.go register, in the order of the files.
pub mod OptedIn
use kasa_exporter.Base.{Bool, true, some, none, [], ◌∷◌}
use kasa_exporter.Base.Text.{Text, codes}
use kasa_exporter.Base.Dict.{Dict, lookup}
use kasa_exporter.Errors.{Result, ok, err, missing_collector}
use kasa_exporter.Collector.Selection.{Selection}
use kasa_exporter.Collector.Selection.States.{register_collector}
use kasa_exporter.Collector.Kinds.{
  Kind, plugs, strips, bulbs, light_strips, dimmers, wall_switches, hubs,
}

-- What the factories make: the collector of all devices, or that of one kind.
pub data Made : Type 0 where
  device_made : Made
  kind_made : Kind → Made

abbrev default_enabled : Bool
default_enabled = true

-- The `init` of each file.
abbrev pub init_bulb : Selection Made → Selection Made
init_bulb s = register_collector (codes "bulb") default_enabled s

abbrev pub init_device : Selection Made → Selection Made
init_device s = register_collector (codes "device") default_enabled s

abbrev pub init_dimmer : Selection Made → Selection Made
init_dimmer s = register_collector (codes "dimmer") default_enabled s

abbrev pub init_hub : Selection Made → Selection Made
init_hub s = register_collector (codes "hub") default_enabled s

abbrev pub init_light_strip : Selection Made → Selection Made
init_light_strip s = register_collector (codes "lightstrip") default_enabled s

abbrev pub init_plug : Selection Made → Selection Made
init_plug s = register_collector (codes "plug") default_enabled s

abbrev pub init_strip : Selection Made → Selection Made
init_strip s = register_collector (codes "strip") default_enabled s

abbrev pub init_wall_switch : Selection Made → Selection Made
init_wall_switch s = register_collector (codes "wallswitch") default_enabled s

-- The state of the package before its `init` functions, and after them.
abbrev unregistered : Selection Made
unregistered = record { enabled = []; forced = []; initiated = [] }

unfoldable pub registered : Selection Made
registered = init_wall_switch (
    init_strip (
      init_plug (init_light_strip (init_hub (init_dimmer (init_device (init_bulb unregistered)))))))

-- The factories that the same calls register.
abbrev factories : Dict Made
factories =
    (codes "bulb", kind_made bulbs)
    ∷ (codes "device", device_made)
    ∷ (codes "dimmer", kind_made dimmers)
    ∷ (codes "hub", kind_made hubs)
    ∷ (codes "lightstrip", kind_made light_strips)
    ∷ (codes "plug", kind_made plugs)
    ∷ (codes "strip", kind_made strips)
    ∷ (codes "wallswitch", kind_made wall_switches)
    ∷ []

-- A collector without a factory, which would panic, is never asked for: both are registered together.
unfoldable pub factory : Text → Result Made
factory name = elim (lookup name factories) [
  | none ↦ err (missing_collector name)
  | some made ↦ ok made
]
