-- ===== src/Collector/WallSwitch.antt =====
-- collector/wallswitch.go: the collector of wall switchs.
use kasa_exporter.Base.{Option, some, List, ◌++◌}
use kasa_exporter.Base.Text.{codes}
use kasa_exporter.Reading.{Reading, wall_switch}
use kasa_exporter.Collector.{
  emit_energy, bool_value, update_kind, emit_gauge, labels_for, Sample, new_energy_metrics,
  device_labels, EnergyMetrics, new_desc, Desc,
}
use kasa_exporter.Floats.{Arithmetic}
use kasa_exporter.Registry.{Outcome}
use kasa_exporter.Errors.{Error, Result}

-- `wallSwitchCollector`
pub record WallSwitchCollector : Type 0 where
  pub on : Desc
  pub energy : EnergyMetrics

-- `NewWallSwitchCollector`
abbrev pub new_wall_switch_collector : WallSwitchCollector
new_wall_switch_collector = record {
  on =
      new_desc (codes "wallswitch") (codes "on")
        (codes "Whether the wall switch is switched on (1) or off (0).") device_labels;
  energy = new_energy_metrics;
}

module _ {F : Type 0} (ops : Arithmetic F) (c : WallSwitchCollector) where
  -- The body of the loop of `Update`.
  abbrev pub emit_wall_switch : Reading F → List (Sample F)
  emit_wall_switch reading =
      let labels = labels_for reading in
      emit_gauge (some c.on) (bool_value ops reading.on) labels
      ++ emit_energy ops c.energy reading.energy labels

  -- `Update`
  abbrev pub wall_switch_update : Result (List (Outcome F)) → List (Sample F) × Option Error
  wall_switch_update snapshot = update_kind ops wall_switch emit_wall_switch snapshot
