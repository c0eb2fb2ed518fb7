-- ===== src/Collector/Dimmer.antt =====
-- collector/dimmer.go: the collector of dimmers.
use kasa_exporter.Base.{false, Option, List, ◌++◌}
use kasa_exporter.Base.Text.{codes}
use kasa_exporter.Reading.{Reading, dimmer}
use kasa_exporter.Collector.{
  labels_for, update_kind, emit_energy, emit_light, Sample, new_energy_metrics, EnergyMetrics,
  new_light_metrics, LightMetrics,
}
use kasa_exporter.Floats.{Arithmetic}
use kasa_exporter.Registry.{Outcome}
use kasa_exporter.Errors.{Error, Result}

-- `dimmerCollector`
pub record DimmerCollector : Type 0 where
  pub light : LightMetrics
  pub energy : EnergyMetrics

-- `NewDimmerCollector`
abbrev pub new_dimmer_collector : DimmerCollector
new_dimmer_collector = record {
  light = new_light_metrics (codes "dimmer") (codes "dimmer") false;
  energy = new_energy_metrics;
}

module _ {F : Type 0} (ops : Arithmetic F) (c : DimmerCollector) where
  -- The body of the loop of `Update`.
  abbrev pub emit_dimmer : Reading F → List (Sample F)
  emit_dimmer reading =
      emit_light ops c.light reading ++ emit_energy ops c.energy reading.energy (labels_for reading)

  -- `Update`
  abbrev pub dimmer_update : Result (List (Outcome F)) → List (Sample F) × Option Error
  dimmer_update snapshot = update_kind ops dimmer emit_dimmer snapshot
