-- ===== src/Collector/Bulb.antt =====
-- collector/bulb.go: the collector of bulbs.
use kasa_exporter.Base.{true, Option, List, ◌++◌}
use kasa_exporter.Base.Text.{codes}
use kasa_exporter.Reading.{Reading, bulb}
use kasa_exporter.Collector.{
  labels_for, update_kind, emit_energy, emit_light, Sample, new_energy_metrics, EnergyMetrics,
  new_light_metrics, LightMetrics,
}
use kasa_exporter.Floats.{Arithmetic}
use kasa_exporter.Registry.{Outcome}
use kasa_exporter.Errors.{Error, Result}

-- `bulbCollector`
pub record BulbCollector : Type 0 where
  pub light : LightMetrics
  pub energy : EnergyMetrics

-- `NewBulbCollector`
abbrev pub new_bulb_collector : BulbCollector
new_bulb_collector = record {
  light = new_light_metrics (codes "bulb") (codes "bulb") true;
  energy = new_energy_metrics;
}

module _ {F : Type 0} (ops : Arithmetic F) (c : BulbCollector) where
  -- The body of the loop of `Update`.
  abbrev pub emit_bulb : Reading F → List (Sample F)
  emit_bulb reading =
      emit_light ops c.light reading ++ emit_energy ops c.energy reading.energy (labels_for reading)

  -- `Update`
  abbrev pub bulb_update : Result (List (Outcome F)) → List (Sample F) × Option Error
  bulb_update snapshot = update_kind ops bulb emit_bulb snapshot
