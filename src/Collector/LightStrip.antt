-- ===== src/Collector/LightStrip.antt =====
-- collector/lightstrip.go: the collector of light strips.
use kasa_exporter.Base.{true, Option, some, List, ◌++◌}
use kasa_exporter.Base.Text.{codes}
use kasa_exporter.Reading.{Reading, light_strip}
use kasa_exporter.Collector.{
  emit_energy, emit_gauge, update_kind, emit_light, labels_for, new_energy_metrics, Sample,
  device_labels, EnergyMetrics, new_desc, Desc, new_light_metrics, LightMetrics,
}
use kasa_exporter.Floats.{Arithmetic}
use kasa_exporter.Registry.{Outcome}
use kasa_exporter.Errors.{Error, Result}

-- `lightStripCollector`
pub record LightStripCollector : Type 0 where
  pub light : LightMetrics
  pub segments : Desc  -- `length`
  pub energy : EnergyMetrics

-- `NewLightStripCollector`
abbrev pub new_light_strip_collector : LightStripCollector
new_light_strip_collector = record {
  light = new_light_metrics (codes "lightstrip") (codes "light strip") true;
  segments =
      new_desc (codes "lightstrip") (codes "length")
        (codes "Number of addressable segments the light strip reports.") device_labels;
  energy = new_energy_metrics;
}

module _ {F : Type 0} (ops : Arithmetic F) (c : LightStripCollector) where
  -- The body of the loop of `Update`.
  abbrev pub emit_light_strip : Reading F → List (Sample F)
  emit_light_strip reading =
      let labels = labels_for reading in
      emit_light ops c.light reading
      ++ (emit_gauge (some c.segments) reading.light_strip_length labels
          ++ emit_energy ops c.energy reading.energy labels)

  -- `Update`
  abbrev pub light_strip_update : Result (List (Outcome F)) → List (Sample F) × Option Error
  light_strip_update snapshot = update_kind ops light_strip emit_light_strip snapshot
