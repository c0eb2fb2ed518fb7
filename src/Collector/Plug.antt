-- ===== src/Collector/Plug.antt =====
-- collector/plug.go: the collector of plugs.
use kasa_exporter.Base.{Option, some, List, ◌++◌}
use kasa_exporter.Base.Text.{codes}
use kasa_exporter.Reading.{Reading, plug}
use kasa_exporter.Collector.{
  emit_energy, bool_value, update_kind, emit_gauge, labels_for, Sample, new_energy_metrics,
  device_labels, EnergyMetrics, new_desc, Desc,
}
use kasa_exporter.Floats.{Arithmetic}
use kasa_exporter.Registry.{Outcome}
use kasa_exporter.Errors.{Error, Result}

-- `plugCollector`
pub record PlugCollector : Type 0 where
  pub on : Desc
  pub energy : EnergyMetrics

-- `NewPlugCollector`
abbrev pub new_plug_collector : PlugCollector
new_plug_collector = record {
  on =
      new_desc (codes "plug") (codes "on") (codes "Whether the plug is switched on (1) or off (0).")
        device_labels;
  energy = new_energy_metrics;
}

module _ {F : Type 0} (ops : Arithmetic F) (c : PlugCollector) where
  -- The body of the loop of `Update`.
  abbrev pub emit_plug : Reading F → List (Sample F)
  emit_plug reading =
      let labels = labels_for reading in
      emit_gauge (some c.on) (bool_value ops reading.on) labels
      ++ emit_energy ops c.energy reading.energy labels

  -- `Update`
  abbrev pub plug_update : Result (List (Outcome F)) → List (Sample F) × Option Error
  plug_update snapshot = update_kind ops plug emit_plug snapshot
