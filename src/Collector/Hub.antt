-- ===== src/Collector/Hub.antt =====
-- collector/hub.go: the collector of hubs and the sensors that are paired to them.
use kasa_exporter.Base.{Option, some, List, [], ◌∷◌, ◌++◌, length}
use kasa_exporter.Base.Text.{Text, codes}
use kasa_exporter.Reading.{Reading, Child, hub}
use kasa_exporter.Collector.{
  bool_value, update_kind, emit_each, emit_gauge, labels_for, const_gauge, Sample, device_labels,
  new_desc, Desc,
}
use kasa_exporter.Floats.{Arithmetic}
use kasa_exporter.Registry.{Outcome}
use kasa_exporter.Errors.{Error, Result}

abbrev pub child_labels : List Text
child_labels = device_labels ++ (codes "child_id" ∷ codes "child_alias" ∷ [])

-- `hubCollector`
pub record HubCollector : Type 0 where
  pub children : Desc
  pub child_info : Desc
  pub child_up : Desc
  pub battery : Desc
  pub battery_low : Desc
  pub temperature : Desc
  pub humidity : Desc
  pub signal : Desc
  pub signal_level : Desc

-- `NewHubCollector`
abbrev pub new_hub_collector : HubCollector
new_hub_collector = record {
  children =
      new_desc (codes "hub") (codes "children") (codes "Number of devices paired to the hub.")
        device_labels;
  child_info =
      new_desc (codes "hub") (codes "child_info")
        (codes "Static information about a device paired to the hub. Always 1; read the labels.")
        (child_labels ++ (codes "model" ∷ codes "category" ∷ []));
  child_up =
      new_desc (codes "hub") (codes "child_up")
        (codes "Whether the hub reports a paired device as online (1) or offline (0).")
        child_labels;
  battery =
      new_desc (codes "hub") (codes "child_battery_percent")
        (codes "Battery charge of a paired device, as a percentage.") child_labels;
  battery_low =
      new_desc (codes "hub") (codes "child_battery_low")
        (codes "Whether a paired device reports its battery as low (1 = yes, 0 = no).")
        child_labels;
  temperature =
      new_desc (codes "hub") (codes "child_temperature_celsius")
        (codes "Temperature a paired sensor reports, in degrees Celsius.") child_labels;
  humidity =
      new_desc (codes "hub") (codes "child_humidity_percent")
        (codes "Relative humidity a paired sensor reports, as a percentage.") child_labels;
  signal =
      new_desc (codes "hub") (codes "child_signal_strength_dbm")
        (codes "Signal strength between the hub and a paired device, in dBm.") child_labels;
  signal_level =
      new_desc (codes "hub") (codes "child_signal_level")
        (codes "Signal quality between the hub and a paired device, from 0 (worst) to 3 (best).")
        child_labels;
}

module _ {F : Type 0} (ops : Arithmetic F) (c : HubCollector) where
  -- The body of the loop over the paired sensors.
  unfoldable pub emit_child : List Text → Child F → List (Sample F)
  emit_child labels child =
      let values = labels ++ (child.id ∷ child.alias ∷ []) in
      const_gauge c.child_info (ops.of_ℕ 1) (values ++ (child.model ∷ child.category ∷ []))
      ++ (emit_gauge (some c.child_up) (bool_value ops child.online) values
          ++ (emit_gauge (some c.battery) child.battery_percent values
              ++ (emit_gauge (some c.battery_low) (bool_value ops child.battery_low) values
                  ++ (emit_gauge (some c.temperature) child.temperature_celsius values
                      ++ (emit_gauge (some c.humidity) child.humidity_percent values
                          ++ (emit_gauge (some c.signal) child.rssi values
                              ++ emit_gauge (some c.signal_level) child.signal_level values))))))

  -- The body of the loop of `Update`.
  abbrev pub emit_hub : Reading F → List (Sample F)
  emit_hub reading =
      let labels = labels_for reading in
      const_gauge c.children (ops.of_ℕ (length reading.children)) labels
      ++ emit_each ops (emit_child labels) reading.children

  -- `Update`
  abbrev pub hub_update : Result (List (Outcome F)) → List (Sample F) × Option Error
  hub_update snapshot = update_kind ops hub emit_hub snapshot
