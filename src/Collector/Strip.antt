-- ===== src/Collector/Strip.antt =====
-- collector/strip.go: the collector of power strips.
use kasa_exporter.Base.{Option, none, some, List, [], ◌∷◌, ◌++◌, length}
use kasa_exporter.Base.Text.{Text, codes}
use kasa_exporter.Reading.{Socket, Energy, Reading, strip}
use kasa_exporter.Collector.{
  emit_each, emit_energy, const_gauge, update_kind, bool_value, emit_counter, labels_for,
  emit_gauge, new_energy_metrics, Sample, socket_labels, device_labels, EnergyMetrics, new_desc,
  Desc,
}
use kasa_exporter.Floats.{Arithmetic}
use kasa_exporter.Registry.{Outcome}
use kasa_exporter.Errors.{Error, Result}

-- `stripCollector`
pub record StripCollector : Type 0 where
  pub on : Desc
  pub sockets : Desc
  pub socket_on : Desc
  pub socket_uptime : Desc
  pub socket_power : Desc
  pub socket_voltage : Desc
  pub socket_current : Desc
  pub socket_energy : Desc
  pub energy : EnergyMetrics

-- `NewStripCollector`
abbrev pub new_strip_collector : StripCollector
new_strip_collector = record {
  on =
      new_desc (codes "strip") (codes "on")
        (codes
          "Whether the strip as a whole is switched on (1) or off (0). Not reported by strips that only switch per outlet.")
        device_labels;
  sockets =
      new_desc (codes "strip") (codes "sockets") (codes "Number of outlets the strip has.")
        device_labels;
  socket_on =
      new_desc (codes "strip") (codes "socket_on")
        (codes "Whether an individual outlet is switched on (1) or off (0).") socket_labels;
  socket_uptime =
      new_desc (codes "strip") (codes "socket_uptime_seconds")
        (codes "Seconds an individual outlet has been switched on.") socket_labels;
  socket_power =
      new_desc (codes "strip") (codes "socket_power_watts")
        (codes "Instantaneous power drawn through one outlet, in watts.") socket_labels;
  socket_voltage =
      new_desc (codes "strip") (codes "socket_voltage_volts")
        (codes "Line voltage measured at one outlet, in volts.") socket_labels;
  socket_current =
      new_desc (codes "strip") (codes "socket_current_amperes")
        (codes "Current drawn through one outlet, in amperes.") socket_labels;
  socket_energy =
      new_desc (codes "strip") (codes "socket_energy_kilowatt_hours_total")
        (codes "Cumulative energy metered at one outlet, in kilowatt-hours.") socket_labels;
  energy = new_energy_metrics;
}

module _ {F : Type 0} (ops : Arithmetic F) (c : StripCollector) where
  abbrev pub emit_socket_energy : List Text → Option (Energy F) → List (Sample F)
  emit_socket_energy values none = []
  emit_socket_energy values (some energy) =
      emit_gauge (some c.socket_power) energy.power_watts values
      ++ (emit_gauge (some c.socket_voltage) energy.voltage_volts values
          ++ (emit_gauge (some c.socket_current) energy.current_amperes values
              ++ emit_counter (some c.socket_energy) energy.total_kwh values))

  -- The body of the loop over the outlets.
  unfoldable pub emit_socket : List Text → Socket F → List (Sample F)
  emit_socket labels socket =
      let values = labels ++ (socket.id ∷ socket.alias ∷ []) in
      emit_gauge (some c.socket_on) (bool_value ops socket.on) values
      ++ (emit_gauge (some c.socket_uptime) socket.uptime_seconds values
          ++ emit_socket_energy values socket.energy)

  -- The body of the loop of `Update`.
  abbrev pub emit_strip : Reading F → List (Sample F)
  emit_strip reading =
      let labels = labels_for reading in
      emit_gauge (some c.on) (bool_value ops reading.on) labels
      ++ (const_gauge c.sockets (ops.of_ℕ (length reading.sockets)) labels
          ++ (emit_energy ops c.energy reading.energy labels
              ++ emit_each ops (emit_socket labels) reading.sockets))

  -- `Update`
  abbrev pub strip_update : Result (List (Outcome F)) → List (Sample F) × Option Error
  strip_update snapshot = update_kind ops strip emit_strip snapshot
