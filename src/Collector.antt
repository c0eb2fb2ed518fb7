-- ===== src/Collector.antt =====
-- collector/metrics.go: what a scrape emits. The channel is the list of the
-- samples in the order they are sent; the logging is left out, and a descriptor
-- keeps its subsystem and its name apart, since prometheus.BuildFQName only joins them.
pub mod Devices
pub mod Plug
pub mod Strip
pub mod Bulb
pub mod LightStrip
pub mod Dimmer
pub mod WallSwitch
pub mod Hub
pub mod Kinds
pub mod Selection
use kasa_exporter.Base.{Bool, true, false, Option, none, some, List, [], ◌∷◌, ◌++◌, if◌then◌else◌}
use kasa_exporter.Base.Text.{Text, codes, ◌==ₜ◌}
use kasa_exporter.Errors.{Error, Result, ok, err, no_data}
use kasa_exporter.Floats.{Arithmetic}
use kasa_exporter.Reading.{
  DeviceType, plug, strip, bulb, light_strip, dimmer, wall_switch, hub, unknown, Protocol, iot,
  smart, Reading, Energy,
}
use kasa_exporter.Registry.{Outcome}

-- prometheus.Desc
pub record Desc : Type 0 where
  pub subsystem : Text
  pub metric : Text
  pub help : Text
  pub label_names : List Text

-- prometheus.Metric: a gauge, or a counter, with the values of the labels.
pub record Sample (F : Type 0) : Type 0 where
  pub desc : Desc
  pub is_counter : Bool
  pub value : F
  pub labels : List Text

-- prometheus.NewDesc over prometheus.BuildFQName.
abbrev pub new_desc : (part name help : Text) (label_names : List Text) → Desc
new_desc part name help label_names = record {
  subsystem = part;
  metric = name;
  help = help;
  label_names = label_names;
}

abbrev pub device_labels : List Text
device_labels = codes "host" ∷ codes "alias" ∷ []

abbrev pub socket_labels : List Text
socket_labels = device_labels ++ (codes "socket" ∷ codes "socket_alias" ∷ [])

-- The values of type DeviceType.
abbrev pub type_text : DeviceType → Text
type_text plug = codes "plug"
type_text strip = codes "strip"
type_text bulb = codes "bulb"
type_text light_strip = codes "lightstrip"
type_text dimmer = codes "dimmer"
type_text wall_switch = codes "wallswitch"
type_text hub = codes "hub"
type_text unknown = codes "unknown"

abbrev pub same_type : DeviceType → DeviceType → Bool
same_type a b = type_text a ==ₜ type_text b

-- `aliasOf`
unfoldable pub alias_label : {F : Type 0} → Reading F → Text
alias_label reading = if reading.alias ==ₜ [] then reading.host else reading.alias

-- `labelsFor`
abbrev pub labels_for : {F : Type 0} → Reading F → List Text
labels_for reading = reading.host ∷ alias_label reading ∷ []

module _ {F : Type 0} where
  -- The reading that a result holds, before those of the later ones, where it is of the type.
  abbrev pub with_reading : DeviceType → Option (Reading F) → List (Reading F) → List (Reading F)
  with_reading device_type none readings = readings
  with_reading device_type (some reading) readings =
      if same_type reading.device_type device_type then reading ∷ readings else readings

  -- `readingsOfType`
  pub readings_of_type : List (Outcome F) → DeviceType → List (Reading F) × Bool
  readings_of_type [] device_type = ([], false)
  readings_of_type (result ∷ results) device_type =
      (with_reading device_type result.reading (readings_of_type results device_type).0, true)

  -- `emitGauge`
  pub emit_gauge : Option Desc → Option F → List Text → List (Sample F)
  emit_gauge none value labels = []
  emit_gauge (some desc) none labels = []
  emit_gauge (some desc) (some value) labels =
      record { desc = desc; is_counter = false; value = value; labels = labels } ∷ []

  -- `emitCounter`
  pub emit_counter : Option Desc → Option F → List Text → List (Sample F)
  emit_counter none value labels = []
  emit_counter (some desc) none labels = []
  emit_counter (some desc) (some value) labels =
      record { desc = desc; is_counter = true; value = value; labels = labels } ∷ []

  -- ch <- prometheus.MustNewConstMetric(desc, prometheus.GaugeValue, value, labels...)
  abbrev pub const_gauge : Desc → F → List Text → List (Sample F)
  const_gauge desc value labels = emit_gauge (some desc) (some value) labels

  -- `boolValue`
  abbrev pub bool_value : Arithmetic F → Option Bool → Option F
  bool_value ops none = none
  bool_value ops (some true) = some (ops.of_ℕ 1)
  bool_value ops (some false) = some (ops.of_ℕ 0)

-- `energyMetrics` and `newEnergyMetrics`
pub record EnergyMetrics : Type 0 where
  pub power : Desc
  pub voltage : Desc
  pub current : Desc
  pub energy : Desc

abbrev pub new_energy_metrics : EnergyMetrics
new_energy_metrics = record {
  power =
      new_desc [] (codes "power_watts") (codes "Instantaneous power draw of the device in watts.")
        device_labels;
  voltage =
      new_desc [] (codes "voltage_volts") (codes "Line voltage measured by the device in volts.")
        device_labels;
  current =
      new_desc [] (codes "current_amperes") (codes "Current drawn through the device in amperes.")
        device_labels;
  energy =
      new_desc [] (codes "energy_kilowatt_hours_total")
        (codes "Cumulative energy the device has metered in kilowatt-hours.") device_labels;
}

-- `lightMetrics` and `newLightMetrics`; a nil descriptor is `none`.
pub record LightMetrics : Type 0 where
  pub light_on : Option Desc
  pub brightness : Option Desc
  pub color_temp : Option Desc
  pub hue : Option Desc
  pub saturation : Option Desc

abbrev pub light_desc : (part name before noun after : Text) → Option Desc
light_desc part name before noun after =
    some (new_desc part name (before ++ (noun ++ after)) device_labels)

-- What hardware without colour leaves out.
abbrev pub if_color : Bool → Option Desc → Option Desc
if_color true desc = desc
if_color false desc = none

abbrev pub new_light_metrics : (subsystem noun : Text) (with_color : Bool) → LightMetrics
new_light_metrics subsystem noun with_color = record {
  light_on =
      light_desc subsystem (codes "on") (codes "Whether the ") noun
        (codes " is switched on (1) or off (0).");
  brightness =
      light_desc subsystem (codes "brightness_percent") (codes "Brightness the ") noun
        (codes " is set to, as a percentage.");
  color_temp = if_color with_color (
      light_desc subsystem (codes "color_temperature_kelvin") (codes "Colour temperature the ") noun
        (codes " is set to, in kelvin. Zero while it is showing a colour rather than white."));
  hue = if_color with_color (
      light_desc subsystem (codes "hue_degrees") (codes "Hue the ") noun
        (codes " is set to, in degrees."));
  saturation = if_color with_color (
      light_desc subsystem (codes "saturation_percent") (codes "Saturation the ") noun
        (codes " is set to, as a percentage."));
}

module _ {F : Type 0} (ops : Arithmetic F) where
  -- `emit` of energyMetrics
  pub emit_energy : EnergyMetrics → Option (Energy F) → List Text → List (Sample F)
  emit_energy m none labels = []
  emit_energy m (some energy) labels =
      emit_gauge (some m.power) energy.power_watts labels
      ++ (emit_gauge (some m.voltage) energy.voltage_volts labels
          ++ (emit_gauge (some m.current) energy.current_amperes labels
              ++ emit_counter (some m.energy) energy.total_kwh labels))

  -- `emit` of lightMetrics
  pub emit_light : LightMetrics → Reading F → List (Sample F)
  emit_light m reading =
      let labels = labels_for reading in
      emit_gauge m.light_on (bool_value ops reading.on) labels
      ++ (emit_gauge m.brightness reading.brightness labels
          ++ (emit_gauge m.color_temp reading.color_temp_kelvin labels
              ++ (emit_gauge m.hue reading.hue labels
                  ++ emit_gauge m.saturation reading.saturation labels)))

  -- The loop of an `Update` over the readings of one kind.
  abbrev pub emit_each : {A : Type 0} → (A → List (Sample F)) → List A → List (Sample F)
  emit_each emit [] = []
  emit_each emit (reading ∷ readings) = emit reading ++ emit_each emit readings

  -- Nothing but an error where the scrape saw no devices at all.
  abbrev pub answered : Bool → List (Sample F) → List (Sample F) × Option Error
  answered true samples = (samples, none)
  answered false samples = ([], some no_data)

  -- The shape that the `Update` of every kind has: the snapshot, the readings of the kind, what is
  -- emitted for each, and the error that is returned.
  abbrev pub update_kind :
      DeviceType
      → (Reading F → List (Sample F))
      → Result (List (Outcome F))
      → List (Sample F) × Option Error
  update_kind device_type emit (err e) = ([], some e)
  update_kind device_type emit (ok results) =
      let (readings, any_devices) = readings_of_type results device_type in
      answered any_devices (emit_each emit readings)
