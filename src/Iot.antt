-- ===== src/Iot.antt =====
-- kasa/iot.go: the data of the IOT dialect and their conversion to the common reading. The dialogue
-- with a device is in `Iot.Querier`.
pub mod Querier
pub mod Units
pub mod Tests
use kasa_exporter.Base.{
  or_else, is_some, Bool, false, not, ◌||◌, Option, none, some, List, [], ◌∷◌, ◌==◌, if◌then◌else◌,
}
use kasa_exporter.Base.Text.{Text}
use kasa_exporter.Base.Int.{ℤ, pos, negsuc}
use kasa_exporter.Floats.{Arithmetic}
use kasa_exporter.Reading.{Energy, Reading, device_type_for, Protocol}

pub record IotChild (F : Type 0) : Type 0 where
  pub id : Text
  pub alias : Text
  pub state : Option ℤ
  pub on_time : Option F

pub record LightSettings (F : Type 0) : Type 0 where
  pub on_off : Option ℤ
  pub hue : Option F
  pub saturation : Option F
  pub color_temp : Option F
  pub brightness : Option F

-- `iotLightState`: the settings, with the `dft_on_state` that may be nested in them.
pub data IotLightState (F : Type 0) : Type 0 where
  alone : LightSettings F → IotLightState F
  with_default : LightSettings F → IotLightState F → IotLightState F

pub record IotSysinfo (F : Type 0) : Type 0 where
  pub sw_ver : Text
  pub hw_ver : Text
  pub model : Text
  pub device_id : Text
  pub alias : Text
  pub mac : Text
  pub mic_mac : Text
  pub type_name : Text
  pub mic_type : Text
  pub feature : Text
  pub rssi : Option F
  pub relay_state : Option ℤ
  pub on_time : Option F
  pub led_off : Option ℤ
  pub updating : Option ℤ
  pub brightness : Option F
  pub length : Option F
  pub light_state : Option (IotLightState F)
  pub children : List (IotChild F)
  pub err_code : Option ℤ

pub record IotEmeter (F : Type 0) : Type 0 where
  pub current_ma : Option F
  pub current : Option F
  pub voltage_mv : Option F
  pub voltage : Option F
  pub power_mw : Option F
  pub power : Option F
  pub total_wh : Option F
  pub total : Option F
  pub energy_wh : Option F
  pub energy : Option F
  pub err_code : Option ℤ

pub record IotEmeterResponse (F : Type 0) : Type 0 where
  pub get_realtime : Option (IotEmeter F)
  pub err_code : Option ℤ

-- `iotResponse`: a missing "system" and a "system" with no "get_sysinfo" are treated alike.
pub record IotResponse (F : Type 0) : Type 0 where
  pub get_sysinfo : Option (IotSysinfo F)
  pub emeter : Option (IotEmeterResponse F)
  pub smartlife_emeter : Option (IotEmeterResponse F)

abbrev pub is_zero : ℤ → Bool
is_zero (pos n) = n == 0
is_zero (negsuc n) = false

-- `code != nil && *code != 0`
abbrev pub is_failure : Option ℤ → Bool
is_failure none = false
is_failure (some code) = not (is_zero code)

-- `if v != nil { out = boolean(*v != 0) }`
abbrev pub flag : Option ℤ → Option Bool
flag none = none
flag (some v) = some (not (is_zero v))

module _ {F : Type 0} where
  -- `s.mac()` and `s.family()`
  abbrev pub mac_of : IotSysinfo F → Text
  mac_of s = elim s.mac [ [] ↦ s.mic_mac | c ∷ r ↦ c ∷ r ]

  abbrev pub family_of : IotSysinfo F → Text
  family_of s = elim s.mic_type [ [] ↦ s.type_name | c ∷ r ↦ c ∷ r ]

  abbrev pub settings : IotLightState F → LightSettings F
  settings (alone l) = l
  settings (with_default l d) = l

  -- The settings to report: those that the light comes back to, while it is off.
  unfoldable pub active_settings : IotLightState F → LightSettings F
  active_settings (alone l) = l
  active_settings (with_default l d) = elim l.on_off [
    | none ↦ l
    | some v ↦ if is_zero v then settings d else l
  ]

  unfoldable pub apply_light_state : Reading F → IotLightState F → Reading F
  unfolding active_settings
  apply_light_state reading state =
      let active = active_settings state in
      record reading {
        on = or_else (flag (settings state).on_off) reading.on;
        hue = active.hue;
        saturation = active.saturation;
        color_temp_kelvin = active.color_temp;
        brightness = or_else active.brightness reading.brightness;
      }

  abbrev pub apply_light : Reading F → Option (IotLightState F) → Reading F
  apply_light reading none = reading
  apply_light reading (some state) = apply_light_state reading state

  unfoldable pub iot_reading : IotSysinfo F → Reading F
  iot_reading s =
      apply_light
        (record {
          host = [];
          alias = s.alias;
          model = s.model;
          device_id = s.device_id;
          hardware_version = s.hw_ver;
          firmware_version = s.sw_ver;
          mac = mac_of s;
          device_type = device_type_for s.model (family_of s);
          protocol = Protocol.iot;
          on = flag s.relay_state;
          led_on = elim s.led_off [ none ↦ none | some v ↦ some (is_zero v) ];
          overheated = none;
          updating = flag s.updating;
          uptime_seconds = s.on_time;
          rssi = s.rssi;
          signal_level = none;
          brightness = s.brightness;
          color_temp_kelvin = none;
          hue = none;
          saturation = none;
          light_strip_length = s.length;
          energy = none;
          sockets = [];
          children = [];
        })
        s.light_state

  -- `m.realtime()`, on a pointer that may be nil.
  unfoldable pub realtime : Option (IotEmeterResponse F) → Option (IotEmeter F)
  realtime none = none
  realtime (some m) = if is_failure m.err_code then none else m.get_realtime

  -- The device's own answer, under either module name.
  abbrev pub either_realtime : IotResponse F → Option (IotEmeter F)
  either_realtime r = or_else (realtime r.emeter) (realtime r.smartlife_emeter)

  -- `if out.PowerWatts == nil && …`: nothing usable was reported.
  unfoldable pub usable : Energy F → Option (Energy F)
  usable e =
      if is_some e.power_watts
        || (is_some e.voltage_volts || (is_some e.current_amperes || is_some e.total_kwh))
      then some e
      else none

  -- `addFloat`
  abbrev pub add_float : Arithmetic F → Option F → Option F → Option F
  add_float fl total none = total
  add_float fl none (some v) = some v
  add_float fl (some t) (some v) = some (fl.plus t v)

  -- `addEnergy`, for a reading that is there.
  unfoldable pub add_energy : Arithmetic F → Energy F → Energy F → Energy F
  add_energy fl total add = record {
    power_watts = add_float fl total.power_watts add.power_watts;
    current_amperes = add_float fl total.current_amperes add.current_amperes;
    total_kwh = add_float fl total.total_kwh add.total_kwh;
    voltage_volts = or_else total.voltage_volts add.voltage_volts;
  }

  -- One part of a thousand: milliwatts to watts, watt-hours to kilowatt-hours.
  abbrev pub thousandth : Arithmetic F → Option F → Option F
  thousandth fl none = none
  thousandth fl (some v) = some (fl.over v (fl.of_ℕ 1000))

  -- The four switches of `energy`, each the first spelling present.
  unfoldable pub normalise : Arithmetic F → IotEmeter F → Energy F
  normalise fl e = record {
    power_watts = or_else (thousandth fl e.power_mw) e.power;
    voltage_volts = or_else (thousandth fl e.voltage_mv) e.voltage;
    current_amperes = or_else (thousandth fl e.current_ma) e.current;
    total_kwh =
        or_else (thousandth fl e.total_wh)
          (or_else e.total (or_else (thousandth fl e.energy_wh) e.energy));
  }

  -- `e.energy()`, on a pointer that may be nil.
  unfoldable pub energy_of : Arithmetic F → Option (IotEmeter F) → Option (Energy F)
  unfolding usable normalise
  energy_of fl none = none
  energy_of fl (some e) = if is_failure e.err_code then none else usable (normalise fl e)
