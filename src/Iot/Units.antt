-- ===== src/Iot/Units.antt =====
-- The conversions of kasa/iot.go: energy in SI units, and the light settings of a bulb that is off.
use mathlib.Core.Option
use kasa_exporter.Base.{
  Option, refl, or_else, ◌≡◌, Bool, false, not, ◌&&◌, ◌||◌, none, some, arith, is_some,
}
use kasa_exporter.Base.Int.{pos}
use kasa_exporter.Floats.{Arithmetic}
use kasa_exporter.Reading.{Energy, Reading}
use kasa_exporter.Iot.{
  IotEmeter, IotLightState, LightSettings, with_default, settings, is_failure, apply_light_state,
  energy_of, thousandth,
}

-- Any of the ten spellings of the four quantities.
abbrev pub reports : {F : Type 0} → IotEmeter F → Bool
reports e =
    is_some e.power_mw
    || is_some e.power
    || (is_some e.voltage_mv || is_some e.voltage || (is_some e.current_ma || is_some e.current))
    || (is_some e.total_wh || is_some e.total || (is_some e.energy_wh || is_some e.energy))

-- An answer yields an energy reading exactly if it carries no error code other than zero and at least
-- one of the ten quantities; no partial reading is lost and none is made up.
pub energy_present :
    {F : Type 0} (fl : Arithmetic F) (e : IotEmeter F)
    → is_some (energy_of fl (some e)) ≡ (not (is_failure e.err_code) && reports e)
unfolding energy_of
energy_present fl e = ground arith

-- The quotient of what is reported by a thousand.
abbrev pub kilo : {F : Type 0} → Arithmetic F → Option F → Option F
kilo fl = Option.map (λ v. fl.over v (fl.of_ℕ 1000))

kilo_lem : {F : Type 0} (fl : Arithmetic F) (o : Option F) → thousandth fl o ≡ kilo fl o
kilo_lem fl none = refl
kilo_lem fl (some v) = refl

-- The values of a reading.
abbrev pub values : {F : Type 0} → Option (Energy F) → Option F × Option F × Option F × Option F
values none = (none, none, none, none)
values (some e) = (e.power_watts, e.voltage_volts, e.current_amperes, e.total_kwh)

-- A device that reports in thousandths, the counter under either of its names, and one that reports the
-- quotients of those numbers by 1000, have the same energy reading. There is one exactly if the answer
-- carries no error code other than zero and at least one of the quantities, and it has the second
-- device's own values.
pub energy_units :
    {F : Type 0} (fl : Arithmetic F) (milli whole : IotEmeter F)
    → milli.power ≡ none
    → milli.voltage ≡ none
    → milli.current ≡ none
    → milli.total ≡ none
    → milli.energy ≡ none
    → whole.power_mw ≡ none
    → whole.voltage_mv ≡ none
    → whole.current_ma ≡ none
    → whole.total_wh ≡ none
    → whole.energy_wh ≡ none
    → whole.power ≡ kilo fl milli.power_mw
    → whole.voltage ≡ kilo fl milli.voltage_mv
    → whole.current ≡ kilo fl milli.current_ma
    → whole.total ≡ kilo fl milli.total_wh
    → whole.energy ≡ kilo fl milli.energy_wh
    → whole.err_code ≡ milli.err_code
    → (energy_of fl (some milli) ≡ energy_of fl (some whole))
      × (is_some (energy_of fl (some milli)) ≡ (not (is_failure milli.err_code) && reports milli))
      × (is_failure whole.err_code ≡ false
          → values (energy_of fl (some whole))
            ≡ (whole.power, whole.voltage, whole.current, or_else whole.total whole.energy))
unfolding energy_of
energy_units fl milli whole a b c d e g h i j k l m n o p q =
    let kp = kilo_lem fl milli.power_mw in
    let kv = kilo_lem fl milli.voltage_mv in
    let kc = kilo_lem fl milli.current_ma in
    let kt = kilo_lem fl milli.total_wh in
    let ke = kilo_lem fl milli.energy_wh in
    (ground arith, energy_present fl milli, λ sound. ground arith)

-- While a bulb is off its reading shows the settings that it will come back to, brightness included
-- where those name one, and it is still reported as off.
pub light_off_settings :
    {F : Type 0} (reading : Reading F) (now : LightSettings F) (later : IotLightState F)
    → now.on_off ≡ some (pos 0)
    → ((apply_light_state reading (with_default now later)).on ≡ some false)
      × ((apply_light_state reading (with_default now later)).hue ≡ (settings later).hue)
      × ((apply_light_state reading (with_default now later)).saturation
          ≡ (settings later).saturation)
      × ((apply_light_state reading (with_default now later)).color_temp_kelvin
          ≡ (settings later).color_temp)
      × ((apply_light_state reading (with_default now later)).brightness
          ≡ or_else (settings later).brightness reading.brightness)
unfolding apply_light_state
light_off_settings reading now later off = ground arith
