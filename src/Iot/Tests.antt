-- ===== src/Iot/Tests.antt =====
-- Concrete answers of a meter and of a bulb.
use kasa_exporter.Base.{is_some, not, ◌&&◌, or_else, false, ◌≡◌, refl, none, some, []}
use kasa_exporter.Base.Text.{codes}
use kasa_exporter.Base.Int.{ℤ, pos}
use kasa_exporter.Floats.{integers, divide}
use kasa_exporter.Iot.{
  IotEmeter, LightSettings, IotSysinfo, energy_of, thousandth, is_failure, usable, normalise,
}
use kasa_exporter.Iot.Units.{reports, values, energy_units}

-- 15 W at 230 V and 5 kWh on a device that reports in thousandths, and the same on one that does not.
abbrev pub in_milli : IotEmeter ℤ
in_milli = record {
  current_ma = none;
  current = none;
  voltage_mv = some (pos 230_000);
  voltage = none;
  power_mw = some (pos 15_000);
  power = none;
  total_wh = some (pos 5_000);
  total = none;
  energy_wh = none;
  energy = none;
  err_code = some (pos 0);
}

abbrev in_whole : IotEmeter ℤ
in_whole = record {
  current_ma = none;
  current = none;
  voltage_mv = none;
  voltage = thousandth integers (some (pos 230_000));
  power_mw = none;
  power = thousandth integers (some (pos 15_000));
  total_wh = none;
  total = thousandth integers (some (pos 5_000));
  energy_wh = none;
  energy = none;
  err_code = some (pos 0);
}

-- 15 W at 230 V.
normalised :
    energy_of integers (some in_milli)
    ≡ some (record {
      power_watts = some (pos 15);
      voltage_volts = some (pos 230);
      current_amperes = none;
      total_kwh = some (pos 5);
    })
unfolding energy_of usable normalise divide
normalised = refl

energy_units_example :
    (energy_of integers (some in_milli) ≡ energy_of integers (some in_whole))
    × (is_some (energy_of integers (some in_milli))
        ≡ (not (is_failure in_milli.err_code) && reports in_milli))
    × (is_failure in_whole.err_code ≡ false
        → values (energy_of integers (some in_whole)) ≡ (
          in_whole.power,
          in_whole.voltage,
          in_whole.current,
          or_else in_whole.total in_whole.energy,
        ))
energy_units_example =
    energy_units integers in_milli in_whole refl refl refl refl refl refl refl refl refl refl refl
      refl refl refl refl refl

-- A lamp that is off, and comes back at 40 %.
abbrev settings_off : LightSettings ℤ
settings_off = record {
  on_off = some (pos 0);
  hue = none;
  saturation = none;
  color_temp = none;
  brightness = none;
}

abbrev settings_back : LightSettings ℤ
settings_back = record {
  on_off = none;
  hue = some (pos 120);
  saturation = some (pos 75);
  color_temp = some (pos 0);
  brightness = some (pos 40);
}

abbrev pub plain_sysinfo : IotSysinfo ℤ
plain_sysinfo = record {
  sw_ver = [];
  hw_ver = [];
  model = codes "KL130";
  device_id = [];
  alias = codes "Lamp";
  mac = [];
  mic_mac = [];
  type_name = [];
  mic_type = [];
  feature = [];
  rssi = none;
  relay_state = none;
  on_time = none;
  led_off = none;
  updating = none;
  brightness = none;
  length = none;
  light_state = none;
  children = [];
  err_code = none;
}
