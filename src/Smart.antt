-- ===== src/Smart.antt =====
-- kasa/smart.go: the data of the SMART dialect and their conversion to the common reading. The dialogue
-- with a device is in `Smart.Querier`. A raw JSON message is its text.
pub mod Querier
pub mod Sockets
pub mod Tests
use kasa_exporter.Base.{
  or_else, ℕ, zero, suc, ◌+◌, ◌-◌, ◌*◌, ◌/◌, ◌%◌, ◌^◌, ◌≤◌, ◌<◌, String, ◌≡◌, refl, sym, ap, ◌∙◌,
  subst, ◌≢◌, ◌↔◌, ◌⊎◌, inl, inr, Bool, true, false, not, ◌&&◌, ◌||◌, Option, none, some, List, [],
  ◌∷◌, ◌++◌, map, arith, ltb, leb, ◌==◌, if◌then◌else◌, ltb→lt, lt→ltb, leb→le, ==_iff, Bool-cases,
  Option-cases, length, get_elem?, set, get_or, take, drop, replicate, length-append,
  take-append-drop, length-take, length-drop, length-replicate, length-map, All, Any, take_all,
  drop_all, take-append, drop-append, is_some, All-append, All-take, All-drop,
}
use kasa_exporter.Base.Text.{
  Text, codes, ◌==ₜ◌, ==ₜ_iff, ==ₜ_refl, contains, upper_byte, to_upper, has_prefix, has_infix,
}
use kasa_exporter.Base.Int.{
  ℤ, pos, negsuc, pos_part, neg_part, sub_ℕ, ◌+ℤ◌, ◌-ℤ◌, ◌*ℤ◌, ◌≤ℤ◌, ltb_ℤ,
}
use kasa_exporter.Base.Decimal.{itoa, itoa_ℤ}
use kasa_exporter.Floats.{Arithmetic}
use kasa_exporter.Reading.{
  DeviceType, strip, hub, Protocol, Reading, Energy, Socket, Child, device_type_for,
}
use kasa_exporter.Reading
use kasa_exporter.Iot.{is_zero, thousandth}

pub record SmartDeviceInfo (F : Type 0) : Type 0 where
  pub device_id : Text
  pub model : Text
  pub type_name : Text
  pub hw_ver : Text
  pub fw_ver : Text
  pub mac : Text
  pub nickname : Text
  pub device_on : Option Bool
  pub on_time : Option F
  pub overheated : Option Bool
  pub rssi : Option F
  pub signal_level : Option F
  pub brightness : Option F
  pub color_temp : Option F
  pub hue : Option F
  pub saturation : Option F
  pub led_off : Option ℤ
  pub position : Option ℤ
  pub category : Text
  pub status : Text
  pub at_low_battery : Option Bool
  pub battery_percentage : Option F
  pub current_temp : Option F
  pub current_humidity : Option F
  pub temp_unit : Text

-- `smartEnergyUsage`, less the daily figure, which is not read.
pub record SmartEnergyUsage (F : Type 0) : Type 0 where
  pub current_power_mw : Option F
  pub month_energy_wh : Option F

-- encoding/base64, unicode/utf8 and unicode: the decoding of a name, the characters of a byte string
-- where it is valid UTF-8, and which of them are control characters.
pub record Names : Type 0 where
  pub decode_base64 : Text → Option Text
  pub runes : Text → Option (List ℕ)
  pub is_control : ℕ → Bool

module _ (names : Names) where
  abbrev pub no_control : List ℕ → Bool
  no_control [] = true
  no_control (r ∷ rs) = not (names.is_control r) && no_control rs

  abbrev pub valid_text : Option (List ℕ) → Bool
  valid_text none = false
  valid_text (some rs) = no_control rs

  -- `isPrintable`
  unfoldable pub is_printable : Text → Bool
  is_printable b = not (length b == 0) && valid_text (names.runes b)

  abbrev pub readable : Text → Option Text → Text
  readable nickname none = nickname
  readable nickname (some decoded) = if is_printable decoded then decoded else nickname

  -- `alias()`
  unfoldable pub smart_alias : {F : Type 0} → SmartDeviceInfo F → Text
  smart_alias i =
      if length i.nickname == 0 then [] else readable i.nickname (names.decode_base64 i.nickname)

abbrev pub is_hub : DeviceType → Bool
is_hub hub = true
is_hub _ = false

-- strings.EqualFold with an ASCII word that has neither a k nor an s, which alone have other
-- characters that fold to them.
abbrev pub equal_fold : Text → Text → Bool
equal_fold s word = to_upper s ==ₜ to_upper word

-- n + 1 on an int.
abbrev pub next_int : ℤ → ℤ
next_int (pos n) = if n == 2 ^ 63 - 1 then negsuc n else pos (n + 1)
next_int (negsuc n) = pos 1 -ℤ pos (n + 1)

module _ {F : Type 0} (names : Names) (fl : Arithmetic F) where
  abbrev pub socket_id : ℕ → Option ℤ → Text
  socket_id i none = itoa (i + 1)
  socket_id i (some position) = itoa_ℤ (next_int position)

  -- One round of the loop of `smartSockets`, with the index of the child.
  pub smart_socket : ℕ → SmartDeviceInfo F → Socket F
  smart_socket i child = record {
    id = socket_id i child.position;
    alias = smart_alias names child;
    on = child.device_on;
    uptime_seconds = child.on_time;
    energy = none;
  }

  -- `smartSockets`, from index `i` on.
  pub smart_sockets : ℕ → List (SmartDeviceInfo F) → List (Socket F)
  unfolding smart_socket
  smart_sockets i [] = []
  smart_sockets i (child ∷ children) = smart_socket i child ∷ smart_sockets (i + 1) children

  abbrev pub celsius : Text → Option F → Option F
  celsius unit none = none
  celsius unit (some temp) =
      if equal_fold unit (codes "fahrenheit")
      then some (fl.over (fl.times (fl.minus temp (fl.of_ℕ 32)) (fl.of_ℕ 5)) (fl.of_ℕ 9))
      else some temp

  -- One round of the loop of `smartChildren`.
  pub smart_child : SmartDeviceInfo F → Child F
  smart_child child = record {
    id = child.device_id;
    alias = smart_alias names child;
    model = child.model;
    category = child.category;
    online =
        if length child.status == 0 then none else some (equal_fold child.status (codes "online"));
    battery_percent = child.battery_percentage;
    battery_low = child.at_low_battery;
    temperature_celsius = celsius child.temp_unit child.current_temp;
    humidity_percent = child.current_humidity;
    signal_level = child.signal_level;
    rssi = child.rssi;
  }

  -- `smartChildren`
  pub smart_children : List (SmartDeviceInfo F) → List (Child F)
  unfolding smart_child
  smart_children = map smart_child

  -- `smartReading`
  pub smart_reading : SmartDeviceInfo F → Reading F
  smart_reading i = record {
    host = [];
    alias = smart_alias names i;
    model = i.model;
    device_id = i.device_id;
    hardware_version = i.hw_ver;
    firmware_version = i.fw_ver;
    mac = i.mac;
    device_type = device_type_for i.model i.type_name;
    protocol = Protocol.smart;
    on = i.device_on;
    led_on = elim i.led_off [ none ↦ none | some v ↦ some (is_zero v) ];
    overheated = i.overheated;
    updating = none;
    uptime_seconds = i.on_time;
    rssi = i.rssi;
    signal_level = i.signal_level;
    brightness = i.brightness;
    color_temp_kelvin = i.color_temp;
    hue = i.hue;
    saturation = i.saturation;
    light_strip_length = none;
    energy = none;
    sockets = [];
    children = [];
  }

  abbrev pub with_children : Reading F → List (SmartDeviceInfo F) → Reading F
  with_children reading list =
      if is_hub reading.device_type
      then record reading { children = smart_children list }
      else record reading { device_type = strip; sockets = smart_sockets 0 list }

  -- `applyChildren`, of a list that was decoded.
  pub apply_children : Reading F → Option (List (SmartDeviceInfo F)) → Reading F
  unfolding smart_sockets smart_children
  apply_children reading none = reading
  apply_children reading (some []) = reading
  apply_children reading (some (child ∷ children)) = with_children reading (child ∷ children)

  -- What the reply to get_energy_usage says: milliwatts and watt-hours.
  abbrev pub usage_energy : Option (SmartEnergyUsage F) → Energy F
  usage_energy none = record {
    power_watts = none;
    voltage_volts = none;
    current_amperes = none;
    total_kwh = none;
  }
  usage_energy (some usage) = record {
    power_watts = thousandth fl usage.current_power_mw;
    voltage_volts = none;
    current_amperes = none;
    total_kwh = thousandth fl usage.month_energy_wh;
  }

  abbrev pub reported : Energy F → Option (Energy F)
  reported e = if is_some e.power_watts || is_some e.total_kwh then some e else none

  -- The energy of `readEnergy`, of the two replies where they were sent and decoded: get_current_power,
  -- in watts, goes before the other.
  pub merge_energy : Option (SmartEnergyUsage F) → (watts : Option F) → Option (Energy F)
  merge_energy usage watts =
      let out = usage_energy usage in
      reported (record out { power_watts = or_else watts out.power_watts })
