-- ===== src/Smart/Tests.antt =====
-- A strip with two outlets, and a device without a meter behind a transport that echoes the request.
use kasa_exporter.Base.{
  is_some, ◌||◌, ◌&&◌, ℕ, ◌+◌, ◌≤◌, ◌≡◌, refl, true, none, some, List, [], ◌∷◌, ltb,
}
use kasa_exporter.Base.Text.{Text, codes, ◌==ₜ◌, contains}
use kasa_exporter.Base.Int.{ℤ, pos, negsuc}
use kasa_exporter.Base.Dict.{insert, Dict, lookup}
use kasa_exporter.Errors.{Result, ok, err}
use kasa_exporter.Floats.{integers}
use kasa_exporter.Reading.{Reading}
use kasa_exporter.Iot.Querier.Tests.{echo}
use kasa_exporter.Iot.Querier.Emeter.{counting}
use kasa_exporter.Smart.{SmartDeviceInfo, Names, smart_reading, apply_children, is_hub}
use kasa_exporter.Smart.Sockets.{Reports, children_reported}
use kasa_exporter.Smart.Querier.{
  smart_query, smart_batch, SmartQuerier, SmartJson, SmartBatchResponse, smart_read, methods_of,
  answered_methods, get_device_info, get_energy_usage,
}
use kasa_exporter.Smart.Querier.Requests.{smart_read_answered, smart_read_requests}

-- Names are ASCII and are not encoded.
abbrev pub plain_names : Names
plain_names = record {
  decode_base64 = λ s. some s;
  runes = λ s. some s;
  is_control = λ r. ltb r 32;
}

abbrev outlet : Text → SmartDeviceInfo ℤ
outlet name = record {
  device_id = name;
  model = [];
  type_name = codes "SMART.TAPOPLUG";
  hw_ver = [];
  fw_ver = [];
  mac = [];
  nickname = name;
  device_on = some true;
  on_time = none;
  overheated = none;
  rssi = none;
  signal_level = none;
  brightness = none;
  color_temp = none;
  hue = none;
  saturation = none;
  led_off = none;
  position = none;
  category = [];
  status = [];
  at_low_battery = none;
  battery_percentage = none;
  current_temp = none;
  current_humidity = none;
  temp_unit = [];
}

abbrev outlets : List (SmartDeviceInfo ℤ)
outlets = outlet (codes "a") ∷ outlet (codes "b") ∷ []

children_reported_example :
    Reports plain_names integers
      (smart_reading plain_names integers (outlet []))
      outlets
      (is_hub (smart_reading plain_names integers (outlet [])).device_type)
      (apply_children plain_names integers
        (smart_reading plain_names integers (outlet []))
        (some outlets))
children_reported_example =
    children_reported plain_names integers (smart_reading plain_names integers (outlet []))
      (outlet (codes "a")) (outlet (codes "b") ∷ [])

abbrev answers : List SmartBatchResponse
answers =
    record { method = get_device_info; error_code = pos 0; result = codes "{}" }
    ∷ record { method = get_energy_usage; error_code = negsuc 0; result = [] }
    ∷ []

-- A device that answers a batch with its information alone.
abbrev pub without_meter : SmartJson ℤ
without_meter = record {
  marshal = λ request. ok [];
  envelope = λ body. some (record { error_code = pos 0; result = body });
  responses = λ result. some answers;
  device_info = λ result. some (outlet []);
  energy_usage = λ result. none;
  current_power = λ result. none;
  child_list = λ result. none;
}

abbrev untried : {S : Type 0} → S → SmartQuerier S
untried s = record {
  transport = s;
  request_id = 0;
  wants_energy = true;
  wants_power = true;
  wants_children = true;
}

smart_read_requests_example :
    (smart_read (counting echo) without_meter plain_names integers (untried (0, 0))).1.transport.1
    ≤ 0 + 2
smart_read_requests_example =
    smart_read_requests echo without_meter plain_names integers (untried (0, 0))

abbrev untried_echo : SmartQuerier ℕ
untried_echo = untried 0

abbrev told_results : Dict Text
told_results = (get_device_info, codes "{}") ∷ []

batch_runs :
    (smart_batch echo without_meter untried_echo (methods_of untried_echo)).0 ≡ ok told_results
unfolding smart_batch smart_query answered_methods insert ◌==ₜ◌
batch_runs = refl

abbrev told : Result (Reading ℤ) → Reading ℤ
told (ok reading) = reading
told (err e) = smart_reading plain_names integers (outlet [])

read_runs :
    (smart_read echo without_meter plain_names integers untried_echo).0
    ≡ ok (told (smart_read echo without_meter plain_names integers untried_echo).0)
unfolding smart_read smart_batch smart_query answered_methods insert lookup ◌==ₜ◌
read_runs = refl

smart_read_answered_example :
    contains
      (methods_of (smart_read echo without_meter plain_names integers untried_echo).1)
      get_energy_usage
    ≡ (contains (methods_of untried_echo) get_energy_usage
        && (get_device_info ==ₜ get_energy_usage || is_some (lookup get_energy_usage told_results)))
smart_read_answered_example =
    smart_read_answered echo without_meter plain_names integers untried_echo told_results
      (told (smart_read echo without_meter plain_names integers untried_echo).0) get_energy_usage
      batch_runs read_runs
