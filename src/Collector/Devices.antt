-- ===== src/Collector/Devices.antt =====
-- collector/device.go: the collector of what all devices have in common.
use kasa_exporter.Base.{ℕ, ◌+◌, Option, none, some, List, [], ◌∷◌, ◌++◌, if◌then◌else◌}
use kasa_exporter.Base.Text.{Text, codes}
use kasa_exporter.Reading.{protocol_text, Reading, DeviceType}
use kasa_exporter.Collector.{
  emit_each, bool_value, emit_gauge, type_text, alias_label, const_gauge, labels_for, Sample,
  same_type, device_labels, new_desc, Desc,
}
use kasa_exporter.Floats.{Arithmetic}
use kasa_exporter.Registry.{Outcome}
use kasa_exporter.Errors.{no_data, ok, err, Error, Result, err}

abbrev info_labels : List Text
info_labels =
    device_labels
    ++ (codes "model"
        ∷ codes "device_id"
        ∷ codes "hardware_version"
        ∷ codes "firmware_version"
        ∷ codes "mac"
        ∷ codes "type"
        ∷ codes "protocol"
        ∷ [])

-- `deviceCollector`
pub record DeviceCollector : Type 0 where
  pub up : Desc
  pub info : Desc
  pub signal_strength : Desc
  pub signal_level : Desc
  pub uptime : Desc
  pub led_on : Desc
  pub overheated : Desc
  pub updating : Desc
  pub count : Desc

-- `NewDeviceCollector`
abbrev pub new_device_collector : DeviceCollector
new_device_collector = record {
  up =
      new_desc (codes "device") (codes "up")
        (codes "Whether the exporter could read the device on this scrape (1 = yes, 0 = no).")
        device_labels;
  info =
      new_desc (codes "device") (codes "info")
        (codes "Static device information. Always 1; read the labels.") info_labels;
  signal_strength =
      new_desc (codes "device") (codes "signal_strength_dbm")
        (codes "Wi-Fi signal strength reported by the device, in dBm.") device_labels;
  signal_level =
      new_desc (codes "device") (codes "signal_level")
        (codes "Wi-Fi signal quality as the device grades it, from 0 (worst) to 3 (best).")
        device_labels;
  uptime =
      new_desc (codes "device") (codes "uptime_seconds")
        (codes "Seconds the device has been switched on.") device_labels;
  led_on =
      new_desc (codes "device") (codes "led_on")
        (codes "Whether the device's status LED is lit (1) or off (0).") device_labels;
  overheated =
      new_desc (codes "device") (codes "overheated")
        (codes "Whether the device reports itself as overheated (1 = yes, 0 = no).") device_labels;
  updating =
      new_desc (codes "device") (codes "updating")
        (codes "Whether the device is applying a firmware update (1 = yes, 0 = no).") device_labels;
  count =
      new_desc [] (codes "devices") (codes "Number of devices the exporter is managing, by kind.")
        (codes "type" ∷ []);
}

-- counts[t]++
unfoldable pub increment : DeviceType → List (DeviceType × ℕ) → List (DeviceType × ℕ)
increment device_type [] = (device_type, 1) ∷ []
increment device_type ((other, n) ∷ counts) =
    let rest = increment device_type counts in
    if same_type other device_type then (other, n + 1) ∷ counts else (other, n) ∷ rest

module _ {F : Type 0} (ops : Arithmetic F) (c : DeviceCollector) where
  -- The body of the loop of `Update`, over a reading.
  unfoldable pub emit_reading : Reading F → List (Sample F)
  emit_reading reading =
      let labels = labels_for reading in
      const_gauge c.up (ops.of_ℕ 1) labels
      ++ (const_gauge c.info (ops.of_ℕ 1) (
            reading.host
            ∷ alias_label reading
            ∷ reading.model
            ∷ reading.device_id
            ∷ reading.hardware_version
            ∷ reading.firmware_version
            ∷ reading.mac
            ∷ type_text reading.device_type
            ∷ protocol_text reading.protocol
            ∷ [])
          ++ (emit_gauge (some c.signal_strength) reading.rssi labels
              ++ (emit_gauge (some c.signal_level) reading.signal_level labels
                  ++ (emit_gauge (some c.uptime) reading.uptime_seconds labels
                      ++ (emit_gauge (some c.led_on) (bool_value ops reading.led_on) labels
                          ++ (emit_gauge (some c.overheated) (bool_value ops reading.overheated)
                                labels
                              ++ emit_gauge (some c.updating) (bool_value ops reading.updating)
                                  labels))))))

  abbrev pub emit_read : Outcome F → Option (Reading F) → List (Sample F)
  emit_read result none = const_gauge c.up (ops.of_ℕ 0) (result.host ∷ result.alias ∷ [])
  emit_read result (some reading) = emit_reading reading

  abbrev pub emit_outcome : Outcome F → List (Sample F)
  emit_outcome result = emit_read result result.reading

  -- The category that a result is counted under.
  abbrev pub counted_type : DeviceType → Option (Reading F) → DeviceType
  counted_type known none = known
  counted_type known (some reading) = reading.device_type

  abbrev pub count_types : List (DeviceType × ℕ) → List (Outcome F) → List (DeviceType × ℕ)
  count_types counts [] = counts
  count_types counts (result ∷ results) =
      count_types (increment (counted_type result.device_type result.reading) counts) results

  abbrev pub emit_counts : List (DeviceType × ℕ) → List (Sample F)
  emit_counts [] = []
  emit_counts ((device_type, n) ∷ counts) =
      const_gauge c.count (ops.of_ℕ n) (type_text device_type ∷ []) ++ emit_counts counts

  -- `Update`
  unfoldable pub device_update : Result (List (Outcome F)) → List (Sample F) × Option Error
  device_update (err e) = ([], some e)
  device_update (ok []) = ([], some no_data)
  device_update (ok (result ∷ results)) = (
    emit_each ops emit_outcome (result ∷ results)
        ++ emit_counts (count_types [] (result ∷ results)),
    none,
  )
