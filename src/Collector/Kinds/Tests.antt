-- ===== src/Collector/Kinds/Tests.antt =====
-- A scrape of one lamp that answered and one device that did not.
use kasa_exporter.Base.Dict.{Dict}
use kasa_exporter.Base.{◌≡◌, none, some, List, [], ◌∷◌, map}
use kasa_exporter.Base.Text.{codes}
use kasa_exporter.Base.Int.{ℤ, pos}
use kasa_exporter.Errors.{ok, unreachable}
use kasa_exporter.Floats.{integers}
use kasa_exporter.Reading.{bulb, plug}
use kasa_exporter.Iot.{iot_reading}
use kasa_exporter.Iot.Tests.{plain_sysinfo}
use kasa_exporter.Registry.{Outcome}
use kasa_exporter.Collector.Kinds.{Kind, bulbs, hubs, kind_update}
use kasa_exporter.Collector.Devices.{device_update, new_device_collector}
use kasa_exporter.Collector.Kinds.Scrape.{collect, sent_samples, collect_reports}
use kasa_exporter.Collector.Kinds.Labels.{AllFit, kind_labels_fit}
use kasa_exporter.Collector.Kinds.Fleet.{ups, up_of, every_device_up}

abbrev lamp_outcome : Outcome ℤ
lamp_outcome = record {
  host = codes "10.0.0.8";
  alias = codes "Lamp";
  device_type = bulb;
  reading = some (iot_reading plain_sysinfo);
  failure = none;
}

abbrev lost_outcome : Outcome ℤ
lost_outcome = record {
  host = codes "10.0.0.9";
  alias = codes "Desk";
  device_type = plug;
  reading = none;
  failure = some unreachable;
}

abbrev outcomes : List (Outcome ℤ)
outcomes = lamp_outcome ∷ lost_outcome ∷ []

every_device_up_example :
    ups integers (device_update integers new_device_collector (ok outcomes)).0
    ≡ map (λ o. up_of integers o o.reading) outcomes
every_device_up_example = every_device_up integers outcomes

kind_labels_fit_example : AllFit (kind_update integers bulbs (ok outcomes)).0
kind_labels_fit_example = kind_labels_fit integers bulbs (ok outcomes)

abbrev two_kinds : Dict Kind
two_kinds = (codes "bulb", bulbs) ∷ (codes "hub", hubs) ∷ []

collect_reports_example :
    collect integers (λ k. kind_update integers k (ok outcomes)) (λ name. pos 0) two_kinds
    ≡ sent_samples integers (λ k. kind_update integers k (ok outcomes)) (λ name. pos 0) two_kinds
collect_reports_example =
    collect_reports integers (λ k. kind_update integers k (ok outcomes)) (λ name. pos 0) two_kinds
