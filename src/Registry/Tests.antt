-- ===== src/Registry/Tests.antt =====
-- A registry with one configured lamp and discovery every ten seconds.
use kasa_exporter.Base.{
  or_else, ◌-◌, ◌≡◌, refl, true, false, ◌||◌, none, [], ◌∷◌, map, if◌then◌else◌,
}
use kasa_exporter.Base.Text.{codes}
use kasa_exporter.Base.Int.{ℤ, pos, ltb_ℤ}
use mathlib.Core.List.{Perm}
use kasa_exporter.Base.Dict.{lookup}
use kasa_exporter.Base.Order.{IsSorted}
use kasa_exporter.Errors.{err, probe_failed}
use kasa_exporter.Connect.{Plan}
use kasa_exporter.Connect.Tests.{lamp_net, nobody, lamp_host}
use kasa_exporter.Device.{Device, new_device}
use kasa_exporter.Registry.{
  Options, Registry, Moment, new_registry, reconcile, stays, hosts_of, take_snapshot, is_fresh,
  read_all,
}
use kasa_exporter.Registry.Reconcile.{first_found, lookup-reconcile}
use kasa_exporter.Registry.Schedule.{snapshot_shared}
use kasa_exporter.Registry.Round.{read_all_ordered}
use kasa_exporter.Registry.Steps.{IsSafe, started, scraped, here, next, scrape, registry-IsSafe}

abbrev options : Options
options = record {
  hosts = lamp_host ∷ [];
  credentials = nobody;
  discovery = true;
  discovery_target = codes "255.255.255.255";
  discovery_interval = pos 10_000_000_000;
  discovery_timeout = pos 2_000_000_000;
  discovery_packets = pos 3;
  timeout = pos 5_000_000_000;
  cache_ttl = pos 1_000_000_000;
  concurrency = pos 4;
  keep_missing = false;
}

abbrev fleet : Registry Plan ℤ
fleet = new_registry options

abbrev other_lamp : Device Plan
other_lamp = new_device (codes "10.0.0.12") nobody (pos 5_000_000_000)

lookup-reconcile_example :
    lookup lamp_host (reconcile lamp_net 0 fleet (other_lamp ∷ [])).0.devices ≡ (
      if fleet.opts.keep_missing || stays (hosts_of (other_lamp ∷ [])) fleet.manual lamp_host
      then or_else (lookup lamp_host fleet.devices) (first_found lamp_host (other_lamp ∷ []))
      else none)
lookup-reconcile_example = lookup-reconcile lamp_net 0 fleet (other_lamp ∷ []) lamp_host

interval_open : ltb_ℤ (pos (7_000_000_000 - 5_000_000_000)) fleet.opts.discovery_interval ≡ true
unfolding new_registry
interval_open = refl

abbrev first_scrape : Moment
first_scrape = record {
  start = 0;
  sweep_end = 2_000_000_000;
  round_end = 3_000_000_000;
  sweep = err probe_failed;
}

abbrev second_scrape : Moment
second_scrape = record {
  start = 3_500_000_000;
  sweep_end = 0;
  round_end = 3_600_000_000;
  sweep = err probe_failed;
}

within_ttl : ltb_ℤ (pos (second_scrape.start - first_scrape.round_end)) fleet.opts.cache_ttl ≡ true
unfolding new_registry
within_ttl = refl

nothing_cached : is_fresh 0 fleet ≡ false
unfolding new_registry
nothing_cached = refl

snapshot_shared_example :
    take_snapshot lamp_net second_scrape 9 (take_snapshot lamp_net first_scrape 0 fleet).1 ≡ (
      (take_snapshot lamp_net first_scrape 0 fleet).0,
      (take_snapshot lamp_net first_scrape 0 fleet).1,
      9,
    )
snapshot_shared_example =
    snapshot_shared lamp_net first_scrape second_scrape 0 9 fleet within_ttl nothing_cached

read_all_ordered_example :
    IsSorted (λ o. o.host) (read_all lamp_net 0 fleet).0
    × Perm (map (λ o. o.host) (read_all lamp_net 0 fleet).0) (map (λ e. e.1.host) fleet.devices)
read_all_ordered_example = read_all_ordered lamp_net 0 fleet

registry-IsSafe_example :
    IsSafe lamp_net options (scraped lamp_net first_scrape (started lamp_net options 0))
registry-IsSafe_example =
    registry-IsSafe lamp_net options 0
      {s = scraped lamp_net first_scrape (started lamp_net options 0)}
      (next here (scrape (started lamp_net options 0) first_scrape))
