-- ===== src/Registry/Pool/Tests.antt =====
-- Two lamps that are read over one slot, the second one first.
use kasa_exporter.Base.{ℕ, ◌-◌, ◌*◌, ◌≤◌, ◌≡◌, refl, ◌↔◌, false, none, [], ◌∷◌, map, arith, length}
use kasa_exporter.Base.Int.{ℤ, pos}
use kasa_exporter.Connect.{
  Plan, connect, connect_as, negotiate, negotiate_unknown, try_candidates, attempt, device_url,
  join_host_port,
}
use kasa_exporter.Discovery.{dialect, login_version, http_port}
use kasa_exporter.Base.Text.{Text, has_prefix, to_upper, ◌==ₜ◌, codes}
use kasa_exporter.Base.Decimal.{itoa, itoa_ℤ}
use kasa_exporter.Connect.Tests.{lamp_net, nobody, lamp_host}
use kasa_exporter.Registry.{outcome, Options, read_all, Registry}
use kasa_exporter.Registry.Pool.Independent.{Independent, Commute, in_turn}
use kasa_exporter.Device.{new_device, read_device, Device}
use kasa_exporter.Registry.Pool.Bounded.{round_bounded}
use kasa_exporter.Registry.Pool.Serial.{round-read_all}
use kasa_exporter.Registry.Pool.Ends.{round_ends}
use kasa_exporter.Registry.Pool.{
  Worker, holding, done, Pool, holders, slots, acquire, store, release, here, there, turn, Run,
  start, later, readers, AllDone, collected,
}

abbrev options : Options
options = record {
  hosts = lamp_host ∷ codes "10.0.0.12" ∷ [];
  credentials = nobody;
  discovery = false;
  discovery_target = [];
  discovery_interval = pos 0;
  discovery_timeout = pos 0;
  discovery_packets = pos 0;
  timeout = pos 5_000_000_000;
  cache_ttl = pos 0;
  concurrency = pos 1;
  keep_missing = false;
}

abbrev other_host : Text
other_host = codes "10.0.0.12"

abbrev lamp : Device Plan
lamp = new_device lamp_host nobody (pos 5_000_000_000)

abbrev other_lamp : Device Plan
other_lamp = new_device other_host nobody (pos 5_000_000_000)

abbrev lamps : Registry Plan ℤ
lamps = record {
  opts = options;
  devices = (lamp_host, lamp) ∷ (other_host, other_lamp) ∷ [];
  manual = options.hosts;
  last_discovery = none;
  discovering = false;
  snapshot = none;
  snapshot_time = none;
}

abbrev read_done : ℕ → Text → Device Plan → Worker Plan ℤ
read_done w key d =
    done key (read_device lamp_net w d).1
      (outcome lamp_net (read_device lamp_net w d).1 (read_device lamp_net w d).0)

-- The second lamp has been read, and the first one has the slot.
abbrev half_pool : Pool ℕ Plan ℤ
half_pool = record {
  world = (read_device lamp_net 0 other_lamp).2;
  workers = holding lamp_host lamp ∷ read_done 0 other_host other_lamp ∷ [];
}

halfway : Run lamp_net (slots lamps.opts.concurrency) (readers 0 lamps) 4 half_pool
unfolding holders
halfway =
    later
      (later (later (later start (turn (there (here (acquire refl))))) (turn (there (here store))))
        (turn (there (here release))))
      (turn (here (acquire refl)))

abbrev last_pool : Pool ℕ Plan ℤ
last_pool = record {
  world = (read_device lamp_net half_pool.world lamp).2;
  workers = read_done half_pool.world lamp_host lamp ∷ read_done 0 other_host other_lamp ∷ [];
}

whole_run : Run lamp_net (slots lamps.opts.concurrency) (readers 0 lamps) 6 last_pool
whole_run = later (later halfway (turn (here store))) (turn (here release))

lamps-Independent : Independent lamp_net (map (λ e. e.1) lamps.devices)
unfolding Independent Commute in_turn read_device negotiate negotiate_unknown try_candidates attempt
    connect connect_as device_url join_host_port dialect login_version http_port itoa_ℤ itoa ◌==ₜ◌
    has_prefix to_upper new_device
lamps-Independent = (((λ w. refl), tt), (tt, tt))

all_done : AllDone last_pool.workers
unfolding AllDone
all_done = tt

round_bounded_example : holders half_pool.workers ≤ slots lamps.opts.concurrency
round_bounded_example = round_bounded lamp_net 0 lamps half_pool halfway

round-read_all_example : collected lamps last_pool ≡ read_all lamp_net 0 lamps
round-read_all_example =
    round-read_all lamp_net 0 lamps last_pool lamps-Independent whole_run all_done

round_ends_example :
    (4 ≤ 3 * length lamps.devices)
    × ((4 ≡ 3 * length lamps.devices) ↔ AllDone half_pool.workers)
    × ((u : Pool ℕ Plan ℤ) × Run lamp_net
          (slots lamps.opts.concurrency)
          half_pool
          (3 * length lamps.devices - 4)
          u
        × AllDone u.workers)
round_ends_example = round_ends lamp_net 0 lamps half_pool (omega arith) halfway
