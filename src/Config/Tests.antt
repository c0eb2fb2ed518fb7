-- ===== src/Config/Tests.antt =====
-- Two addresses in one environment variable, one of them repeated on the command line.
use kasa_exporter.Base.{ℕ, ◌≡◌, refl, false, List, [], ◌∷◌, arith}
use kasa_exporter.Base.Text.{Text, codes, ◌==ₜ◌, contains}
use kasa_exporter.Base.Int.{ℤ, pos, ltb_ℤ}
use kasa_exporter.Errors.{ok}
use kasa_exporter.Registry.{Registry, new_registry}
use kasa_exporter.Config.{
  trim_right, trim_left, trim_space, fields_from, add_fields, add_values, DeviceFlags, parse_hosts,
  build_options, options_of, build_registry,
}
use kasa_exporter.Config.Hosts.{named, parse_hosts-contains}
use kasa_exporter.Config.Polling.{Polls, build_registry-Polls}

abbrev given : List Text
given = codes "10.0.0.1, 10.0.0.2" ∷ codes "10.0.0.1" ∷ []

abbrev first_host : Text
first_host = codes "10.0.0.1"

abbrev flags : DeviceFlags
flags = record {
  hosts = given;
  username = [];
  password = [];
  discovery = false;
  discovery_target = codes "255.255.255.255";
  discovery_interval = pos 300;
  discovery_timeout = pos 5;
  discovery_packets = pos 3;
  timeout = pos 10;
  cache_ttl = pos 5;
  concurrency = pos 8;
  keep_missing = false;
}

taken : parse_hosts given ≡ first_host ∷ codes "10.0.0.2" ∷ []
unfolding parse_hosts add_values add_fields fields_from trim_space trim_left trim_right contains
    ◌==ₜ◌
taken = refl

parse_hosts-contains_example : contains (parse_hosts given) first_host ≡ named first_host given
parse_hosts-contains_example = parse_hosts-contains given first_host (omega arith)

abbrev polling : Registry ℕ ℤ
polling = new_registry (options_of flags (parse_hosts given))

accepted_flags : build_registry flags ≡ ok polling
unfolding build_registry build_options parse_hosts add_values add_fields fields_from trim_space
    trim_left trim_right contains ◌==ₜ◌ ltb_ℤ
accepted_flags = refl

build_registry-Polls_example : Polls flags polling
build_registry-Polls_example = build_registry-Polls flags polling accepted_flags
