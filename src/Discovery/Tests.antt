-- ===== src/Discovery/Tests.antt =====
-- A device that answers both probes, the one that names its transport first.
use kasa_exporter.Discovery.Sweeps.{Udp, udp_conn, discover, rounds}
use kasa_exporter.Discovery.Log.{listened, logged, With, sweep_events, probes, discover_log}
use kasa_exporter.Base.{
  ℕ, true, ◌&&◌, ◌%◌, ◌+◌, ◌==◌, List, ◌≡◌, or_else, refl, false, none, some, [], ◌∷◌, replicate,
}
use kasa_exporter.Base.Text.{◌==ₜ◌, Text, codes, to_upper}
use kasa_exporter.Base.Int.{ℤ, pos}
use kasa_exporter.Base.Dict.{insert, lookup}
use kasa_exporter.Iot.Querier.{IotCodec}
use kasa_exporter.Iot.Tests.{plain_sysinfo}
use kasa_exporter.Errors.{ok}
use kasa_exporter.Discovery.{
  parse_smart_discovery, parse_iot_discovery, Datagram, SmartCodec, EncryptScheme,
  parse_discovery_reply, smart_result, encrypt_klap,
}
use kasa_exporter.Discovery.Sweeps.{merge, collect_from}
use kasa_exporter.Discovery.Preferred.{last, last_named, replies_of, collect_from-lookup}

abbrev iot_json : IotCodec ℤ
iot_json = record {
  marshal = λ request. ok [];
  unmarshal = λ body.
      some (record { get_sysinfo = some plain_sysinfo; emeter = none; smartlife_emeter = none });
}

abbrev klap_scheme : EncryptScheme
klap_scheme = record {
  is_support_https = false;
  encrypt_type = encrypt_klap;
  http_port = pos 80;
  login_version = pos 2;
}

abbrev smart_json : SmartCodec
smart_json = record {
  unmarshal = λ body. some (record {
    error_code = pos 0;
    device_id = [];
    device_type = codes "IOT.SMARTPLUGSWITCH";
    device_model = codes "EP25";
    alias = [];
    mac = [];
    scheme = some klap_scheme;
  });
}

abbrev plug_host : Text
plug_host = codes "10.0.0.9"

abbrev smart_datagram : Datagram
smart_datagram = record { host = plug_host; port = 20002; payload = replicate 17 0 }

abbrev legacy_datagram : Datagram
legacy_datagram = record { host = plug_host; port = 9999; payload = 0 ∷ [] }

abbrev replies : List Datagram
replies = smart_datagram ∷ legacy_datagram ∷ []

-- The first reply is kept, since the second is of the legacy protocol.
first_kept :
    lookup plug_host (collect_from iot_json smart_json [] replies)
    ≡ parse_discovery_reply iot_json smart_json smart_datagram
unfolding collect_from merge parse_discovery_reply parse_iot_discovery parse_smart_discovery
    smart_result to_upper lookup insert ◌==ₜ◌
first_kept = refl

collect_from-lookup_example :
    lookup plug_host (collect_from iot_json smart_json [] replies)
    ≡ or_else
        (last_named (replies_of iot_json smart_json plug_host replies))
        (last (replies_of iot_json smart_json plug_host replies))
collect_from-lookup_example = collect_from-lookup iot_json smart_json plug_host replies

-- A network that answers nothing, and on which every second write fails.
abbrev lossy : Udp ℕ
lossy = record {
  listen = λ n. (udp_conn, n);
  resolves = λ host port. true;
  write = λ n host port payload. (n % 2 == 0, n + 1);
  receive = λ n. ([], n);
  close_socket = λ n. n;
}

discover_log_example :
    discover (logged lossy) iot_json smart_json (0, []) plug_host (pos 3)
    ≡ With (discover lossy iot_json smart_json 0 plug_host (pos 3)) (
        listened
        ∷ sweep_events
            (lossy.listen 0).0
            (lossy.resolves plug_host 9999 && lossy.resolves plug_host 20002)
            (probes lossy (rounds (pos 3)) (lossy.listen 0).1 plug_host))
discover_log_example = discover_log lossy iot_json smart_json 0 plug_host (pos 3)
