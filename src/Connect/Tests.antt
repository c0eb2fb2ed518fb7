-- ===== src/Connect/Tests.antt =====
-- A network on which every device answers as a lamp, and one on which every login is refused.
use kasa_exporter.Base.{map, ◌∷◌, ℕ, ◌+◌, ◌≡◌, refl, none, []}
use kasa_exporter.Connect.Describe.{describe}
use kasa_exporter.Base.Text.{to_lower, Text, codes, ◌==ₜ◌, to_upper, has_prefix}
use kasa_exporter.Base.Decimal.{itoa, itoa_ℤ}
use kasa_exporter.Discovery.{dialect, login_version, http_port}
use kasa_exporter.Base.Int.{ℤ, pos}
use kasa_exporter.Errors.{ok, err, klap_unauthorized, no_answer}
use kasa_exporter.Iot.{iot_reading}
use kasa_exporter.Iot.Tests.{plain_sysinfo}
use kasa_exporter.Connect.{
  probe_order, smart_over_klap, device_url, join_host_port, Queriers, Credentials, Plan, negotiate,
  negotiate_unknown, attempt, connect, connect_as, try_candidates,
}
use kasa_exporter.Connect.Negotiate.{Answered, negotiate-Answered}

-- The world counts the reads.
abbrev pub lamp_net : Queriers ℕ Plan ℤ
lamp_net = record {
  build = λ host creds timeout plan. plan;
  read = λ n plan. (ok (iot_reading plain_sysinfo), plan, n + 1);
  close = λ n plan. n;
  discover_host = λ n host timeout. (err no_answer, n);
}

abbrev pub refusing_net : Queriers ℕ Plan ℤ
refusing_net = record lamp_net { read = λ n plan. (err klap_unauthorized, plan, n + 1) }

abbrev pub nobody : Credentials
nobody = record { username = []; password = [] }

abbrev pub lamp_host : Text
lamp_host = codes "10.0.0.8"

abbrev pub lamp_plan : Plan
lamp_plan = smart_over_klap (codes "http://10.0.0.8:80/app") (pos 2)

negotiate_runs : negotiate lamp_net lamp_host nobody (pos 5_000_000_000) 0 none ≡ (ok lamp_plan, 1)
unfolding negotiate negotiate_unknown try_candidates attempt connect connect_as device_url
    join_host_port dialect login_version http_port itoa_ℤ itoa ◌==ₜ◌ has_prefix to_upper
negotiate_runs = refl

negotiate-Answered_example : Answered lamp_net lamp_host nobody (pos 5_000_000_000) lamp_plan 1
negotiate-Answered_example =
    negotiate-Answered lamp_net lamp_host nobody (pos 5_000_000_000) 0 1 lamp_plan negotiate_runs

-- The names under which the attempts are reported.
attempts_named :
    map describe probe_order
    ≡ codes "smart over KLAP login version 2"
      ∷ codes "iot over KLAP login version 2"
      ∷ codes "iot over KLAP login version 1"
      ∷ codes "AES on HTTP"
      ∷ codes "legacy protocol on port 9999"
      ∷ []
unfolding describe dialect login_version itoa_ℤ itoa ◌==ₜ◌ has_prefix to_upper to_lower
attempts_named = refl
