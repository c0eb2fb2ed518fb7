-- ===== src/Iot/Querier/Tests.antt =====
-- A strip with two outlets, and a lamp without a meter, behind a transport that echoes the request.
use kasa_exporter.Base.{ℕ, ◌+◌, ◌≡◌, refl, ◌↔◌, true, none, some, List, [], ◌∷◌, All}
use kasa_exporter.Base.Text.{Text, codes}
use kasa_exporter.Base.Int.{ℤ, pos, ◌+ℤ◌}
use kasa_exporter.Base.Decimal.{itoa}
use kasa_exporter.Errors.{ok, err, no_outlet}
use kasa_exporter.Floats.{integers, divide}
use kasa_exporter.Transport.{Transport}
use kasa_exporter.Reading.{Reading, Energy, Socket}
use kasa_exporter.Iot.{
  IotSysinfo, IotChild, iot_reading, realtime, energy_of, usable, normalise, add_energy,
}
use kasa_exporter.Iot.Tests.{in_milli, plain_sysinfo}
use kasa_exporter.Iot.Querier.{
  IotCodec, get_sysinfo, get_realtime, get_child_realtime, read_sockets, fill_sockets, read_outlets,
  read_socket_energy, iot_query, count_outlet, socket_of,
}
use kasa_exporter.Iot.Querier.Totals.{IsFailed, numbered, labels, summary}
use kasa_exporter.Iot.Querier.Sockets.{outcomes, strip_fails_iff, strip_read}

abbrev pub echo : Transport ℕ
echo = record { query = λ n body. (ok body, n + 1); close = λ n. n }

abbrev outlet : Text → IotChild ℤ
outlet name = record { id = name; alias = name; state = some (pos 1); on_time = none }

abbrev pub two_outlets : IotSysinfo ℤ
two_outlets = record plain_sysinfo {
  model = codes "HS300";
  children = outlet (codes "00") ∷ outlet (codes "01") ∷ [];
}

-- A request is its kind; an outlet answers with a reading, a device with its system information.
abbrev pub told : IotSysinfo ℤ → IotCodec ℤ
told sysinfo = record {
  marshal = λ request. elim request [
    | get_sysinfo m ↦ ok []
    | get_realtime m ↦ ok []
    | get_child_realtime id ↦ ok (1 ∷ [])
  ];
  unmarshal = λ body. elim body [
    | [] ↦ some (record { get_sysinfo = some sysinfo; emeter = none; smartlife_emeter = none })
    | _ ∷ _ ↦ some (record {
      get_sysinfo = none;
      emeter = some (record { get_realtime = some in_milli; err_code = none });
      smartlife_emeter = none;
    })
  ];
}

abbrev strip_start : Reading ℤ
strip_start = iot_reading two_outlets

-- What the strip is read as: 15 W on each of the two outlets.
abbrev on_outlet : ℕ → ℕ → Socket ℤ
on_outlet place digit = record {
  id = place ∷ [];
  alias = b'0' ∷ digit ∷ [];
  on = some true;
  uptime_seconds = none;
  energy = some (record {
    power_watts = some (pos 15);
    voltage_volts = some (pos 230);
    current_amperes = none;
    total_kwh = some (pos 5);
  });
}

abbrev strip_total : Energy ℤ
strip_total = record {
  power_watts = some (pos 30);
  voltage_volts = some (pos 230);
  current_amperes = none;
  total_kwh = some (pos 10);
}

abbrev strip_out : Reading ℤ
strip_out = record (iot_reading two_outlets) {
  sockets = on_outlet b'1' b'0' ∷ on_outlet b'2' b'1' ∷ [];
  energy = some strip_total;
}

strip_runs :
    (read_sockets echo (told two_outlets) integers 0 two_outlets strip_start).0 ≡ ok strip_out
unfolding read_sockets fill_sockets read_outlets read_socket_energy iot_query count_outlet socket_of
    energy_of realtime usable normalise add_energy divide iot_reading itoa ◌+ℤ◌
strip_runs = refl

abbrev outlets : List (IotChild ℤ)
outlets = outlet (codes "00") ∷ outlet (codes "01") ∷ []

strip_fails_iff_example :
    ((read_sockets echo (told two_outlets) integers 0 two_outlets strip_start).0 ≡ err no_outlet)
    ↔ All IsFailed (outcomes echo (told two_outlets) integers 0 two_outlets outlets)
strip_fails_iff_example =
    strip_fails_iff echo (told two_outlets) integers 0 two_outlets strip_start refl

-- The outlets are numbered 1 and 2, and the strip draws what they draw together.
strip_read_example :
    (labels strip_out.sockets ≡ numbered 1 outlets)
    × (strip_out.energy ≡ summary integers strip_out.sockets)
strip_read_example =
    strip_read echo (told two_outlets) integers 0 two_outlets strip_start refl {out = strip_out}
      (unfold iot_reading in refl) (unfold iot_reading in refl) strip_runs
