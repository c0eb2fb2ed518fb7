-- ===== src/Iot/Querier.antt =====
-- `iotQuerier` of kasa/iot.go: the requests that one read makes over a transport, and what is
-- remembered from one read to the next. encoding/json is the parameter `IotCodec`.
pub mod Totals
pub mod Sockets
pub mod Emeter
pub mod Ideal
pub mod Tests
use kasa_exporter.Base.{
  ℕ, ◌+◌, Bool, true, false, Option, none, some, List, [], ◌∷◌, ◌++◌, ltb, leb, ◌==◌, if◌then◌else◌,
  length,
}
use kasa_exporter.Base.Text.{Text}
use kasa_exporter.Base.Decimal.{itoa}
use kasa_exporter.Floats.{Arithmetic}
use kasa_exporter.Errors.{
  Result, ok, err, unexpected_response, no_sysinfo, no_outlet, device_code, or_error,
}
use kasa_exporter.Reading.{DeviceType, strip, bulb, light_strip, Energy, Socket, Reading}
use kasa_exporter.Transport.{Transport}
use kasa_exporter.Iot.{
  IotChild, IotSysinfo, IotEmeter, IotResponse, is_failure, flag, iot_reading, realtime,
  either_realtime, energy_of, add_energy,
}

-- The two names of the energy module, `iotEmeterModule` and `iotBulbEmeterModule`.
pub data EmeterModule : Type 0 where
  emeter bulb_emeter : EmeterModule

-- The requests that this file builds.
pub data IotRequest : Type 0 where
  get_sysinfo : Option EmeterModule → IotRequest
  get_realtime : EmeterModule → IotRequest
  get_child_realtime : Text → IotRequest

-- json.Marshal of a request and json.Unmarshal of a reply.
pub record IotCodec (F : Type 0) : Type 0 where
  pub marshal : IotRequest → Result Text
  pub unmarshal : Text → Option (IotResponse F)

pub record IotQuerier (S : Type 0) : Type 0 where
  pub transport : S
  pub emeter_module : EmeterModule
  pub device_has_emeter : Bool

abbrev pub new_iot_querier : {S : Type 0} → S → IotQuerier S
new_iot_querier s = record { transport = s; emeter_module = emeter; device_has_emeter = true }

-- What the loop over a strip's outlets counts and collects.
pub record Tally (F : Type 0) : Type 0 where
  pub total : Energy F
  pub measured : ℕ
  pub failures : ℕ
  pub sockets : List (Socket F)

abbrev pub other_module : EmeterModule → EmeterModule
other_module emeter = bulb_emeter
other_module bulb_emeter = emeter

abbrev pub is_lighting : DeviceType → Bool
is_lighting bulb = true
is_lighting light_strip = true
is_lighting _ = false

abbrev pub is_strip : DeviceType → Bool
is_strip strip = true
is_strip _ = false

-- "Some firmware reports the outlet's position alone."
abbrev pub full_child_id : {F : Type 0} → IotSysinfo F → IotChild F → Text
full_child_id sysinfo child =
    if leb (length child.id) 2 then sysinfo.device_id ++ child.id else child.id

module _ {F : Type 0} where
  abbrev pub energy_part : Result (Option (Energy F)) → Option (Energy F)
  energy_part (err e) = none
  energy_part (ok energy) = energy

  -- The outlet in place `i`, counted from 1, with what its meter answered.
  pub socket_of : ℕ → IotChild F → Result (Option (Energy F)) → Socket F
  socket_of i child r = record {
    id = itoa i;
    alias = child.alias;
    on = flag child.state;
    uptime_seconds = child.on_time;
    energy = energy_part r;
  }

  -- One round of the loop, after the outlet was asked.
  pub count_outlet : Arithmetic F → ℕ → IotChild F → Result (Option (Energy F)) → Tally F → Tally F
  count_outlet fl i child (err e) t = record t {
    failures = t.failures + 1;
    sockets = t.sockets ++ socket_of i child (err e) ∷ [];
  }
  count_outlet fl i child (ok none) t = record t {
    sockets = t.sockets ++ socket_of i child (ok none) ∷ [];
  }
  count_outlet fl i child (ok (some energy)) t = record t {
    total = add_energy fl t.total energy;
    measured = t.measured + 1;
    sockets = t.sockets ++ socket_of i child (ok (some energy)) ∷ [];
  }

  abbrev pub empty_tally : Tally F
  empty_tally = record {
    total = record {
      power_watts = none;
      voltage_volts = none;
      current_amperes = none;
      total_kwh = none;
    };
    measured = 0;
    failures = 0;
    sockets = [];
  }

  -- The total, less the counter unless every one of `n` outlets was measured.
  abbrev pub strip_energy : ℕ → Tally F → Option (Energy F) → Option (Energy F)
  strip_energy n t before =
      if ltb 0 t.measured
      then some (if ltb t.measured n then record t.total { total_kwh = none } else t.total)
      else before

  abbrev pub settle : ℕ → Reading F → Tally F → Result (Reading F)
  settle n reading t =
      if t.failures == n
      then err no_outlet
      else ok (record reading {
        sockets = reading.sockets ++ t.sockets;
        energy = strip_energy n t reading.energy;
      })

module _ {S F : Type 0} (net : Transport S) (codec : IotCodec F) (fl : Arithmetic F) where
  abbrev pub decoded : Result Text → Result (IotResponse F)
  decoded (err e) = err e
  decoded (ok raw) = or_error (codec.unmarshal raw) unexpected_response

  abbrev pub sent : S → Result Text → Result (IotResponse F) × S
  sent s (err e) = (err e, s)
  sent s (ok body) = let (reply, s') = net.query s body in (decoded reply, s')

  -- `q.query`
  pub iot_query : S → IotRequest → Result (IotResponse F) × S
  iot_query s request = sent s (codec.marshal request)

  abbrev pub child_energy : Result (IotResponse F) → Result (Option (Energy F))
  child_energy (err e) = err e
  child_energy (ok response) = ok (energy_of fl (realtime response.emeter))

  pub read_socket_energy : S → IotSysinfo F → IotChild F → Result (Option (Energy F)) × S
  unfolding iot_query
  read_socket_energy s sysinfo child =
      let (r, s') = iot_query s (get_child_realtime (full_child_id sysinfo child)) in
      (child_energy r, s')

  pub read_outlets : ℕ → S → IotSysinfo F → List (IotChild F) → Tally F → Tally F × S
  read_outlets i s sysinfo [] t = (t, s)
  read_outlets i s sysinfo (child ∷ children) t =
      let (r, s') = read_socket_energy s sysinfo child in
      read_outlets (i + 1) s' sysinfo children (count_outlet fl i child r t)

  pub fill_sockets : S → IotSysinfo F → Reading F → List (IotChild F) → Result (Reading F) × S
  fill_sockets s sysinfo reading [] = (ok reading, s)
  fill_sockets s sysinfo reading (child ∷ children) =
      let (t, s') = read_outlets 1 s sysinfo (child ∷ children) empty_tally in
      (settle (length (child ∷ children)) reading t, s')

  -- `readSockets`, with the reading that it fills in returned.
  pub read_sockets : S → IotSysinfo F → Reading F → Result (Reading F) × S
  unfolding fill_sockets
  read_sockets s sysinfo reading = fill_sockets s sysinfo reading sysinfo.children

  abbrev pub switch_module :
      IotQuerier S → EmeterModule → Option (IotEmeter F) → Option (IotEmeter F) × IotQuerier S
  switch_module q other none = (none, record q { device_has_emeter = false })
  switch_module q other (some energy) = (some energy, record q { emeter_module = other })

  -- A failed second request leaves what is remembered as it was.
  abbrev pub second_answer :
      IotQuerier S → EmeterModule → Result (IotResponse F) → Option (IotEmeter F) × IotQuerier S
  second_answer q other (err e) = (none, q)
  second_answer q other (ok response) = switch_module q other (either_realtime response)

  pub retry_emeter : IotQuerier S → DeviceType → Option (IotEmeter F) × IotQuerier S
  retry_emeter q device_type =
      if is_lighting device_type
      then (let other = other_module q.emeter_module in
          let (r, s) = iot_query q.transport (get_realtime other) in
          second_answer (record q { transport = s }) other r)
      else (none, record q { device_has_emeter = false })

  -- The device-level energy: of this response, or of one more request.
  abbrev pub device_energy :
      IotQuerier S → DeviceType → Option (IotEmeter F) → Option (IotEmeter F) × IotQuerier S
  device_energy q device_type (some energy) = (some energy, q)
  device_energy q device_type none =
      if q.device_has_emeter then retry_emeter q device_type else (none, q)

  abbrev pub checked_sysinfo : IotResponse F → Result (IotSysinfo F)
  checked_sysinfo response = elim response.get_sysinfo [
    | none ↦ err no_sysinfo
    | some sysinfo ↦ elim sysinfo.err_code [
      | none ↦ ok sysinfo
      | some code ↦ if is_failure (some code) then err (device_code code) else ok sysinfo
    ]
  ]

  abbrev pub read_strip :
      IotQuerier S → IotSysinfo F → Reading F → Result (Reading F) × IotQuerier S
  read_strip q sysinfo reading =
      let (r, s) = read_sockets q.transport sysinfo reading in
      (r, record q { transport = s; device_has_emeter = false })

  abbrev pub read_single :
      IotQuerier S → IotResponse F → Reading F → Result (Reading F) × IotQuerier S
  read_single q response reading =
      let (energy, q') = device_energy q reading.device_type (either_realtime response) in
      (ok (record reading { energy = energy_of fl energy }), q')

  abbrev pub read_sysinfo :
      IotQuerier S → IotResponse F → Result (IotSysinfo F) → Result (Reading F) × IotQuerier S
  read_sysinfo q response (err e) = (err e, q)
  read_sysinfo q response (ok sysinfo) =
      let reading = iot_reading sysinfo in
      if is_strip reading.device_type
      then read_strip q sysinfo reading
      else read_single q response reading

  abbrev pub read_response :
      IotQuerier S → Result (IotResponse F) → Result (Reading F) × IotQuerier S
  read_response q (err e) = (err e, q)
  read_response q (ok response) = read_sysinfo q response (checked_sysinfo response)

  abbrev pub asked_module : IotQuerier S → Option EmeterModule
  asked_module q = if q.device_has_emeter then some q.emeter_module else none

  -- `Read`
  pub iot_read : IotQuerier S → Result (Reading F) × IotQuerier S
  unfolding iot_query read_sockets retry_emeter
  iot_read q =
      let (r, s) = iot_query q.transport (get_sysinfo (asked_module q)) in
      read_response (record q { transport = s }) r

-- `Close`
abbrev pub iot_close : {S : Type 0} → Transport S → IotQuerier S → IotQuerier S
iot_close net q = record q { transport = net.close q.transport }
