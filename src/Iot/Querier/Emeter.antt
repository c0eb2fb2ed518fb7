-- ===== src/Iot/Querier/Emeter.antt =====
-- What `Read` of kasa/iot.go remembers about a device's energy module, and what it costs in requests.
use kasa_exporter.Base.{if◌then◌else◌, ℕ, ◌+◌, ◌≤◌, ◌≡◌, ◌≢◌, false, arith}
use kasa_exporter.Floats.{Arithmetic}
use kasa_exporter.Errors.{ok}
use kasa_exporter.Reading.{strip, Reading}
use kasa_exporter.Transport.{Transport}
use kasa_exporter.Iot.Querier.{IotCodec, IotQuerier, iot_read}

-- A transport with a count of the requests that were made over it.
abbrev pub counting : {S : Type 0} → Transport S → Transport (S × ℕ)
counting net = record {
  query = λ (s, n) body. let (r, s') = net.query s body in (r, (s', n + 1));
  close = λ (s, n). (net.close s, n);
}

module _ {S F : Type 0} (net : Transport S) (codec : IotCodec F) (fl : Arithmetic F) where
  -- Once a device has shown that it has no energy module, it stays so, and is not asked for one.
  pub emeter_stays_off :
      (q : IotQuerier S)
      → q.device_has_emeter ≡ false
      → ((iot_read net codec fl q).1.device_has_emeter ≡ false)
        × ((iot_read net codec fl q).1.emeter_module ≡ q.emeter_module)
  unfolding iot_read
  emeter_stays_off q off = ground arith

  -- A successful read of a device that is not a strip makes at most two requests, and one once the
  -- device is known to have no energy module.
  pub read_requests :
      (q : IotQuerier (S × ℕ)) (out : Reading F)
      → (iot_read (counting net) codec fl q).0 ≡ ok out
      → out.device_type ≢ strip
      → (iot_read (counting net) codec fl q).1.transport.1
        ≤ q.transport.1 + (if q.device_has_emeter then 2 else 1)
  unfolding iot_read
  read_requests q out h single = ground arith
