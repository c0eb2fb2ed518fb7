-- ===== src/Wiring/Served.antt =====
-- A device that discovery found (kasa/discover.go), read again and again over KLAP and over the legacy
-- transport.
use kasa_exporter.Base.Int.{ℤ}
use kasa_exporter.Base.Text.{codes, ◌==ₜ◌, Text}
use kasa_exporter.Base.{◌<◌, ℕ, ◌+◌, ◌≤◌, ◌≡◌, refl, inl, ◌++◌, length}
use kasa_exporter.Wiring.{build_querier, wired, Backend, World, Querier}
use kasa_exporter.Wiring.EndToEnd.{
  read_device-Read, after_reads-IsServed, link_of, placed, IsServed, after_reads, plain_read,
  held_or_new,
}
use kasa_exporter.Connect.{Credentials, device_url, connect_as, Plan, iot_over_xor, klap_plan}
use kasa_exporter.Discovery.{login_version, dialect, DiscoveryResult, encrypt_klap, encrypt_xor}
use kasa_exporter.Klap.Device.{device_http, KlapDevice, Stage}
use kasa_exporter.Device.{discovered_device, read_device, Device}
use kasa_exporter.Klap.Wire.{IsSound}
use kasa_exporter.Errors.{Result, ok}
use kasa_exporter.Klap.Queries.{Takes}
use kasa_exporter.Klap.{max_response_bytes, klap_auth_hash}
use kasa_exporter.Xor.Cipher.{IsBytes}
use kasa_exporter.Wiring.Ready.{
  answers_of, framed, xor-Serves, XorReady, IsFrameable, IsReached, klap-Serves, KlapReady,
}
use kasa_exporter.Reading.{Protocol}

module _ {W K F : Type 0} (b : Backend W K F) (respond : Text → Result Text) (plan : Plan) where
  -- What the next read of the device gives, if the answers of the device reach the querier as they are.
  abbrev pub NextPlain : Device Querier × World W → Type 0
  NextPlain (d, w) =
      (read_device (wired b) w d).0
      ≡ placed d.host (plain_read b respond w (held_or_new plan d d.querier))

abbrev pub klap_plan_of : DiscoveryResult → Plan
klap_plan_of found =
    klap_plan (dialect found) (device_url found.host found ++ codes "/app") (login_version found)

connect_as-klap :
    (found : DiscoveryResult)
    → found.encrypt_type ≡ encrypt_klap
    → connect_as found.host found ≡ ok (klap_plan_of found)
unfolding connect_as ◌==ₜ◌
connect_as-klap found e = rw e refl

connect_as-xor :
    (found : DiscoveryResult)
    → found.encrypt_type ≡ encrypt_xor
    → connect_as found.host found ≡ ok iot_over_xor
unfolding connect_as ◌==ₜ◌
connect_as-xor found e = rw e refl

module _ {K F : Type 0} (b : Backend Stage K F) (sound : IsSound b.crypto) (takes : Takes b.crypto)
    (device : KlapDevice) (entropy : Text) where
  new_klap-KlapReady :
      (p : Protocol) (host url : Text) (creds : Credentials) (timeout login : ℤ) (v : Stage)
      → b.http url timeout ≡ device_http b.crypto device entropy
      → klap_auth_hash b.crypto creds login ≡ device.auth_hash
      → KlapReady b sound takes device entropy
          (v, link_of (build_querier host creds timeout (klap_plan p url login)))
  unfolding build_querier
  new_klap-KlapReady Protocol.iot host url creds timeout login v at same = (at, inl (refl, same))
  new_klap-KlapReady Protocol.smart host url creds timeout login v at same = (at, inl (refl, same))

  discovered_klap-IsServed :
      (creds : Credentials) (timeout : ℤ) (found : DiscoveryResult) (w : World Stage)
      → found.encrypt_type ≡ encrypt_klap
      → b.http (device_url found.host found ++ codes "/app") timeout
        ≡ device_http b.crypto device entropy
      → klap_auth_hash b.crypto creds (login_version found) ≡ device.auth_hash
      → IsServed b
          (KlapReady b sound takes device entropy)
          (klap_plan_of found)
          w
          (discovered_device creds timeout found)
  unfolding discovered_device
  discovered_klap-IsServed creds timeout found w scheme at same = record {
    found = found;
    known = refl;
    planned = connect_as-klap found scheme;
    fresh = λ v.
        new_klap-KlapReady (dialect found) found.host (device_url found.host found ++ codes "/app")
          creds timeout (login_version found) v at same;
    held = tt;
  }

  -- A device that announced KLAP in discovery, that keeps to the protocol at the announced address, has
  -- the client's credentials under the announced login version and gives answers within the limit on a
  -- body: each read of it, however many were made before, succeeds or fails as the dialect makes of the
  -- device's own answers, with the same reading; neither handshakes, encryption nor sequence numbers
  -- change anything.
  pub klap_reads :
      (creds : Credentials) (timeout : ℤ) (found : DiscoveryResult) (w : World Stage) (n : ℕ)
      → found.encrypt_type ≡ encrypt_klap
      → b.http (device_url found.host found ++ codes "/app") timeout
        ≡ device_http b.crypto device entropy
      → klap_auth_hash b.crypto creds (login_version found) ≡ device.auth_hash
      → length device.seed ≡ 16
      → ((request : Text) → length (device.respond request) + 48 ≤ max_response_bytes)
      → NextPlain b
          (answers_of device.respond)
          (klap_plan_of found)
          (after_reads b n w (discovered_device creds timeout found))
  klap_reads creds timeout found w n scheme at same seeded small =
      let Good = KlapReady b sound takes device entropy in
      let serves = klap-Serves b sound takes device entropy seeded small in
      let (d, w') = after_reads b n w (discovered_device creds timeout found) in
      let s =
        after_reads-IsServed b Good (klap_plan_of found) (λ body. Unit) (answers_of device.respond)
          serves (λ iot request body e. tt) (λ smart request body e. tt) n w
          (discovered_device creds timeout found)
          (discovered_klap-IsServed creds timeout found w scheme at same) in
      (read_device-Read b Good (klap_plan_of found) (λ body. Unit) (answers_of device.respond)
        serves (λ iot request body e. tt) (λ smart request body e. tt) w' d s).0

module _ {W K F : Type 0} (b : Backend W K F) (reply : Text → Text) (creds : Credentials)
    (timeout : ℤ) (found : DiscoveryResult)
    (reached : (w : W) → IsReached (b.exchange w).0 found.host reply)
    (iot_fits : kasa_exporter.Iot.Querier.Ideal.AllFit b.iot_codec IsBytes) where
  discovered_xor-IsServed :
      (w : World W)
      → found.encrypt_type ≡ encrypt_xor
      → IsServed b
          (XorReady b found.host reply reached)
          iot_over_xor
          w
          (discovered_device creds timeout found)
  unfolding discovered_device build_querier
  discovered_xor-IsServed w scheme = record {
    found = found;
    known = refl;
    planned = connect_as-xor found scheme;
    fresh = λ v. refl;
    held = tt;
  }

  -- A device that announced the legacy transport in discovery, that every exchange reaches, that takes and
  -- answers in frames, and whose answers are not empty and within the limit on a frame, where the requests
  -- of the IOT dialect are written as bytes: each read of it, however many were made before, succeeds or fails as the IOT
  -- dialect makes of the device's own answers, or of the error for a request above that limit, with the
  -- same reading.
  pub xor_reads :
      (w : World W) (n : ℕ)
      → found.encrypt_type ≡ encrypt_xor
      → ((request : Text) → IsFrameable (reply request) × (0 < length (reply request)))
      → NextPlain b
          (framed reply)
          iot_over_xor
          (after_reads b n w (discovered_device creds timeout found))
  xor_reads w n scheme answers =
      let Good = XorReady b found.host reply reached in
      let serves = xor-Serves b found.host reply reached answers in
      let (d, w') = after_reads b n w (discovered_device creds timeout found) in
      let s =
        after_reads-IsServed b Good iot_over_xor IsBytes (framed reply) serves (λ iot. iot_fits)
          (λ smart. absurd smart) n w (discovered_device creds timeout found)
          (discovered_xor-IsServed w scheme) in
      (read_device-Read b Good iot_over_xor IsBytes (framed reply) serves (λ iot. iot_fits)
        (λ smart. absurd smart) w' d s).0
