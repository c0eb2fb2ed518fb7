-- ===== src/Wiring.antt =====
-- What the plans of Connect stand for: the transports of kasa/xor.go, klap.go and aes.go under the
-- dialects of kasa/iot.go and smart.go, as `connectAs` of kasa/connect.go puts them together.
pub mod Ready
pub mod EndToEnd
pub mod Served
pub mod Passthrough
pub mod Tests
use kasa_exporter.Base.Int.{ℤ}
use kasa_exporter.Base.Text.{Text}
use kasa_exporter.Klap.{KlapTransport, Http, Crypto}
use kasa_exporter.Xor.{Peer, XorTransport}
use kasa_exporter.Iot.Querier.{IotCodec, new_iot_querier, iot_read, IotQuerier}
use kasa_exporter.Connect.{
  iot_over_klap, iot_over_xor, smart_over_klap, smart_over_aes, Plan, Queriers, Credentials,
}
use kasa_exporter.Klap.Query.{klap_query, klap_close}
use kasa_exporter.Transport.{Transport}
use kasa_exporter.Smart.Querier.{new_smart_querier, SmartJson, smart_read, SmartQuerier}
use kasa_exporter.Errors.{Result}
use kasa_exporter.Aes.{Encoding, AesJson, Rsa, AesTransport}
use kasa_exporter.Aes.Query.{aes_query, aes_close}
use kasa_exporter.Reading.{Reading}
use kasa_exporter.Discovery.{DiscoveryResult}
use kasa_exporter.Smart.{Names}
use kasa_exporter.Floats.{Arithmetic}
use kasa_exporter.Base.{
  ℕ, zero, suc, ◌+◌, ◌-◌, ◌*◌, ◌/◌, ◌%◌, ◌^◌, ◌≤◌, ◌<◌, String, ◌≡◌, refl, sym, ap, ◌∙◌, subst, ◌≢◌,
  ◌↔◌, ◌⊎◌, inl, inr, Bool, true, false, not, ◌&&◌, ◌||◌, Option, none, some, List, [], ◌∷◌, ◌++◌,
  map, arith, ltb, leb, ◌==◌, if◌then◌else◌, ltb→lt, lt→ltb, leb→le, ==_iff, Bool-cases,
  Option-cases, length, get_elem?, set, get_or, take, drop, replicate, length-append,
  take-append-drop, length-take, length-drop, length-replicate, length-map, All, Any, take_all,
  drop_all, take-append, drop-append, is_some, All-append, All-take, All-drop,
}

-- What lies outside: the libraries, the HTTP client for a base URL and a timeout, one TCP exchange, and
-- the answer to a probe of one host.
pub record Backend (W K F : Type 0) : Type 0 where
  pub crypto : Crypto
  pub http : (url : Text) → (timeout : ℤ) → Http W
  pub rsa : Rsa W K
  pub aes_json : AesJson
  pub encoding : Encoding
  pub exchange : W → Peer × W
  pub discover_host : W → Text → ℤ → Result DiscoveryResult × W
  pub iot_codec : IotCodec F
  pub smart_json : SmartJson F
  pub names : Names
  pub floats : Arithmetic F

-- The network, and `smartRequestID`, which all queriers share.
pub record World (W : Type 0) : Type 0 where
  pub net : W
  pub request_id : ℕ

-- A transport with its state; the HTTP transports know their base URL.
pub data Link : Type 0 where
  xor_link : (t : XorTransport) → Link
  klap_link : (url : Text) → (timeout : ℤ) → (t : KlapTransport) → Link
  aes_link : (url : Text) → (timeout : ℤ) → (t : AesTransport) → Link

-- `querier` of kasa/device.go: one of the two dialects, over a transport.
pub data Querier : Type 0 where
  iot_querier : IotQuerier Link → Querier
  smart_querier : SmartQuerier Link → Querier

abbrev pub new_klap_transport : Credentials → ℤ → KlapTransport
new_klap_transport creds login = record {
  credentials = creds;
  login_version = login;
  session_id = [];
  enc_key = [];
  sig_key = [];
  iv = [];
  seq = 0;
  established = false;
}

abbrev pub new_aes_transport : Credentials → AesTransport
new_aes_transport creds = record {
  credentials = creds;
  key = [];
  iv = [];
  token = [];
  session_id = [];
  established = false;
}

-- The cases of `connectAs`. The number of requests stands in `World`.
unfoldable pub build_querier : Text → Credentials → ℤ → Plan → Querier
build_querier host creds timeout iot_over_xor =
    iot_querier (new_iot_querier (xor_link (record { host = host; port = 0 })))
build_querier host creds timeout (iot_over_klap url login) =
    iot_querier (new_iot_querier (klap_link url timeout (new_klap_transport creds login)))
build_querier host creds timeout (smart_over_klap url login) =
    smart_querier (new_smart_querier (klap_link url timeout (new_klap_transport creds login)) 0)
build_querier host creds timeout (smart_over_aes url) =
    smart_querier (new_smart_querier (aes_link url timeout (new_aes_transport creds)) 0)

-- `Close` of the three transports.
unfoldable pub close_link : Link → Link
close_link (xor_link t) = xor_link t
close_link (klap_link url timeout t) = klap_link url timeout (klap_close t)
close_link (aes_link url timeout t) = aes_link url timeout (aes_close t)

module _ {W K F : Type 0} (b : Backend W K F) where
  abbrev pub over_klap : Text → ℤ → Result Text × KlapTransport × W → Result Text × (W × Link)
  over_klap url timeout (r, t, w) = (r, (w, klap_link url timeout t))

  abbrev pub over_aes : Text → ℤ → Result Text × AesTransport × W → Result Text × (W × Link)
  over_aes url timeout (r, t, w) = (r, (w, aes_link url timeout t))

  -- `Query` of the three transports.
  unfoldable pub query_link : W × Link → Text → Result Text × (W × Link)
  query_link (w, xor_link t) request =
      let (peer, w') = b.exchange w in (kasa_exporter.Xor.query t peer request, (w', xor_link t))
  query_link (w, klap_link url timeout t) request =
      over_klap url timeout (klap_query b.crypto (b.http url timeout) w t request)
  query_link (w, aes_link url timeout t) request =
      over_aes url timeout
        (aes_query b.crypto (b.http url timeout) b.rsa b.aes_json b.encoding w t request)

  abbrev pub links : Transport (W × Link)
  links = record { query = query_link; close = λ (w, l). (w, close_link l) }

  abbrev pub iot_at : W → IotQuerier Link → IotQuerier (W × Link)
  iot_at w q = record {
    transport = (w, q.transport);
    emeter_module = q.emeter_module;
    device_has_emeter = q.device_has_emeter;
  }

  abbrev pub smart_at : World W → SmartQuerier Link → SmartQuerier (W × Link)
  smart_at w q = record {
    transport = (w.net, q.transport);
    request_id = w.request_id;
    wants_energy = q.wants_energy;
    wants_power = q.wants_power;
    wants_children = q.wants_children;
  }

  abbrev pub iot_done :
      World W → Result (Reading F) × IotQuerier (W × Link) → Result (Reading F) × Querier × World W
  iot_done w (r, q) = (
    r,
    iot_querier (record {
      transport = q.transport.1;
      emeter_module = q.emeter_module;
      device_has_emeter = q.device_has_emeter;
    }),
    record w { net = q.transport.0 },
  )

  abbrev pub smart_done :
      Result (Reading F) × SmartQuerier (W × Link) → Result (Reading F) × Querier × World W
  smart_done (r, q) = (
    r,
    smart_querier (record {
      transport = q.transport.1;
      request_id = 0;
      wants_energy = q.wants_energy;
      wants_power = q.wants_power;
      wants_children = q.wants_children;
    }),
    record { net = q.transport.0; request_id = q.request_id },
  )

  -- `Read` of the two dialects.
  unfoldable pub read_querier : World W → Querier → Result (Reading F) × Querier × World W
  unfolding query_link
  read_querier w (iot_querier q) = iot_done w (iot_read links b.iot_codec b.floats (iot_at w.net q))
  read_querier w (smart_querier q) =
      smart_done (smart_read links b.smart_json b.names b.floats (smart_at w q))

  -- The queriers that Connect and Device work with. `Close` only resets the transport of a querier
  -- that is dropped.
  unfoldable pub wired : Queriers (World W) Querier F
  unfolding build_querier read_querier
  wired = record {
    build = build_querier;
    read = read_querier;
    close = λ w q. w;
    discover_host = λ w host timeout.
        let (r, w') = b.discover_host w.net host timeout in (r, record w { net = w' });
  }
