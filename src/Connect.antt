-- ===== src/Connect.antt =====
-- kasa/connect.go: which transport and dialect a device is spoken to with, and the negotiation for a
-- device that has not said so.
pub mod Budget
pub mod Describe
pub mod Negotiate
pub mod Tests
use kasa_exporter.Base.{
  ◌+◌, ◌/◌, Bool, true, false, ◌&&◌, ◌||◌, Option, none, some, List, [], ◌∷◌, ◌++◌, ◌==◌,
  if◌then◌else◌, length,
}
use kasa_exporter.Base.Text.{Text, codes, ◌==ₜ◌}
use kasa_exporter.Base.Int.{ℤ, pos, negsuc, ◌-ℤ◌, ltb_ℤ}
use kasa_exporter.Base.Decimal.{itoa_ℤ}
use kasa_exporter.Errors.{
  Error, Result, ok, err, unsupported_scheme, unreachable, klap_unauthorized, aes_unauthorized,
}
use kasa_exporter.Reading.{Protocol, Reading}
use kasa_exporter.Discovery.{
  DiscoveryResult, dialect, login_version, http_port, encrypt_xor, encrypt_klap, encrypt_aes,
  klap_login_v1, klap_login_v2,
}
use kasa_exporter.Iot.{is_zero}

-- `Credentials` of kasa/klap.go
pub record Credentials : Type 0 where
  pub username : Text
  pub password : Text

-- What `connectAs` builds: a dialect over a transport, with the parts that differ between them.
pub data Plan : Type 0 where
  iot_over_xor : Plan
  iot_over_klap smart_over_klap : (url : Text) → (login : ℤ) → Plan
  smart_over_aes : (url : Text) → Plan

-- net.JoinHostPort: an address with a colon stands in brackets.
abbrev has_colon : Text → Bool
has_colon [] = false
has_colon (c ∷ h) = c == b':' || has_colon h

unfoldable pub join_host_port : Text → ℤ → Text
join_host_port host port =
    if has_colon host
    then b'[' ∷ (host ++ (codes "]:" ++ itoa_ℤ port))
    else host ++ (b':' ∷ itoa_ℤ port)

unfoldable pub device_url : Text → DiscoveryResult → Text
unfolding join_host_port
device_url host found =
    (if found.https then codes "https" else codes "http")
    ++ (codes "://"
        ++ join_host_port host
            (if found.https && is_zero found.http_port then pos 443 else http_port found))

abbrev pub klap_plan : Protocol → Text → ℤ → Plan
klap_plan Protocol.smart url login = smart_over_klap url login
klap_plan Protocol.iot url login = iot_over_klap url login

-- `connectAs`
unfoldable pub connect_as : Text → DiscoveryResult → Result Plan
unfolding device_url
connect_as host found =
    if found.encrypt_type ==ₜ encrypt_xor || length found.encrypt_type == 0
    then ok iot_over_xor
    else if found.encrypt_type ==ₜ encrypt_klap
    then ok
        (klap_plan (dialect found) (device_url host found ++ codes "/app") (login_version found))
    else if found.encrypt_type ==ₜ encrypt_aes
    then ok (smart_over_aes (device_url host found ++ codes "/app"))
    else err unsupported_scheme

abbrev pub candidate : Text → Text → ℤ → DiscoveryResult
candidate encrypt_type family login = record {
  host = [];
  alias = [];
  model = [];
  device_id = [];
  mac = [];
  family = family;
  encrypt_type = encrypt_type;
  http_port = pos 0;
  login_version = login;
  https = false;
}

-- `probeOrder()`
abbrev pub probe_order : List DiscoveryResult
probe_order =
    candidate encrypt_klap (codes "SMART") klap_login_v2
    ∷ candidate encrypt_klap (codes "IOT") klap_login_v2
    ∷ candidate encrypt_klap (codes "IOT") klap_login_v1
    ∷ candidate encrypt_aes (codes "SMART") (pos 0)
    ∷ candidate encrypt_xor (codes "IOT") (pos 0)
    ∷ []

-- time.Duration counts nanoseconds; Go's division rounds towards zero.
abbrev pub half_second : ℤ
half_second = pos 500_000_000

abbrev quarter : ℤ → ℤ
quarter (pos n) = pos (n / 4)
quarter (negsuc n) = pos 0 -ℤ pos ((n + 1) / 4)

unfoldable pub unicast_discovery_budget : ℤ → ℤ
unicast_discovery_budget timeout =
    let share = quarter timeout in
    let floored = if ltb_ℤ share half_second then half_second else share in
    if ltb_ℤ timeout floored then timeout else floored

-- How queriers are built and used, and what the network answers; `W` is the state of the world.
pub record Queriers (W Q F : Type 0) : Type 0 where
  pub build : Text → Credentials → ℤ → Plan → Q
  pub read : W → Q → Result (Reading F) × Q × W
  pub close : W → Q → W
  pub discover_host : W → Text → ℤ → Result DiscoveryResult × W

-- `errors.Is(err, errKlapUnauthorized) || errors.Is(err, errAESUnauthorized)`
abbrev pub is_unauthorized : Error → Bool
is_unauthorized klap_unauthorized = true
is_unauthorized aes_unauthorized = true
is_unauthorized _ = false

module _ {W Q F : Type 0} (net : Queriers W Q F) (host : Text) (creds : Credentials)
    (timeout : ℤ) where
  abbrev pub built : Result Plan → Result Q
  built (err e) = err e
  built (ok plan) = ok (net.build host creds timeout plan)

  unfoldable pub connect : DiscoveryResult → Result Q
  connect found = built (connect_as host found)

  -- The outcome of one attempt: connected, or the reason why not.
  abbrev pub kept : Result (Reading F) × Q × W → Result Q × W
  kept (ok reading, q, w) = (ok q, w)
  kept (err e, q, w) = (err e, net.close w q)

  abbrev pub read_once : W → Result Q → Result Q × W
  read_once w (err e) = (err e, w)
  read_once w (ok q) = kept (net.read w q)

  unfoldable pub attempt : W → DiscoveryResult → Result Q × W
  unfolding connect
  attempt w found = read_once w (connect found)

  -- One round of the loop over the candidates; `rest` is the rounds after it.
  abbrev pub next_round :
      Result Q × W
      → List Error
      → (W → List Error → Result Q × W × List Error)
      → Result Q × W × List Error
  next_round (ok q, w) reasons rest = (ok q, w, reasons)
  next_round (err e, w) reasons rest =
      if is_unauthorized e
      then (err unreachable, w, reasons ++ e ∷ [])
      else rest w (reasons ++ e ∷ [])

  -- The loop, with the reasons collected in order.
  unfoldable pub try_candidates : W → List DiscoveryResult → List Error → Result Q × W × List Error
  try_candidates w [] reasons = (err unreachable, w, reasons)
  try_candidates w (c ∷ cs) reasons =
      next_round (attempt w c) reasons (λ w' so_far. try_candidates w' cs so_far)

  abbrev pub without_reasons : Result Q × W × List Error → Result Q × W
  without_reasons t = (t.0, t.1)

  abbrev pub after_asking : W → Result Q → Result Q × W
  after_asking w (ok q) = (ok q, w)
  after_asking w (err e) = without_reasons (try_candidates w probe_order [])

  abbrev pub asked : W → Result DiscoveryResult → Result Q × W
  asked w (err e) = (err e, w)
  asked w (ok found) = attempt w found

  unfoldable pub negotiate_unknown : W → Result Q × W
  unfolding attempt try_candidates
  negotiate_unknown w =
      let (d, w1) = net.discover_host w host (unicast_discovery_budget timeout) in
      let (r, w2) = asked w1 d in after_asking w2 r

  -- `negotiate`
  unfoldable pub negotiate : W → Option DiscoveryResult → Result Q × W
  unfolding connect negotiate_unknown
  negotiate w (some known) = (connect known, w)
  negotiate w none = negotiate_unknown w
