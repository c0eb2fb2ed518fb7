-- ===== src/Discovery.antt =====
-- kasa/discover.go: what a device says of itself, the parsing of replies, and one sweep. The socket is
-- a list of datagrams; encoding/json of a reply is the parameter `SmartCodec` (and `IotCodec`).
pub mod Sweeps
pub mod Log
pub mod Collect
pub mod Preferred
pub mod Tests
use kasa_exporter.Base.{
  ℕ, Bool, true, false, not, ◌&&◌, ◌||◌, Option, none, some, List, [], ◌∷◌, map, leb, ◌==◌,
  if◌then◌else◌, length, drop,
}
use kasa_exporter.Base.Text.{Text, codes, ◌==ₜ◌, to_upper, has_prefix}
use kasa_exporter.Base.Int.{ℤ, pos}
use kasa_exporter.Base.Dict.{Dict, lookup, insert}
use kasa_exporter.Errors.{Result, ok, err, socket_failed, probe_failed, no_answer}
use kasa_exporter.Reading.{Protocol}
use kasa_exporter.Xor.{xor_decrypt}
use kasa_exporter.Iot.{IotResponse, IotSysinfo, mac_of, family_of, is_zero}
use kasa_exporter.Iot.Querier.{IotCodec}

abbrev pub discovery_port_iot : ℕ
discovery_port_iot = 9999

abbrev pub discovery_port_smart : ℕ
discovery_port_smart = 20002

-- The length of the binary header before the JSON of a port-20002 reply.
abbrev pub discovery_header_smart : ℕ
discovery_header_smart = 16

abbrev pub encrypt_xor : Text
encrypt_xor = codes "XOR"

abbrev pub encrypt_klap : Text
encrypt_klap = codes "KLAP"

abbrev pub encrypt_aes : Text
encrypt_aes = codes "AES"

abbrev pub klap_login_v1 : ℤ
klap_login_v1 = pos 1

abbrev pub klap_login_v2 : ℤ
klap_login_v2 = pos 2

pub record DiscoveryResult : Type 0 where
  pub host : Text
  pub alias : Text
  pub model : Text
  pub device_id : Text
  pub mac : Text
  pub family : Text
  pub encrypt_type : Text
  pub http_port : ℤ
  pub login_version : ℤ
  pub https : Bool

-- `d.dialect()`
unfoldable pub dialect : DiscoveryResult → Protocol
dialect d = if has_prefix (to_upper d.family) (codes "SMART") then Protocol.smart else Protocol.iot

abbrev default_login : Protocol → ℤ
default_login Protocol.smart = klap_login_v2
default_login Protocol.iot = klap_login_v1

-- `d.loginVersion()`
unfoldable pub login_version : DiscoveryResult → ℤ
login_version d = if is_zero d.login_version then default_login (dialect d) else d.login_version

-- `d.port()`
unfoldable pub http_port : DiscoveryResult → ℤ
http_port d = if is_zero d.http_port then pos 80 else d.http_port

pub record EncryptScheme : Type 0 where
  pub is_support_https : Bool
  pub encrypt_type : Text
  pub http_port : ℤ
  pub login_version : ℤ

pub record SmartDiscoveryReply : Type 0 where
  pub error_code : ℤ
  pub device_id : Text
  pub device_type : Text
  pub device_model : Text
  pub alias : Text
  pub mac : Text
  pub scheme : Option EncryptScheme

pub record SmartCodec : Type 0 where
  pub unmarshal : Text → Option SmartDiscoveryReply

-- `parseIOTDiscovery`, of a reply that was decoded.
abbrev pub iot_result : {F : Type 0} → Text → IotSysinfo F → DiscoveryResult
iot_result host sysinfo = record {
  host = host;
  alias = sysinfo.alias;
  model = sysinfo.model;
  device_id = sysinfo.device_id;
  mac = mac_of sysinfo;
  family = family_of sysinfo;
  encrypt_type = encrypt_xor;
  http_port = pos 0;
  login_version = pos 0;
  https = false;
}

abbrev iot_reply : {F : Type 0} → Text → Option (IotResponse F) → Option DiscoveryResult
iot_reply host none = none
iot_reply host (some response) = elim response.get_sysinfo [
  | none ↦ none
  | some sysinfo ↦ some (iot_result host sysinfo)
]

abbrev or_klap : Text → Text
or_klap [] = encrypt_klap
or_klap (c ∷ r) = c ∷ r

abbrev with_scheme : DiscoveryResult → Option EncryptScheme → DiscoveryResult
with_scheme d none = d
with_scheme d (some scheme) = record d {
  encrypt_type = to_upper scheme.encrypt_type;
  http_port = scheme.http_port;
  login_version = scheme.login_version;
  https = scheme.is_support_https;
}

-- `parseSMARTDiscovery`, of a reply that was decoded.
unfoldable pub smart_result : Text → SmartDiscoveryReply → DiscoveryResult
smart_result host reply =
    let d =
      with_scheme
        (record {
          host = host;
          alias = reply.alias;
          model = reply.device_model;
          device_id = reply.device_id;
          mac = reply.mac;
          family = reply.device_type;
          encrypt_type = [];
          http_port = pos 0;
          login_version = pos 0;
          https = false;
        })
        reply.scheme in
    record d { encrypt_type = or_klap d.encrypt_type }

abbrev smart_reply : Text → Option SmartDiscoveryReply → Option DiscoveryResult
smart_reply host none = none
smart_reply host (some reply) =
    if not (is_zero reply.error_code) || length reply.device_model == 0
    then none
    else some (smart_result host reply)

pub record Datagram : Type 0 where
  pub host : Text
  pub port : ℕ
  pub payload : Text

module _ {F : Type 0} (iot_codec : IotCodec F) (smart_codec : SmartCodec) where
  unfoldable pub parse_iot_discovery : Text → Text → Option DiscoveryResult
  parse_iot_discovery host payload = iot_reply host (iot_codec.unmarshal (xor_decrypt payload))

  unfoldable pub parse_smart_discovery : Text → Text → Option DiscoveryResult
  parse_smart_discovery host payload =
      if leb (length payload) discovery_header_smart
      then none
      else smart_reply host (smart_codec.unmarshal (drop discovery_header_smart payload))

  unfoldable pub parse_discovery_reply : Datagram → Option DiscoveryResult
  unfolding parse_iot_discovery parse_smart_discovery
  parse_discovery_reply g =
      if g.port == discovery_port_iot
      then parse_iot_discovery g.host g.payload
      else if g.port == discovery_port_smart
      then parse_smart_discovery g.host g.payload
      else none
