-- ===== src/Connect/Describe.antt =====
-- kasa/connect.go: how a transport is named, and the settings of the HTTP client.
use kasa_exporter.Base.{◌++◌, if◌then◌else◌}
use kasa_exporter.Base.Text.{Text, codes, to_lower, ◌==ₜ◌}
use kasa_exporter.Base.Int.{ℤ}
use kasa_exporter.Base.Decimal.{itoa_ℤ}
use kasa_exporter.Discovery.{
  DiscoveryResult, dialect, login_version, encrypt_xor, encrypt_klap, encrypt_aes,
}
use kasa_exporter.Reading.{protocol_text}

-- `describe`
unfoldable pub describe : DiscoveryResult → Text
describe d =
    if d.encrypt_type ==ₜ encrypt_xor
    then codes "legacy protocol on port 9999"
    else if d.encrypt_type ==ₜ encrypt_aes
    then codes "AES on HTTP"
    else if d.encrypt_type ==ₜ encrypt_klap
    then to_lower (protocol_text (dialect d))
      ++ (codes " over KLAP login version " ++ itoa_ℤ (login_version d))
    else d.encrypt_type

-- What http.Client does about a redirect.
pub data RedirectPolicy : Type 0 where
  follow use_last_response : RedirectPolicy

-- `http.Client`, as far as it is set.
pub record HttpClient : Type 0 where
  pub timeout : ℤ
  pub check_redirect : RedirectPolicy

-- `httpClient`
abbrev pub http_client : (timeout : ℤ) → HttpClient
http_client timeout = record { timeout = timeout; check_redirect = use_last_response }
