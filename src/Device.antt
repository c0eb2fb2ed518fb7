-- ===== src/Device.antt =====
-- kasa/device.go: a managed device, its session and what it remembers; and the two constructors of
-- kasa/connect.go. A read is one step of the world, since the mutex of the device is held across it.
pub mod Memory
pub mod Tests
use kasa_exporter.Base.{Option, none, some, [], ◌∷◌}
use kasa_exporter.Base.Text.{Text}
use kasa_exporter.Base.Int.{ℤ}
use kasa_exporter.Errors.{Result, ok, err}
use kasa_exporter.Reading.{DeviceType, unknown, Reading}
use kasa_exporter.Discovery.{DiscoveryResult}
use kasa_exporter.Connect.{Credentials, Queriers, negotiate}

pub record Device (Q : Type 0) : Type 0 where
  pub host : Text
  pub querier : Option Q
  pub alias : Text
  pub device_type : Option DeviceType
  pub discovered : Option DiscoveryResult
  pub creds : Credentials
  pub timeout : ℤ

abbrev pub or_text : Text → Text → Text
or_text [] t = t
or_text (c ∷ s) t = c ∷ s

-- `d.Alias()`
abbrev pub alias_of : {Q : Type 0} → Device Q → Text
alias_of d = or_text d.alias d.host

abbrev known_type : Option DeviceType → DeviceType
known_type none = unknown
known_type (some t) = t

-- `d.Type()`
abbrev pub type_of : {Q : Type 0} → Device Q → DeviceType
type_of d = known_type d.device_type

-- `Connect`
unfoldable pub new_device : {Q : Type 0} → Text → Credentials → ℤ → Device Q
new_device host creds timeout = record {
  host = host;
  querier = none;
  alias = [];
  device_type = none;
  discovered = none;
  creds = creds;
  timeout = timeout;
}

-- What `Discover` makes of one answer.
unfoldable pub discovered_device : {Q : Type 0} → Credentials → ℤ → DiscoveryResult → Device Q
discovered_device creds timeout result = record {
  host = result.host;
  querier = none;
  alias = result.alias;
  device_type = none;
  discovered = some result;
  creds = creds;
  timeout = timeout;
}

module _ {W Q F : Type 0} (net : Queriers W Q F) where
  -- The connection that there is, or a new one.
  abbrev pub session : W → Device Q → Option Q → Result Q × W
  session w d (some q) = (ok q, w)
  session w d none = negotiate net d.host d.creds d.timeout w d.discovered

  -- After the querier has answered: a failure drops the connection, a reading is remembered.
  abbrev pub answered : Device Q → Result (Reading F) × Q × W → Result (Reading F) × Device Q × W
  answered d (err e, q, w) = (err e, record d { querier = none }, net.close w q)
  answered d (ok reading, q, w) = (
    ok (record reading { host = d.host }),
    record d {
      querier = some q;
      alias = or_text reading.alias d.alias;
      device_type = some reading.device_type;
    },
    w,
  )

  abbrev pub read_over : Device Q → Result Q × W → Result (Reading F) × Device Q × W
  read_over d (err e, w) = (err e, d, w)
  read_over d (ok q, w) = answered d (net.read w q)

  -- `d.Read`
  unfoldable pub read_device : W → Device Q → Result (Reading F) × Device Q × W
  read_device w d = read_over d (session w d d.querier)

  abbrev hung_up : W → Device Q → Option Q → Device Q × W
  hung_up w d none = (d, w)
  hung_up w d (some q) = (record d { querier = none }, net.close w q)

  -- `d.Close`
  unfoldable pub close_device : W → Device Q → Device Q × W
  close_device w d = hung_up w d d.querier
