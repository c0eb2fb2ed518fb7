-- ===== src/Config.antt =====
-- config/kasa.go: from the parsed flags to the registry. Parsing the command line and a duration
-- is left to the packages that do it; addresses are ASCII, so a rune is a byte.
pub mod Hosts
pub mod Polling
pub mod Tests
use kasa_exporter.Base.{
  ℕ, zero, suc, ◌+◌, ◌-◌, ◌*◌, ◌/◌, ◌%◌, ◌^◌, ◌≤◌, ◌<◌, String, ◌≡◌, refl, sym, ap, ◌∙◌, subst, ◌≢◌,
  ◌↔◌, ◌⊎◌, inl, inr, Bool, true, false, not, ◌&&◌, ◌||◌, Option, none, some, List, [], ◌∷◌, ◌++◌,
  map, arith, ltb, leb, ◌==◌, if◌then◌else◌, ltb→lt, lt→ltb, leb→le, ==_iff, Bool-cases,
  Option-cases, length, get_elem?, set, get_or, take, drop, replicate, length-append,
  take-append-drop, length-take, length-drop, length-replicate, length-map, All, Any, take_all,
  drop_all, take-append, drop-append, is_some, All-append, All-take, All-drop,
}
use kasa_exporter.Base.Text.{
  Text, codes, ◌==ₜ◌, ==ₜ_iff, ==ₜ_refl, contains, upper_byte, to_upper, has_prefix, has_infix,
}
use kasa_exporter.Base.Int.{
  ℤ, pos, negsuc, pos_part, neg_part, sub_ℕ, ◌+ℤ◌, ◌-ℤ◌, ◌*ℤ◌, ◌≤ℤ◌, ltb_ℤ,
}
use kasa_exporter.Errors.{
  Error, Result, ok, err, ◌>>=◌, ◌>>◌, reject_if, no_devices, bad_concurrency, bad_packets,
  bad_timeout,
}
use kasa_exporter.Registry.{Options, Registry, new_registry}

-- `DeviceFlags`; durations in nanoseconds.
pub record DeviceFlags : Type 0 where
  pub hosts : List Text
  pub username : Text
  pub password : Text
  pub discovery : Bool
  pub discovery_target : Text
  pub discovery_interval : ℤ
  pub discovery_timeout : ℤ
  pub discovery_packets : ℤ
  pub timeout : ℤ
  pub cache_ttl : ℤ
  pub concurrency : ℤ
  pub keep_missing : Bool

-- `UnmarshalText` of Duration, into what it was before; str2duration.ParseDuration is the parameter.
abbrev pub unmarshal_text :
    (parse_duration : Text → Result ℤ) → ℤ → (text : Text) → Option Error × ℤ
unmarshal_text parse_duration d text = elim (parse_duration text) [
  | err e ↦ (some e, d)
  | ok v ↦ (none, v)
]

-- `isHostSeparator`
abbrev pub is_host_separator : ℕ → Bool
is_host_separator r = r == b',' || (r == 10 || r == 13)

-- A field, unless it is empty.
abbrev pub field_before : Text → List Text → List Text
field_before [] fields = fields
field_before (c ∷ field) fields = (c ∷ field) ∷ fields

-- strings.FieldsFunc(value, isHostSeparator), with the field that is being read.
pub fields_from : (field value : Text) → List Text
fields_from field [] = field_before field []
fields_from field (c ∷ value) =
    let rest = fields_from [] value in
    let longer = fields_from (field ++ c ∷ []) value in
    if is_host_separator c then field_before field rest else longer

-- The white space that strings.TrimSpace takes off, among the ASCII characters.
abbrev pub is_space : ℕ → Bool
is_space c = c == 32 || leb 9 c && leb c 13

unfoldable pub trim_left : Text → Text
trim_left [] = []
trim_left (c ∷ s) = let rest = trim_left s in if is_space c then rest else c ∷ s

unfoldable pub trim_right : Text → Text
trim_right [] = []
trim_right (c ∷ s) =
    let rest = trim_right s in if is_space c && length rest == 0 then [] else c ∷ rest

-- strings.TrimSpace
unfoldable pub trim_space : Text → Text
unfolding trim_left trim_right
trim_space s = trim_right (trim_left s)

-- One round of the inner loop; `seen` of the source holds the very hosts that were appended.
abbrev pub add_host : List Text → Text → List Text
add_host hosts host = if length host == 0 || contains hosts host then hosts else hosts ++ host ∷ []

pub add_fields : List Text → List Text → List Text
unfolding trim_space
add_fields hosts [] = hosts
add_fields hosts (field ∷ fields) = add_fields (add_host hosts (trim_space field)) fields

pub add_values : List Text → List Text → List Text
unfolding add_fields fields_from
add_values hosts [] = hosts
add_values hosts (value ∷ values) = add_values (add_fields hosts (fields_from [] value)) values

-- `parseHosts`
unfoldable pub parse_hosts : List Text → List Text
unfolding add_values
parse_hosts values = add_values [] values

abbrev pub options_of : DeviceFlags → List Text → Options
options_of f hosts = record {
  hosts = hosts;
  credentials = record { username = f.username; password = f.password };
  discovery = f.discovery;
  discovery_target = f.discovery_target;
  discovery_interval = f.discovery_interval;
  discovery_timeout = f.discovery_timeout;
  discovery_packets = f.discovery_packets;
  timeout = f.timeout;
  cache_ttl = f.cache_ttl;
  concurrency = f.concurrency;
  keep_missing = f.keep_missing;
}

-- `buildOptions`
unfoldable pub build_options : DeviceFlags → Result Options
build_options f = do
  reject_if (not f.discovery && length (parse_hosts f.hosts) == 0) no_devices
  reject_if (ltb_ℤ f.concurrency (pos 1)) bad_concurrency
  reject_if (ltb_ℤ f.discovery_packets (pos 1)) bad_packets
  reject_if (not (ltb_ℤ (pos 0) f.timeout)) bad_timeout
  ok (options_of f (parse_hosts f.hosts))

module _ {Q F : Type 0} where
  -- `buildRegistry`
  unfoldable pub build_registry : DeviceFlags → Result (Registry Q F)
  unfolding build_options
  build_registry f = do opts ← build_options f; ok (new_registry opts)

  -- `Registry`: only the first result is kept, a failure too.
  abbrev pub shared_registry :
      Option (Result (Registry Q F))
      → DeviceFlags
      → Result (Registry Q F) × Option (Result (Registry Q F))
  shared_registry (some kept) f = (kept, some kept)
  shared_registry none f = (build_registry f, some (build_registry f))
