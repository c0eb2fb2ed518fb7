-- ===== src/Reading.antt =====
-- kasa/device.go: the protocol-independent reading, and the category of a device. A `*float64` is an
-- `Option F`, over an abstract number type `F`; a `*bool` is an `Option Bool`.
pub mod Category
pub mod Tests
use kasa_exporter.Base.{Bool, false, ◌||◌, Option, none, some, List, [], ◌∷◌, ◌==◌, if◌then◌else◌}
use kasa_exporter.Base.Text.{Text, codes, to_upper, has_prefix, has_infix}

-- The eight constants of type DeviceType. The empty string, which a `Device` holds until its first
-- read, is `none` of an `Option DeviceType`.
pub data DeviceType : Type 0 where
  plug strip bulb light_strip dimmer wall_switch hub unknown : DeviceType

pub DeviceType-discrete : Discrete DeviceType
DeviceType-discrete = hlevel

pub data Protocol : Type 0 where
  iot smart : Protocol

-- The values of type Protocol.
abbrev pub protocol_text : Protocol → Text
protocol_text iot = codes "iot"
protocol_text smart = codes "smart"

pub record Energy (F : Type 0) : Type 0 where
  pub power_watts : Option F
  pub voltage_volts : Option F
  pub current_amperes : Option F
  pub total_kwh : Option F

pub record Socket (F : Type 0) : Type 0 where
  pub id : Text
  pub alias : Text
  pub on : Option Bool
  pub uptime_seconds : Option F
  pub energy : Option (Energy F)

pub record Child (F : Type 0) : Type 0 where
  pub id : Text
  pub alias : Text
  pub model : Text
  pub category : Text
  pub online : Option Bool
  pub battery_percent : Option F
  pub battery_low : Option Bool
  pub temperature_celsius : Option F
  pub humidity_percent : Option F
  pub signal_level : Option F
  pub rssi : Option F

pub record Reading (F : Type 0) : Type 0 where
  pub host : Text
  pub alias : Text
  pub model : Text
  pub device_id : Text
  pub hardware_version : Text
  pub firmware_version : Text
  pub mac : Text
  pub device_type : DeviceType
  pub protocol : Protocol
  pub on : Option Bool
  pub led_on : Option Bool
  pub overheated : Option Bool
  pub updating : Option Bool
  pub uptime_seconds : Option F
  pub rssi : Option F
  pub signal_level : Option F
  pub brightness : Option F
  pub color_temp_kelvin : Option F
  pub hue : Option F
  pub saturation : Option F
  pub light_strip_length : Option F
  pub energy : Option (Energy F)
  pub sockets : List (Socket F)
  pub children : List (Child F)

-- One case of the `switch` on the model: any of its prefixes.
unfoldable pub has_any_prefix : Text → List Text → Bool
unfolding has_prefix
has_any_prefix m [] = false
has_any_prefix m (p ∷ ps) = has_prefix m p || has_any_prefix m ps

-- `strings.IndexAny(m, "( ")` and the cut: the text before the first of the two characters.
unfoldable pub before_mark : Text → Text
before_mark [] = []
before_mark (c ∷ m) = if c == b'(' || c == b' ' then [] else c ∷ before_mark m

-- `if i > 0`: a mark in first place cuts nothing.
unfoldable pub cut_suffix : Text → Text
unfolding before_mark
cut_suffix m = elim (before_mark m) [ [] ↦ m | c ∷ r ↦ c ∷ r ]

abbrev pub strip_models : List Text
strip_models =
    codes "HS300"
    ∷ codes "HS107"
    ∷ codes "KP200"
    ∷ codes "KP303"
    ∷ codes "KP400"
    ∷ codes "EP40"
    ∷ codes "P300"
    ∷ codes "P304"
    ∷ codes "P306"
    ∷ codes "TP25"
    ∷ []

abbrev pub hub_models : List Text
hub_models = codes "KH100" ∷ codes "H100" ∷ codes "H200" ∷ codes "H300" ∷ []

abbrev pub light_strip_models : List Text
light_strip_models =
    codes "KL400" ∷ codes "KL420" ∷ codes "KL430" ∷ codes "L900" ∷ codes "L920" ∷ codes "L930" ∷ []

abbrev pub dimmer_models : List Text
dimmer_models =
    codes "HS220"
    ∷ codes "KS220"
    ∷ codes "KS230"
    ∷ codes "ES20"
    ∷ codes "S500D"
    ∷ codes "S505D"
    ∷ []

abbrev pub wall_switch_models : List Text
wall_switch_models =
    codes "HS200"
    ∷ codes "HS210"
    ∷ codes "KS200"
    ∷ codes "KS205"
    ∷ codes "KS225"
    ∷ codes "KS240"
    ∷ codes "S500"
    ∷ codes "S505"
    ∷ codes "S210"
    ∷ codes "S220"
    ∷ []

abbrev pub bulb_models : List Text
bulb_models =
    codes "KL"
    ∷ codes "LB"
    ∷ codes "L510"
    ∷ codes "L520"
    ∷ codes "L530"
    ∷ codes "L535"
    ∷ codes "L610"
    ∷ codes "L630"
    ∷ []

abbrev pub plug_models : List Text
plug_models =
    codes "HS1"
    ∷ codes "KP1"
    ∷ codes "EP1"
    ∷ codes "EP2"
    ∷ codes "P100"
    ∷ codes "P110"
    ∷ codes "P115"
    ∷ codes "P125"
    ∷ codes "P135"
    ∷ codes "TP15"
    ∷ []

-- The `switch` on the model; `none` where no case matches.
unfoldable pub type_of_model : Text → Option DeviceType
unfolding has_any_prefix
type_of_model m =
    if has_any_prefix m strip_models
    then some strip
    else if has_any_prefix m hub_models
    then some hub
    else if has_any_prefix m light_strip_models
    then some light_strip
    else if has_any_prefix m dimmer_models
    then some dimmer
    else if has_any_prefix m wall_switch_models
    then some wall_switch
    else if has_any_prefix m bulb_models
    then some bulb
    else if has_any_prefix m plug_models
    then some plug
    else none

-- The `switch` on the family.
unfoldable pub type_of_family : Text → DeviceType
unfolding has_infix
type_of_family f =
    if has_infix f (codes "HUB")
    then hub
    else if has_infix f (codes "SWITCH")
    then wall_switch
    else if has_infix f (codes "BULB") || has_infix f (codes "LIGHT")
    then bulb
    else if has_infix f (codes "PLUG")
    then plug
    else unknown

-- The two switches over the shortened model and the family, both in upper case.
unfoldable pub resolve_type : Text → Text → DeviceType
unfolding type_of_model type_of_family
resolve_type m f = elim (type_of_model m) [ some t ↦ t | none ↦ type_of_family f ]

unfoldable pub device_type_for : Text → Text → DeviceType
device_type_for model family = resolve_type (cut_suffix (to_upper model)) (to_upper family)
