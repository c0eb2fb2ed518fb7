-- ===== src/Smart/Querier.antt =====
-- `smartQuerier` of kasa/smart.go: the requests of one read over a transport, and which methods it still
-- asks for. encoding/json is the parameter `SmartJson`; the terminal identifier and the time that a
-- request carries are part of how it is marshalled.
pub mod Requests
pub mod Answers
pub mod Ideal
use kasa_exporter.Base.{
  ℕ, zero, suc, ◌+◌, ◌-◌, ◌*◌, ◌/◌, ◌%◌, ◌^◌, ◌≤◌, ◌<◌, String, ◌≡◌, refl, sym, ap, ◌∙◌, subst, ◌≢◌,
  ◌↔◌, ◌⊎◌, inl, inr, Bool, true, false, not, ◌&&◌, ◌||◌, Option, none, some, List, [], ◌∷◌, ◌++◌,
  map, arith, ltb, leb, ◌==◌, if◌then◌else◌, ltb→lt, lt→ltb, leb→le, ==_iff, Bool-cases,
  Option-cases, length, get_elem?, set, get_or, take, drop, replicate, length-append,
  take-append-drop, length-take, length-drop, length-replicate, length-map, All, Any, take_all,
  drop_all, take-append, drop-append, is_some, All-append, All-take, All-drop,
}
use kasa_exporter.Base.Text.{
  Text, codes, ◌==ₜ◌, ==ₜ_iff, ==ₜ_refl, contains, upper_byte, to_upper, has_prefix, has_infix,
}
use kasa_exporter.Base.Int.{
  ℤ, pos, negsuc, pos_part, neg_part, sub_ℕ, ◌+ℤ◌, ◌-ℤ◌, ◌*ℤ◌, ◌≤ℤ◌, ltb_ℤ,
}
use kasa_exporter.Base.Dict.{Dict, lookup, insert}
use kasa_exporter.Errors.{
  Error, Result, ok, err, ◌>>=◌, ◌>>◌, reject_if, or_error, unexpected_response, unexpected_info,
  device_code,
}
use kasa_exporter.Floats.{Arithmetic}
use kasa_exporter.Transport.{Transport}
use kasa_exporter.Reading.{Reading, Energy}
use kasa_exporter.Iot.{is_zero}
use kasa_exporter.Smart.{
  SmartDeviceInfo, SmartEnergyUsage, Names, smart_reading, apply_children, merge_energy,
}

abbrev pub get_device_info : Text
get_device_info = codes "get_device_info"

abbrev pub get_energy_usage : Text
get_energy_usage = codes "get_energy_usage"

abbrev pub get_current_power : Text
get_current_power = codes "get_current_power"

abbrev pub get_child_device_list : Text
get_child_device_list = codes "get_child_device_list"

-- What `smartRequest` builds: a request of one method, or of several in one.
pub data SmartRequest : Type 0 where
  single : (id : ℕ) → (method : Text) → SmartRequest
  multiple : (id : ℕ) → (methods : List Text) → SmartRequest

-- `smartEnvelope` and `smartBatchResponse`; a missing result is the empty text.
pub record SmartEnvelope : Type 0 where
  pub error_code : ℤ
  pub result : Text

pub record SmartBatchResponse : Type 0 where
  pub method : Text
  pub error_code : ℤ
  pub result : Text

pub record SmartJson (F : Type 0) : Type 0 where
  pub marshal : SmartRequest → Result Text
  pub envelope : Text → Option SmartEnvelope
  pub responses : Text → Option (List SmartBatchResponse)
  pub device_info : Text → Option (SmartDeviceInfo F)
  pub energy_usage : Text → Option (SmartEnergyUsage F)
  pub current_power : Text → Option (Option F)
  pub child_list : Text → Option (List (SmartDeviceInfo F))

-- The state of a querier; `request_id` is `smartRequestID`, the 64 bits that all queriers share.
pub record SmartQuerier (S : Type 0) : Type 0 where
  pub transport : S
  pub request_id : ℕ
  pub wants_energy : Bool
  pub wants_power : Bool
  pub wants_children : Bool

-- `newSMARTQuerier`
abbrev pub new_smart_querier : {S : Type 0} → S → ℕ → SmartQuerier S
new_smart_querier s id = record {
  transport = s;
  request_id = id;
  wants_energy = true;
  wants_power = true;
  wants_children = true;
}

-- smartRequestID.Add(1)
abbrev pub next_id : {S : Type 0} → SmartQuerier S → ℕ
next_id q = (q.request_id + 1) % 2 ^ 64

-- The loop of `batch` over the responses: only what was answered is kept, by its method.
unfoldable pub answered_methods : Dict Text → List SmartBatchResponse → Dict Text
answered_methods out [] = out
answered_methods out (response ∷ responses) =
    answered_methods
      (if is_zero response.error_code && not (length response.result == 0)
        then insert response.method response.result out
        else out)
      responses

-- The methods that a read asks for.
abbrev pub asked_if : Bool → Text → List Text
asked_if true method = method ∷ []
asked_if false method = []

unfoldable pub methods_of : {S : Type 0} → SmartQuerier S → List Text
methods_of q =
    get_device_info
    ∷ (asked_if q.wants_energy get_energy_usage
        ++ (asked_if q.wants_power get_current_power
            ++ asked_if q.wants_children get_child_device_list))

module _ {S F : Type 0} (net : Transport S) (json : SmartJson F) where
  abbrev pub opened : Option SmartEnvelope → Result Text
  opened none = err unexpected_response
  opened (some envelope) =
      if is_zero envelope.error_code
      then ok envelope.result
      else err (device_code envelope.error_code)

  abbrev pub received : Result Text → Result Text
  received (err e) = err e
  received (ok raw) = opened (json.envelope raw)

  abbrev pub exchanged : SmartQuerier S → Result Text → Result Text × SmartQuerier S
  exchanged q (err e) = (err e, q)
  exchanged q (ok body) =
      let (raw, s) = net.query q.transport body in (received raw, record q { transport = s })

  -- `query`, of a request that takes the next number.
  unfoldable pub smart_query : SmartQuerier S → (ℕ → SmartRequest) → Result Text × SmartQuerier S
  smart_query q request =
      exchanged (record q { request_id = next_id q }) (json.marshal (request (next_id q)))

  abbrev pub results_of : Result Text → Result (Dict Text)
  results_of (err e) = err e
  results_of (ok result) = do
    responses ← or_error (json.responses result) unexpected_response
    ok (answered_methods [] responses)

  -- `batch`
  unfoldable pub smart_batch : SmartQuerier S → List Text → Result (Dict Text) × SmartQuerier S
  unfolding smart_query answered_methods
  smart_batch q methods =
      let (r, q') = smart_query q (λ id. multiple id methods) in (results_of r, q')

module _ {S F : Type 0} (net : Transport S) (json : SmartJson F) (names : Names)
    (fl : Arithmetic F) where
  -- `if raw, ok := results[...]; ok { ... }`, with what is decoded of it.
  abbrev pub decoded_with {ℓ} : {A : Type ℓ} → (Text → Option A) → Option Text → Option A
  decoded_with decode none = none
  decoded_with decode (some raw) = decode raw

  abbrev pub joined : Option (Option F) → Option F
  joined none = none
  joined (some v) = v

  -- The reading of `readEnergy`.
  pub read_energy : Dict Text → Option (Energy F)
  unfolding merge_energy
  read_energy results =
      merge_energy names fl (decoded_with json.energy_usage (lookup get_energy_usage results))
        (joined (decoded_with json.current_power (lookup get_current_power results)))

  -- What `Read` and `readEnergy` switch off: a method that was asked for and did not answer.
  pub narrowed : Dict Text → SmartQuerier S → SmartQuerier S
  narrowed results q = record q {
    wants_energy = q.wants_energy && is_some (lookup get_energy_usage results);
    wants_power = q.wants_power && is_some (lookup get_current_power results);
    wants_children = q.wants_children && is_some (lookup get_child_device_list results);
  }

  abbrev pub energised : Option (Energy F) → Reading F → Reading F
  energised none reading = reading
  energised (some energy) reading = record reading { energy = some energy }

  abbrev pub read_info : Dict Text → Result (SmartDeviceInfo F) → Result (Reading F)
  read_info results info = do
    i ← info
    ok (
        apply_children names fl (energised (read_energy results) (smart_reading names fl i))
          (decoded_with json.child_list (lookup get_child_device_list results)))

  abbrev pub narrowed_if_ok :
      Dict Text → Result (Reading F) × SmartQuerier S → Result (Reading F) × SmartQuerier S
  narrowed_if_ok results (err e, q) = (err e, q)
  narrowed_if_ok results (ok reading, q) = (ok reading, narrowed results q)

  abbrev pub info_of : Result Text → Result (SmartDeviceInfo F)
  info_of (err e) = err e
  info_of (ok raw) = or_error (json.device_info raw) unexpected_info

  -- The device information: of the batch, or of a request of its own.
  abbrev pub raw_info : SmartQuerier S → Option Text → Result Text × SmartQuerier S
  raw_info q (some raw) = (ok raw, q)
  raw_info q none = smart_query net json q (λ id. single id get_device_info)

  abbrev pub read_results :
      Result (Dict Text) × SmartQuerier S → Result (Reading F) × SmartQuerier S
  read_results (err e, q) = (err e, q)
  read_results (ok results, q) =
      let (raw, q') = raw_info q (lookup get_device_info results) in
      narrowed_if_ok results (read_info results (info_of raw), q')

  -- `Read`
  unfoldable pub smart_read : SmartQuerier S → Result (Reading F) × SmartQuerier S
  unfolding smart_batch smart_query read_energy narrowed methods_of
  smart_read q = read_results (smart_batch net json q (methods_of q))

-- `Close`
abbrev pub smart_close : {S : Type 0} → Transport S → SmartQuerier S → SmartQuerier S
smart_close net q = record q { transport = net.close q.transport }
