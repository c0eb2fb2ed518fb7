-- ===== src/Errors.antt =====
-- The error values of kasa/*.go and collector/collector.go, one constructor for each `errors.New` and
-- `fmt.Errorf`, and the Go convention of a result beside an error. The texts of the messages are
-- not modelled; what they report (a length, a status, a code) is kept.
use kasa_exporter.Base.{ℕ, ◌≡◌, refl, ◌⊎◌, inl, inr, Bool, true, false, Option, none, some, List}
use kasa_exporter.Base.Int.{ℤ}

pub data Error : Type 0 where
  -- kasa/xor.go
  request_too_long : ℕ → Error
  connecting deadline_refused sending reading_length empty_response reading_response : Error
  declares_too_long : ℕ → Error
  -- kasa/klap.go, and the padding that kasa/aes.go shares
  bad_padded_length bad_padding_length : ℕ → Error
  bad_padding_bytes bad_cipher_key : Error
  no_random http_failed body_failed body_too_long : Error
  handshake1_status handshake1_length handshake2_status request_status : ℕ → Error
  klap_unauthorized rejected_twice : Error
  too_short_to_sign not_block_multiple : ℕ → Error
  -- kasa/iot.go and kasa/smart.go
  marshal_failed unexpected_response no_sysinfo no_outlet : Error
  device_code : ℤ → Error
  -- kasa/connect.go and kasa/discover.go
  unsupported_scheme unexpected_info : Error
  no_answer probe_failed socket_failed unreachable : Error
  -- collector/collector.go
  no_data : Error
  missing_collector disabled_collector : List ℕ → Error
  -- config/kasa.go
  no_devices bad_concurrency bad_packets bad_timeout : Error
  -- kasa_exporter.go
  empty_path relative_path path_whitespace path_wildcard path_pprof : Error
  landing_failed register_failed missing_web_flags : Error
  -- kasa/aes.go
  session_expired aes_unauthorized expired_twice : Error
  rsa_failed bad_handshake bad_base64 bad_session_key bad_passthrough bad_inner : Error
  session_key_length not_positive_multiple : ℕ → Error

pub data Result {ℓ} (T : Type ℓ) : Type ℓ where
  err : Error → Result T
  ok : T → Result T

-- `if err != nil { return nil, err }`
infixl 5 ◌>>=◌ ◌>>◌
abbrev pub ◌>>=◌ {ℓ κ} :
    {S : Type ℓ} {T : Type κ} → (first : Result S) (next : S → Result T) → Result T
err failure >>= next = err failure
ok value >>= next = next value

abbrev pub ◌>>◌ {ℓ} : {T : Type ℓ} → (check : Result (Unit {0})) (rest : Result T) → Result T
check >> rest = check >>= (λ done. rest)

-- `if bad { return nil, failure }`
abbrev pub reject_if : (bad : Bool) (failure : Error) → Result (Unit {0})
reject_if false failure = ok tt
reject_if true failure = err failure

abbrev pub or_error {ℓ} : {T : Type ℓ} → Option T → Error → Result T
or_error none failure = err failure
or_error (some value) failure = ok value

-- A chain that succeeds: its first step did, and the rest from there.
pub >>=-eq-ok {ℓ κ} :
    {S : Type ℓ} {T : Type κ} (first : Result S) (next : S → Result T) {out : T}
    → (first >>= next) ≡ ok out
    → (value : S) × (first ≡ ok value) × (next value ≡ ok out)
>>=-eq-ok (err failure) next h = cc
>>=-eq-ok (ok value) next h = (value, refl, h)

pub Result-cases {ℓ} :
    {T : Type ℓ} (r : Result T)
    → ((value : T) × (r ≡ ok value)) ⊎ ((failure : Error) × (r ≡ err failure))
Result-cases (err failure) = inr (failure, refl)
Result-cases (ok value) = inl (value, refl)

pub ok-injective {ℓ} : {T : Type ℓ} {a b : T} → ok a ≡ ok b → a ≡ b
ok-injective h = cc

-- A check that let its chain succeed, and the rest of the chain.
pub reject_if-eq-ok {ℓ} :
    {T : Type ℓ} (bad : Bool) (failure : Error) (rest : Result T) {out : T}
    → (reject_if bad failure >> rest) ≡ ok out
    → (bad ≡ false) × (rest ≡ ok out)
reject_if-eq-ok true failure rest h = cc h
reject_if-eq-ok false failure rest h = (refl, h)
