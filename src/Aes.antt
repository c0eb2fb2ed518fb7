-- ===== src/Aes.antt =====
-- kasa/aes.go: the secure passthrough session. As in `Klap`, the primitives and the HTTP client are
-- parameters, here with RSA, JSON and the text encodings; the mutex makes each query one step.
pub mod Query
pub mod Attempt
pub mod Session
pub mod Posts
pub mod Wire
pub mod Device
pub mod Dialogue
pub mod Tests
use kasa_exporter.Base.{
  ℕ, zero, suc, ◌+◌, ◌-◌, ◌*◌, ◌/◌, ◌%◌, ◌^◌, ◌≤◌, ◌<◌, String, ◌≡◌, refl, sym, ap, ◌∙◌, subst, ◌≢◌,
  ◌↔◌, ◌⊎◌, inl, inr, Bool, true, false, not, ◌&&◌, ◌||◌, Option, none, some, List, [], ◌∷◌, ◌++◌,
  map, arith, ltb, leb, ◌==◌, if◌then◌else◌, ltb→lt, lt→ltb, leb→le, ==_iff, Bool-cases,
  Option-cases, length, get_elem?, set, get_or, take, drop, replicate, length-append,
  take-append-drop, length-take, length-drop, length-replicate, length-map, All, Any, take_all,
  drop_all, take-append, drop-append, is_some, All-append, All-take, All-drop,
}
use kasa_exporter.Base.Text.{
  Text, codes, ◌==ₜ◌, ==ₜ_iff, ==ₜ_refl, contains, upper_byte, to_upper, has_prefix, has_infix,
}
use kasa_exporter.Base.Int.{
  ℤ, pos, negsuc, pos_part, neg_part, sub_ℕ, ◌+ℤ◌, ◌-ℤ◌, ◌*ℤ◌, ◌≤ℤ◌, ltb_ℤ,
}
use kasa_exporter.Errors.{
  Error, Result, ok, err, ◌>>=◌, ◌>>◌, reject_if, or_error, http_failed, body_failed, body_too_long,
  request_status, unexpected_response, device_code, bad_cipher_key, session_expired,
  aes_unauthorized, expired_twice, rsa_failed, bad_handshake, bad_base64, bad_session_key,
  bad_passthrough, bad_inner, session_key_length, not_positive_multiple,
}
use kasa_exporter.Pkcs7.{pkcs7_pad, pkcs7_unpad}
use kasa_exporter.Connect.{Credentials}
use kasa_exporter.Klap.{
  Crypto, Http, HttpOutcome, failed, broken, response, block_size, max_response_bytes, session_of,
}

abbrev pub aes_session_len : ℕ
aes_session_len = 32

-- `aesEnvelope`; a missing result is the empty text.
pub record AesEnvelope : Type 0 where
  pub error_code : ℤ
  pub result : Text

-- The two shapes of a login, with the password verbatim and hashed.
pub data LoginParams : Type 0 where
  with_password with_password2 : (username secret : Text) → LoginParams

-- encoding/json: what is built for a handshake, a login and a passthrough, and what is read of a reply.
pub record AesJson : Type 0 where
  pub handshake : (pem : Text) → Result Text
  pub login : LoginParams → Result Text
  pub passthrough : (request : Text) → Result Text
  pub envelope : Text → Option AesEnvelope
  pub wrapped_key : Text → Option Text
  pub wrapped_response : Text → Option Text
  pub login_token : Text → Option Text

-- encoding/base64 and encoding/hex.
pub record Encoding : Type 0 where
  pub encode_base64 : Text → Text
  pub decode_base64 : Text → Option Text
  pub encode_hex : Text → Text

-- crypto/rsa, crypto/x509 and encoding/pem: a new key, its public part, and PKCS #1 v1.5 decryption.
pub record Rsa (W K : Type 0) : Type 0 where
  pub generate : W → Option (K × W)
  pub public_pem : K → Option Text
  pub decrypt_pkcs1v15 : K → Text → Option Text

pub record AesTransport : Type 0 where
  pub credentials : Credentials
  pub key : Text
  pub iv : Text
  pub token : Text
  pub session_id : Text
  pub established : Bool

-- `aesErrorFor`
unfoldable pub aes_error_for : ℤ → Option Error
aes_error_for (pos n) =
    if n == 0 then none else if n == 9999 then some session_expired else some (device_code (pos n))
aes_error_for (negsuc n) =
    if n == 1500 || n == 1001
    then some aes_unauthorized
    else if n == 1300
    then some session_expired
    else some (device_code (negsuc n))

-- `if err := aesErrorFor(code); err != nil { return nil, err }`
abbrev pub check_code : ℤ → Result (Unit {0})
check_code code = elim (aes_error_for code) [ none ↦ ok tt | some e ↦ err e ]

-- errors.Is(err, errAESSessionExpired)
abbrev pub is_expired : Error → Bool
is_expired session_expired = true
is_expired _ = false

module _ (crypto : Crypto) where
  -- `encrypt`
  pub aes_encrypt : AesTransport → Text → Result Text
  aes_encrypt t payload = do
    reject_if (not (crypto.new_cipher t.key)) bad_cipher_key
    ok (crypto.cbc_encrypt t.key t.iv (pkcs7_pad payload block_size))

  -- `decrypt`
  pub aes_decrypt : AesTransport → Text → Result Text
  aes_decrypt t payload = do
    reject_if (not (crypto.new_cipher t.key)) bad_cipher_key
    reject_if (length payload == 0 || not (length payload % block_size == 0))
        (not_positive_multiple (length payload))
    pkcs7_unpad (crypto.cbc_decrypt t.key t.iv payload) block_size

abbrev pub token_query : AesTransport → Text
token_query t = if length t.token == 0 then [] else codes "?token=" ++ t.token

module _ (json : AesJson) where
  abbrev pub result_of : Option AesEnvelope → Result Text
  result_of none = err unexpected_response
  result_of (some envelope) = check_code envelope.error_code >> ok envelope.result

  -- What `post` makes of the outcome; the session cookie is kept once the status is right.
  pub accepted : AesTransport → HttpOutcome → Result Text × AesTransport
  accepted t failed = (err http_failed, t)
  accepted t broken = (err body_failed, t)
  accepted t (response status body cookies) =
      let read = take (max_response_bytes + 1) body in
      if ltb max_response_bytes (length read)
      then (err body_too_long, t)
      else if not (status == 200)
      then (err (request_status status), t)
      else (
        result_of (json.envelope read),
        record t { session_id = session_of t.session_id cookies },
      )

module _ {W K : Type 0} (crypto : Crypto) (http : Http W) (rsa : Rsa W K) (json : AesJson)
    (enc : Encoding) where
  -- `post`
  pub aes_post : W → AesTransport → (query body : Text) → Result Text × AesTransport × W
  unfolding accepted
  aes_post w t query body =
      let (outcome, w') = http.post w query t.session_id body in
      let (r, t') = accepted json t outcome in (r, t', w')

  -- The request of `passthrough`, encrypted and in its envelope.
  pub sealed : AesTransport → Text → Result Text
  unfolding aes_encrypt
  sealed t request = do
    ciphertext ← aes_encrypt crypto t request
    json.passthrough (enc.encode_base64 ciphertext)

  -- The reply of `passthrough`, decrypted and with its inner error code looked at.
  pub unsealed : AesTransport → Result Text → Result Text
  unfolding aes_decrypt
  unsealed t answer = do
    result ← answer
    wrapped ← or_error (json.wrapped_response result) bad_passthrough
    raw ← or_error (enc.decode_base64 wrapped) bad_base64
    plain ← aes_decrypt crypto t raw
    inner ← or_error (json.envelope plain) bad_inner
    check_code inner.error_code
    ok plain

  abbrev pub passed : W → AesTransport → Result Text → Result Text × AesTransport × W
  passed w t (err e) = (err e, t, w)
  passed w t (ok body) =
      let (r, t', w') = aes_post w t (token_query t) body in (unsealed t' r, t', w')

  -- `passthrough`
  pub passthrough : W → AesTransport → Text → Result Text × AesTransport × W
  unfolding aes_post sealed unsealed
  passthrough w t request = passed w t (sealed t request)
