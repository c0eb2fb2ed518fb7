-- ===== src/Aes/Device.antt =====
-- A device that keeps to the protocol of kasa/aes.go, as an HTTP client that answers for it: it wraps its
-- session key for the client's public key, checks the login and the token, and refuses all else.
use kasa_exporter.Base.{Bool, true, false, Option, none, some, [], ◌++◌, take, drop}
use kasa_exporter.Base.Text.{◌==ₜ◌, Text, codes}
use kasa_exporter.Errors.{Result, ok, err, ◌>>=◌, or_error, bad_passthrough, bad_base64}
use kasa_exporter.Klap.{Http, Crypto, HttpOutcome, response}
use kasa_exporter.Pkcs7.{pkcs7_pad}
use kasa_exporter.Aes.{Encoding, AesTransport, LoginParams, aes_decrypt}

-- How far the device is: it has given no key, or a key, or has accepted a login.
pub data AesStage : Type 0 where
  fresh key_given authenticated : AesStage

-- What it knows: the session key that it hands out, its token, which logins it accepts, and what it answers.
pub record AesDevice : Type 0 where
  pub secret : Text
  pub token : Text
  pub accepts : LoginParams → Bool
  pub respond : Text → Text

-- The device's side of the JSON, and of the encryption under a public key.
pub record DeviceCodec : Type 0 where
  pub pem_of : Text → Option Text
  pub inner_of : Text → Option Text
  pub login_of : Text → Option LoginParams
  pub reply : (result : Text) → Text
  pub key_result : (key : Text) → Text
  pub response_result : (ciphertext : Text) → Text
  pub login_reply : (token : Text) → Text
  pub refusal : Text
  pub seal : (pem secret : Text) → Text

module _ (crypto : Crypto) (enc : Encoding) (dc : DeviceCodec) (device : AesDevice) where
  -- The session as the device has it.
  abbrev pub session : AesTransport
  session = record {
    credentials = record { username = []; password = [] };
    key = take 16 device.secret;
    iv = drop 16 device.secret;
    token = device.token;
    session_id = [];
    established = true;
  }

  abbrev pub refuses : AesStage → HttpOutcome × AesStage
  refuses stage = (response 403 [] [], stage)

  -- A reply in its envelopes.
  abbrev pub wire : Text → Text
  wire plain = dc.reply (
      dc.response_result (
        enc.encode_base64 (
          crypto.cbc_encrypt (take 16 device.secret) (drop 16 device.secret) (pkcs7_pad plain 16))))

  -- What is said to a request that was decrypted.
  abbrev pub on_login : AesStage → Bool → Text × AesStage
  on_login stage true = (dc.login_reply device.token, authenticated)
  on_login stage false = (dc.refusal, stage)

  abbrev pub on_command : AesStage → Bool → Text → Text × AesStage
  on_command authenticated true request = (device.respond request, authenticated)
  on_command stage _ request = (dc.refusal, stage)

  abbrev pub on_request : AesStage → (query request : Text) → Option LoginParams → Text × AesStage
  on_request stage query request (some params) = on_login stage (device.accepts params)
  on_request stage query request none =
      on_command stage (query ==ₜ (codes "?token=" ++ device.token)) request

  -- The request in a body.
  unfoldable pub opened : (body : Text) → Result Text
  opened body = do
    ciphertext ← or_error (dc.inner_of body) bad_passthrough
    raw ← or_error (enc.decode_base64 ciphertext) bad_base64
    aes_decrypt crypto session raw

  abbrev pub sends : Text × AesStage → HttpOutcome × AesStage
  sends (plain, stage) = (response 200 (wire plain) [], stage)

  abbrev pub on_opened : AesStage → (query : Text) → Result Text → HttpOutcome × AesStage
  on_opened stage query (err e) = refuses stage
  on_opened stage query (ok request) = sends (on_request stage query request (dc.login_of request))

  abbrev pub on_inner : AesStage → (query body : Text) → HttpOutcome × AesStage
  on_inner fresh query body = refuses fresh
  on_inner key_given query body = on_opened key_given query (opened body)
  on_inner authenticated query body = on_opened authenticated query (opened body)

  abbrev pub on_body : AesStage → (query body : Text) → Option Text → HttpOutcome × AesStage
  on_body stage query body (some pem) = (
    response 200 (dc.reply (dc.key_result (enc.encode_base64 (dc.seal pem device.secret)))) [],
    key_given,
  )
  on_body stage query body none = on_inner stage query body

  -- The device behind an HTTP client.
  abbrev pub aes_device_http : Http AesStage
  aes_device_http = record {
    post = λ stage query session_id body. on_body stage query body (dc.pem_of body);
    random = λ stage. none;
  }
