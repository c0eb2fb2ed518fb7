-- ===== src/Aes/Dialogue/Tests.antt =====
-- A device and a client that tag what they send with its first byte, and that encrypt nothing.
use kasa_exporter.Base.{
  ℕ, zero, suc, ◌≤◌, ◌≡◌, refl, false, true, Option, none, some, [], ◌∷◌, ◌++◌, if◌then◌else◌, ◌==◌,
  arith, length, take, drop, take-append, drop-append, replicate, inl, inr, Bool,
}
use kasa_exporter.Base.Int.{pos, negsuc}
use kasa_exporter.Base.Text.{Text}
use kasa_exporter.Errors.{ok}
use kasa_exporter.Connect.Tests.{nobody}
use kasa_exporter.Klap.{max_response_bytes}
use kasa_exporter.Klap.Tests.{plain_crypto, plain_crypto-IsSound}
use kasa_exporter.Pkcs7.{pkcs7_pad}
use kasa_exporter.Aes.{
  aes_error_for, AesTransport, AesJson, AesEnvelope, Encoding, LoginParams, with_password,
  with_password2, Rsa,
}
use kasa_exporter.Aes.Device.{AesStage, fresh, AesDevice, DeviceCodec, aes_device_http}
use kasa_exporter.Aes.Query.{aes_query}
use kasa_exporter.Aes.Dialogue.{Speaks, IsBrief}
use kasa_exporter.Aes.Dialogue.Queries.{IsAnswered, aes_query_answers}

abbrev tagged : ℕ → Text → Option Text
tagged tag [] = none
tagged tag (b ∷ rest) = if b == tag then some rest else none

abbrev envelope_of : Text → Option AesEnvelope
envelope_of [] = none
envelope_of (b ∷ rest) =
    if b == 4
    then some (record { error_code = pos 0; result = rest })
    else if b == 5
    then some (record { error_code = pos 0; result = rest })
    else some (record { error_code = negsuc 1500; result = [] })

abbrev login_text : LoginParams → Text
login_text (with_password username secret) = 3 ∷ 0 ∷ length username ∷ (username ++ secret)
login_text (with_password2 username secret) = 3 ∷ 1 ∷ length username ∷ (username ++ secret)

abbrev params_of : ℕ → Text → LoginParams
params_of zero [] = with_password [] []
params_of (suc k) [] = with_password2 [] []
params_of zero (n ∷ rest) = with_password (take n rest) (drop n rest)
params_of (suc k) (n ∷ rest) = with_password2 (take n rest) (drop n rest)

abbrev params_in : Text → Option LoginParams
params_in [] = none
params_in (tag ∷ []) = none
params_in (tag ∷ shape ∷ rest) = if tag == 3 then some (params_of shape rest) else none

abbrev pub tagging : AesJson
tagging = record {
  handshake = λ pem. ok (1 ∷ pem);
  login = λ params. ok (login_text params);
  passthrough = λ request. ok (2 ∷ request);
  envelope = envelope_of;
  wrapped_key = λ result. some result;
  wrapped_response = λ result. some result;
  login_token = tagged 5;
}

abbrev pub tagging_device : DeviceCodec
tagging_device = record {
  pem_of = tagged 1;
  inner_of = tagged 2;
  login_of = params_in;
  reply = λ result. 4 ∷ result;
  key_result = λ key. key;
  response_result = λ ciphertext. ciphertext;
  login_reply = λ token. 5 ∷ token;
  refusal = 6 ∷ [];
  seal = λ pem secret. secret;
}

abbrev pub verbatim : Encoding
verbatim = record { encode_base64 = λ s. s; decode_base64 = λ s. some s; encode_hex = λ s. s }

abbrev pub open_key : Rsa AesStage ℕ
open_key = record {
  generate = λ w. some (0, w);
  public_pem = λ key. some (9 ∷ []);
  decrypt_pkcs1v15 = λ key sealed. some sealed;
}

login_read : (p : LoginParams) → params_in (login_text p) ≡ some p
login_read (with_password u s) = λ i. some (with_password (take-append u s i) (drop-append u s i))
login_read (with_password2 u s) = λ i. some (with_password2 (take-append u s i) (drop-append u s i))

abbrev is_hashed : LoginParams → Bool
is_hashed (with_password username secret) = false
is_hashed (with_password2 username secret) = true

-- It accepts the hashed password only, and says always the same.
abbrev pub lamp : AesDevice
lamp = record {
  secret = replicate 32 8;
  token = 7 ∷ [];
  accepts = is_hashed;
  respond = λ request. 4 ∷ 65 ∷ [];
}

pub tagging-Speaks : Speaks tagging verbatim open_key tagging_device lamp
tagging-Speaks = record {
  handshakes = λ k pem e. (1 ∷ pem, refl, refl);
  passthroughs = λ c. (2 ∷ c, refl, refl, refl);
  logins = λ p shaped. (login_text p, refl, login_read p);
  base64 = λ s. refl;
  replies = λ r result. refl;
  key_results = λ k. refl;
  responses = λ c. refl;
  login_envelope = (7 ∷ [], refl);
  login_token = refl;
  refusals = refl;
  key_pairs = λ w. (0, 9 ∷ [], refl, refl, refl);
}

fits : (n : ℕ) → n ≤ 64 → n ≤ max_response_bytes
unfolding max_response_bytes
fits n h = omega arith

pub lamp-IsBrief : IsBrief plain_crypto verbatim tagging_device lamp
unfolding pkcs7_pad
lamp-IsBrief = record {
  keys = λ pem. fits 33 (omega arith);
  login = fits 17 (omega arith);
  refused = fits 17 (omega arith);
  answers = λ request. fits 17 (omega arith);
}

abbrev unconnected : AesTransport
unconnected = record {
  credentials = nobody;
  key = [];
  iv = [];
  token = [];
  session_id = [];
  established = false;
}

aes_query_answers_example :
    IsAnswered plain_crypto plain_crypto-IsSound
      (λ key whole. refl)
      tagging
      verbatim
      open_key
      tagging_device
      lamp
      tagging-Speaks
      refl
      (123 ∷ 125 ∷ [])
      (aes_query plain_crypto
        (aes_device_http plain_crypto verbatim tagging_device lamp)
        open_key
        tagging
        verbatim
        fresh
        unconnected
        (123 ∷ 125 ∷ []))
unfolding aes_error_for
aes_query_answers_example =
    aes_query_answers plain_crypto plain_crypto-IsSound (λ key whole. refl) tagging verbatim
      open_key tagging_device lamp tagging-Speaks refl unconnected fresh (123 ∷ 125 ∷ []) refl
      lamp-IsBrief (refl, refl) (inl (refl, inr (inl refl)))
