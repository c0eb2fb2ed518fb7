-- ===== src/Klap/Tests.antt =====
-- A cipher that changes nothing and digests of 32 equal bytes.
use kasa_exporter.Base.{arith, false, inl, ℕ, ◌+◌, ◌≤◌, ◌≡◌, refl, true, some, [], ◌∷◌, replicate}
use kasa_exporter.Base.Text.{Text, ◌==ₜ◌}
use kasa_exporter.Base.Int.{pos}
use kasa_exporter.Errors.{Result, ok, err}
use kasa_exporter.Connect.Tests.{nobody}
use kasa_exporter.Klap.{
  max_response_bytes, Crypto, Http, HttpOutcome, KlapTransport, klap_auth_hash, matching_hash,
  klap_fallback_credentials, klap_encrypt, klap_decrypt,
}
use kasa_exporter.Klap.Query.{klap_query}
use kasa_exporter.Klap.Device.{KlapDevice, idle, device_http}
use kasa_exporter.Klap.Queries.{Answered, query_answers}
use kasa_exporter.Klap.Wire.{IsSound, decrypt-encrypt}

abbrev pub plain_crypto : Crypto
plain_crypto = record {
  md5 = λ s. replicate 16 0;
  sha1 = λ s. replicate 20 0;
  sha256 = λ s. replicate 32 0;
  new_cipher = λ key. true;
  cbc_encrypt = λ key iv blocks. blocks;
  cbc_decrypt = λ key iv blocks. blocks;
}

pub plain_crypto-IsSound : IsSound plain_crypto
plain_crypto-IsSound = record {
  decrypts = λ key iv blocks taken whole. refl;
  keeps_length = λ key iv blocks. refl;
  digest_length = λ s. refl;
}

abbrev open_session : KlapTransport
open_session = record {
  credentials = nobody;
  login_version = pos 2;
  session_id = [];
  enc_key = [];
  sig_key = [];
  iv = replicate 12 0;
  seq = 7;
  established = true;
}

abbrev body_of : Result Text → Text
body_of (ok body) = body
body_of (err e) = []

abbrev message : Text
message = 123 ∷ 125 ∷ []

encrypts :
    klap_encrypt plain_crypto open_session message 8
    ≡ ok (body_of (klap_encrypt plain_crypto open_session message 8))
unfolding klap_encrypt
encrypts = refl

decrypt-encrypt_example :
    klap_decrypt plain_crypto open_session
      (body_of (klap_encrypt plain_crypto open_session message 8))
      8
    ≡ ok message
decrypt-encrypt_example =
    decrypt-encrypt plain_crypto plain_crypto-IsSound open_session message
      (body_of (klap_encrypt plain_crypto open_session message 8)) 8 encrypts

abbrev pub zero_digest : Text
zero_digest = replicate 32 0

hash_found :
    matching_hash plain_crypto (pos 2) message message zero_digest klap_fallback_credentials
    ≡ some zero_digest
unfolding matching_hash klap_auth_hash ◌==ₜ◌
hash_found = refl

-- A device that answers 403 to everything.
abbrev pub forbidding : Http ℕ
forbidding = record {
  post = λ n path session body. (HttpOutcome.response 403 [] [], n);
  random = λ n. some (message, n);
}

-- A device that answers every request with the request itself.
abbrev mirror : KlapDevice
mirror = record {
  auth_hash = klap_auth_hash plain_crypto nobody (pos 2);
  seed = replicate 16 1;
  cookie = 65 ∷ [];
  respond = λ request. request;
}

message_fits : 2 + 48 ≤ max_response_bytes
unfolding max_response_bytes
message_fits = omega arith

abbrev no_session : KlapTransport
no_session = record open_session { established = false }

query_answers_example :
    Answered plain_crypto plain_crypto-IsSound
      (λ key whole. refl)
      mirror
      zero_digest
      message
      (klap_query plain_crypto
        (device_http plain_crypto mirror zero_digest)
        idle
        no_session
        message)
query_answers_example =
    query_answers plain_crypto plain_crypto-IsSound (λ key whole. refl) mirror zero_digest
      no_session idle message refl refl message_fits (inl refl)
