-- ===== src/Wiring/Tests.antt =====
-- A strip with two metered outlets, found by discovery, read over KLAP and over the legacy transport.
use kasa_exporter.Base.Text.{codes, Text}
use kasa_exporter.Base.{
  ℕ, ◌+◌, ◌≤◌, ◌≡◌, refl, subst, true, false, none, some, [], ◌∷◌, arith, ◌==◌, length, take,
  replicate,
}
use kasa_exporter.Wiring.{Backend, World}
use kasa_exporter.Base.Int.{ℤ, pos}
use kasa_exporter.Connect.{iot_over_xor, candidate}
use kasa_exporter.Connect.Tests.{nobody, lamp_host}
use kasa_exporter.Klap.Tests.{forbidding, plain_crypto, plain_crypto-IsSound, zero_digest}
use kasa_exporter.Smart.Tests.{plain_names, without_meter}
use kasa_exporter.Iot.Querier.Tests.{told, two_outlets}
use kasa_exporter.Aes.Tests.{trusting, one_block}
use kasa_exporter.Discovery.{
  login_version, DiscoveryResult, encrypt_klap, encrypt_xor, klap_login_v2,
}
use kasa_exporter.Errors.{ok, Result, err, no_answer}
use kasa_exporter.Floats.{integers}
use kasa_exporter.Klap.Device.{device_http, Stage, KlapDevice, idle}
use kasa_exporter.Wiring.EndToEnd.{after_reads}
use kasa_exporter.Aes.{Rsa}
use kasa_exporter.Xor.{Peer}
use kasa_exporter.Klap.{klap_auth_hash, max_response_bytes}
use kasa_exporter.Device.{discovered_device}
use kasa_exporter.Iot.Querier.{IotCodec}
use kasa_exporter.Wiring.Ready.{answers_of, framed}
use kasa_exporter.Xor.Cipher.{IsBytes}
use kasa_exporter.Xor.Framing.{device_answer}
use kasa_exporter.Iot.Tests.{in_milli}
use kasa_exporter.Wiring.Passthrough.{aes_reads, IsPlainRequest}
use kasa_exporter.Connect.{smart_over_aes, device_url}
use kasa_exporter.Discovery.{encrypt_aes}
use kasa_exporter.Base.{◌++◌, inl, inr}
use kasa_exporter.Aes.{aes_error_for}
use kasa_exporter.Aes.Device.{AesStage, fresh, aes_device_http}
use kasa_exporter.Aes.Dialogue.Tests.{
  tagging, tagging_device, verbatim, open_key, lamp, tagging-Speaks, lamp-IsBrief,
}
use kasa_exporter.Wiring.Served.{klap_reads, xor_reads, NextPlain, klap_plan_of}

-- A device that answers with the first byte of the request.
abbrev first_byte : KlapDevice
first_byte = record {
  auth_hash = klap_auth_hash plain_crypto nobody (pos 2);
  seed = replicate 16 1;
  cookie = 65 ∷ [];
  respond = λ request. take 1 request;
}

abbrev no_rsa : {W : Type 0} → Rsa W ℕ
no_rsa = record {
  generate = λ w. none;
  public_pem = λ key. none;
  decrypt_pkcs1v15 = λ key secret. none;
}

abbrev silent : Peer
silent = record {
  dials = λ host port. false;
  sets_deadline = false;
  takes_write = false;
  answer = λ stream. [];
}

abbrev klap_lan : Backend Stage ℕ ℤ
klap_lan = record {
  crypto = plain_crypto;
  http = λ url timeout. device_http plain_crypto first_byte zero_digest;
  rsa = no_rsa;
  aes_json = trusting;
  encoding = one_block;
  exchange = λ w. (silent, w);
  discover_host = λ w host timeout. (err no_answer, w);
  iot_codec = told two_outlets;
  smart_json = without_meter;
  names = plain_names;
  floats = integers;
}

abbrev klap_strip : DiscoveryResult
klap_strip = record (candidate encrypt_klap (codes "IOT.SMARTPLUGSWITCH") klap_login_v2) {
  host = lamp_host;
}

abbrev started : {W : Type 0} → W → World W
started w = record { net = w; request_id = 0 }

same_hash : klap_auth_hash plain_crypto nobody (login_version klap_strip) ≡ first_byte.auth_hash
unfolding login_version
same_hash = refl

one_byte : (request : Text) → length (take 1 request) + 48 ≤ max_response_bytes
unfolding max_response_bytes
one_byte [] = omega arith
one_byte (c ∷ request) = omega arith

klap_reads_example : NextPlain klap_lan (answers_of first_byte.respond) (klap_plan_of klap_strip) (
    after_reads klap_lan 3 (started idle) (discovered_device nobody (pos 5_000_000_000) klap_strip))
klap_reads_example =
    klap_reads klap_lan plain_crypto-IsSound (λ key whole. refl) first_byte zero_digest nobody
      (pos 5_000_000_000) klap_strip (started idle) 3 refl refl same_hash refl one_byte

-- Whatever is asked, the answer is one byte, which stands for the state of the strip and a reading.
abbrev one_answer : Text → Text
one_answer request = 1 ∷ []

abbrev strip_codec : IotCodec ℤ
strip_codec = record {
  marshal = λ request. ok (7 ∷ []);
  unmarshal = λ body. some (record {
    get_sysinfo = some two_outlets;
    emeter = some (record { get_realtime = some in_milli; err_code = none });
    smartlife_emeter = none;
  });
}

abbrev xor_lan : Backend ℕ ℕ ℤ
xor_lan = record {
  crypto = plain_crypto;
  http = λ url timeout. forbidding;
  rsa = no_rsa;
  aes_json = trusting;
  encoding = one_block;
  exchange = λ n. (
    record {
      dials = λ host port. port == 9999;
      sets_deadline = true;
      takes_write = true;
      answer = device_answer one_answer;
    },
    n + 1,
  );
  discover_host = λ w host timeout. (err no_answer, w);
  iot_codec = strip_codec;
  smart_json = record without_meter { marshal = λ request. ok (7 ∷ []) };
  names = plain_names;
  floats = integers;
}

abbrev xor_strip : DiscoveryResult
xor_strip = record klap_strip { encrypt_type = encrypt_xor }

abbrev BytesResult : Result Text → Type 0
BytesResult (err e) = Unit
BytesResult (ok body) = IsBytes body

bytes : IsBytes (7 ∷ [])
bytes = (omega arith, tt)

xor_reads_example :
    NextPlain xor_lan
      (framed one_answer)
      iot_over_xor
      (after_reads xor_lan 3 (started 0) (discovered_device nobody (pos 5_000_000_000) xor_strip))
xor_reads_example =
    xor_reads xor_lan one_answer nobody (pos 5_000_000_000) xor_strip
      (λ n. record {
        dials = refl;
        sets_deadline = refl;
        takes_write = refl;
        answers = λ stream. refl;
      })
      (λ request body e. subst BytesResult e bytes) (started 0) 3 refl
      (λ request. (((omega arith, tt), omega arith), omega arith))

abbrev aes_lan : Backend AesStage ℕ ℤ
aes_lan = record {
  crypto = plain_crypto;
  http = λ url timeout. aes_device_http plain_crypto verbatim tagging_device lamp;
  rsa = open_key;
  aes_json = tagging;
  encoding = verbatim;
  exchange = λ w. (silent, w);
  discover_host = λ w host timeout. (err no_answer, w);
  iot_codec = strip_codec;
  smart_json = record without_meter { marshal = λ request. ok (7 ∷ []) };
  names = plain_names;
  floats = integers;
}

abbrev aes_strip : DiscoveryResult
aes_strip = record klap_strip { encrypt_type = encrypt_aes }

abbrev Plain : Text → Type 0
Plain =
    IsPlainRequest aes_lan plain_crypto-IsSound (λ key whole. refl) tagging_device lamp
      tagging-Speaks refl

abbrev PlainResult : Result Text → Type 0
PlainResult (err e) = Unit
PlainResult (ok body) = Plain body

no_login : Plain (7 ∷ [])
unfolding aes_error_for
no_login = (refl, refl)

aes_reads_example :
    NextPlain aes_lan
      (answers_of lamp.respond)
      (smart_over_aes (device_url lamp_host aes_strip ++ codes "/app"))
      (after_reads aes_lan 3
        (started fresh)
        (discovered_device nobody (pos 5_000_000_000) aes_strip))
aes_reads_example =
    aes_reads aes_lan plain_crypto-IsSound (λ key whole. refl) tagging_device lamp tagging-Speaks
      refl nobody (pos 5_000_000_000) aes_strip (λ request body e. subst PlainResult e no_login)
      (started fresh) 3 refl refl (inr (inl refl)) refl lamp-IsBrief
