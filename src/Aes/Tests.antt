-- ===== src/Aes/Tests.antt =====
-- A device that accepts every login, one that answers 403 to everything, and a cipher that changes nothing.
use kasa_exporter.Base.{ℕ, ◌+◌, ◌≤◌, ◌≡◌, refl, false, none, some, [], ◌∷◌, replicate}
use kasa_exporter.Base.Int.{pos}
use kasa_exporter.Errors.{ok, err, aes_unauthorized}
use kasa_exporter.Connect.Tests.{nobody}
use kasa_exporter.Klap.{max_response_bytes, limited, limited, Http, HttpOutcome}
use kasa_exporter.Klap.Session.{counting}
use kasa_exporter.Klap.Tests.{plain_crypto, forbidding}
use kasa_exporter.Aes.{
  accepted, accepted, unsealed, sealed, aes_post, passthrough, AesTransport, AesJson, Encoding, Rsa,
}
use kasa_exporter.Aes.Query.{aes_query, login, login_loop}
use kasa_exporter.Aes.Posts.{beside, aes_query_posts}
use kasa_exporter.Aes.Attempt.{Marshals}
use kasa_exporter.Aes.Session.{IsRefused, login_failed}

abbrev accepting : Http ℕ
accepting = record {
  post = λ n path session body. (HttpOutcome.response 200 (1 ∷ []) [], n);
  random = λ n. none;
}

abbrev pub trusting : AesJson
trusting = record {
  handshake = λ pem. ok pem;
  login = λ params. ok (123 ∷ []);
  passthrough = λ request. ok request;
  envelope = λ body. some (record { error_code = pos 0; result = body });
  wrapped_key = λ result. some result;
  wrapped_response = λ result. some result;
  login_token = λ plain. some (7 ∷ []);
}

-- Every text is decoded as a padded block without bytes.
abbrev pub one_block : Encoding
one_block = record {
  encode_base64 = λ s. s;
  decode_base64 = λ s. some (replicate 16 16);
  encode_hex = λ s. s;
}

abbrev pub own_key : Rsa ℕ ℕ
own_key = record {
  generate = λ n. some (n, n + 1);
  public_pem = λ key. some (1 ∷ []);
  decrypt_pkcs1v15 = λ key secret. some (replicate 32 0);
}

abbrev fresh : AesTransport
fresh = record {
  credentials = nobody;
  key = [];
  iv = [];
  token = [];
  session_id = [];
  established = false;
}

trusting-Marshals : Marshals trusting
trusting-Marshals params = (123 ∷ [], refl)

aes_query_posts_example :
    (aes_query plain_crypto
      (counting forbidding)
      (beside own_key)
      trusting
      one_block
      (0, 0)
      fresh
      (1 ∷ [])).2.1
    ≤ 0 + 8
aes_query_posts_example =
    aes_query_posts plain_crypto forbidding own_key trusting one_block (0, 0) fresh (1 ∷ [])

refused :
    (login plain_crypto forbidding own_key trusting one_block 0 fresh).0 ≡ err aes_unauthorized
unfolding login login_loop passthrough aes_post sealed unsealed accepted limited max_response_bytes
refused = refl

login_failed_example :
    IsRefused aes_unauthorized (login plain_crypto forbidding own_key trusting one_block 0 fresh).1
login_failed_example =
    login_failed plain_crypto forbidding own_key trusting one_block trusting-Marshals 0 fresh
      aes_unauthorized refused
