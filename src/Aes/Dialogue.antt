-- ===== src/Aes/Dialogue.antt =====
-- A session of kasa/aes.go against a device that keeps to the protocol.
pub mod Logins
pub mod Queries
pub mod Tests
use kasa_exporter.Base.{
  ◌⊎◌, ◌+◌, ◌≤◌, ◌≡◌, refl, sym, ap, ◌∙◌, subst, inl, inr, true, false, Option, none, some, List,
  [], ◌∷◌, ◌++◌, arith, ◌==◌, if◌then◌else◌, Bool-cases, length, take, drop, length-take, Any,
  take_all,
}
use kasa_exporter.Base.Text.{==ₜ_refl, ◌==ₜ◌, Text, codes}
use kasa_exporter.Base.Int.{pos, negsuc}
use kasa_exporter.Errors.{aes_unauthorized, Result, ok, err, ◌>>=◌, ◌>>◌, or_error, bad_inner}
use kasa_exporter.Klap.{Http, Crypto, response, max_response_bytes}
use kasa_exporter.Klap.Queries.{Takes}
use kasa_exporter.Aes.{
  passed, token_query, aes_error_for, Encoding, AesTransport, AesJson, Rsa, LoginParams,
  with_password, with_password2, aes_decrypt, aes_encrypt, check_code, accepted, aes_post, sealed,
  unsealed, passthrough,
}
use kasa_exporter.Klap.Wire.{IsSound}
use kasa_exporter.Connect.{Credentials}
use kasa_exporter.Pkcs7.{pkcs7_pad}
use kasa_exporter.Aes.Wire.{aes_decrypt-aes_encrypt}
use kasa_exporter.Aes.Query.{
  connected, connect_unless, aes_query, aes_loop, after_connect, or_renewed, keyed, shaken,
  with_key, offered, secret_of, connect, granted,
}
use kasa_exporter.Aes.Query.{
  login_sent, logged_in, with_token, granted, login, login_loop, login_attempts,
}
use kasa_exporter.Aes.Device.{
  on_command, on_login, AesStage, fresh, key_given, authenticated, AesDevice, DeviceCodec, wire,
  on_request, on_body, on_opened, sends, opened, aes_device_http,
}

-- The parameters of a login, which are base64.
abbrev pub IsLogin : Encoding → LoginParams → Type 0
IsLogin enc p =
    (username : Text) × (secret : Text) × ((p
        ≡ with_password (enc.encode_base64 username) (enc.encode_base64 secret))
      ⊎ (p ≡ with_password2 (enc.encode_base64 username) (enc.encode_base64 secret)))

-- The two results that the device sends in an envelope, with base64 inside.
abbrev pub IsResult : Encoding → DeviceCodec → Text → Type 0
IsResult enc dc r =
    (s : Text) × ((r ≡ dc.key_result (enc.encode_base64 s))
      ⊎ (r ≡ dc.response_result (enc.encode_base64 s)))

-- Each side reads what the other writes: the client's public key in PEM, base64 in the other requests and in
-- the replies, and the device's token; base64 is undone by its decoding, a key pair can be made, and its
-- private part opens the session key that was sealed with the public one.
pub record Speaks {K : Type 0} (json : AesJson) (enc : Encoding) (rsa : Rsa AesStage K)
    (dc : DeviceCodec) (device : AesDevice) : Type 0 where
  pub handshakes :
      (k : K) (pem : Text)
      → rsa.public_pem k ≡ some pem
      → (b : Text) × (json.handshake pem ≡ ok b) × (dc.pem_of b ≡ some pem)
  pub passthroughs :
      (s : Text)
      → (b : Text) × (json.passthrough (enc.encode_base64 s) ≡ ok b)
        × (dc.inner_of b ≡ some (enc.encode_base64 s))
        × (dc.pem_of b ≡ none)
  pub logins :
      (p : LoginParams)
      → IsLogin enc p
      → (b : Text) × (json.login p ≡ ok b) × (dc.login_of b ≡ some p)
  pub base64 : (s : Text) → enc.decode_base64 (enc.encode_base64 s) ≡ some s
  pub replies :
      (r : Text)
      → IsResult enc dc r
      → json.envelope (dc.reply r) ≡ some (record { error_code = pos 0; result = r })
  pub key_results :
      (s : Text)
      → json.wrapped_key (dc.key_result (enc.encode_base64 s)) ≡ some (enc.encode_base64 s)
  pub responses :
      (s : Text)
      → json.wrapped_response (dc.response_result (enc.encode_base64 s))
        ≡ some (enc.encode_base64 s)
  pub login_envelope :
      (r : Text) × (json.envelope (dc.login_reply device.token)
        ≡ some (record { error_code = pos 0; result = r }))
  pub login_token : json.login_token (dc.login_reply device.token) ≡ some device.token
  pub refusals : json.envelope dc.refusal ≡ some (record { error_code = negsuc 1500; result = [] })
  pub key_pairs :
      (w : AesStage)
      → (k : K) × (pem : Text) × (rsa.generate w ≡ some (k, w))
        × (rsa.public_pem k ≡ some pem)
        × (rsa.decrypt_pkcs1v15 k (dc.seal pem device.secret) ≡ some device.secret)

-- What a text of the inner envelope comes to.
abbrev pub inner : AesJson → Text → Result Text
inner json plain = do
  envelope ← or_error (json.envelope plain) bad_inner
  check_code envelope.error_code
  ok plain

abbrev pub IsSmall : Text → Type 0
IsSmall body = length body ≤ max_response_bytes

-- A client that has the session key of the device.
abbrev pub client : AesDevice → Credentials → (session_id token : Text) → AesTransport
client device creds session_id token = record {
  credentials = creds;
  key = take 16 device.secret;
  iv = drop 16 device.secret;
  token = token;
  session_id = session_id;
  established = true;
}

-- The device gives a token, and that is what the reply to a login holds.
abbrev pub HasToken : AesDevice → Type 0
HasToken device = length device.token == 0 ≡ false

module _ (crypto : Crypto) (enc : Encoding) (dc : DeviceCodec) (device : AesDevice) where
  -- The replies of the device fit in the limit on a body.
  pub record IsBrief : Type 0 where
    pub keys :
        (pem : Text)
        → IsSmall (dc.reply (dc.key_result (enc.encode_base64 (dc.seal pem device.secret))))
    pub login : IsSmall (wire crypto enc dc device (dc.login_reply device.token))
    pub refused : IsSmall (wire crypto enc dc device dc.refusal)
    pub answers : (request : Text) → IsSmall (wire crypto enc dc device (device.respond request))

module _ {K : Type 0} (crypto : Crypto) (sound : IsSound crypto) (takes : Takes crypto)
    (json : AesJson) (enc : Encoding) (rsa : Rsa AesStage K) (dc : DeviceCodec) (device : AesDevice)
    (speaks : Speaks json enc rsa dc device) (whole : length device.secret ≡ 32) where
  abbrev http : Http AesStage
  http = aes_device_http crypto enc dc device

  accepted_reply :
      (t : AesTransport) (r : Text)
      → IsResult enc dc r
      → IsSmall (dc.reply r)
      → accepted json t (response 200 (dc.reply r) []) ≡ (ok r, t)
  unfolding accepted aes_error_for
  accepted_reply t r result fits =
      let read = take_all (max_response_bytes + 1) (dc.reply r) (omega arith) in
      rw (read, speaks.replies r result) (ground arith)

  pub post_answered :
      (t : AesTransport) (stage stage' : AesStage) (query body r : Text)
      → on_body crypto enc dc device stage query body (dc.pem_of body)
        ≡ (response 200 (dc.reply r) [], stage')
      → IsResult enc dc r
      → IsSmall (dc.reply r)
      → aes_post crypto http rsa json enc stage t query body ≡ (ok r, t, stage')
  unfolding aes_post
  post_answered t stage stage' query body r answers result fits =
      ap (λ x. ((accepted json t x.0).0, (accepted json t x.0).1, x.1)) answers
      ∙ ap (λ y. (y.0, y.1, stage')) (accepted_reply t r result fits)

  abbrev ciphertext : Text → Text
  ciphertext plain =
      crypto.cbc_encrypt (take 16 device.secret) (drop 16 device.secret) (pkcs7_pad plain 16)

  encrypts :
      (creds : Credentials) (sid token plain : Text)
      → aes_encrypt crypto (client device creds sid token) plain ≡ ok (ciphertext plain)
  unfolding aes_encrypt
  encrypts creds sid token plain =
      let taken = takes (take 16 device.secret) (ground (arith, length-take 16 device.secret)) in
      rw taken refl

  decrypts :
      (creds : Credentials) (sid token plain : Text)
      → aes_decrypt crypto (client device creds sid token) (ciphertext plain) ≡ ok plain
  decrypts creds sid token plain =
      aes_decrypt-aes_encrypt crypto sound (client device creds sid token) plain (ciphertext plain)
        (encrypts creds sid token plain)

  sealed_request :
      (creds : Credentials) (sid token request : Text)
      → (body : Text) × (sealed crypto http rsa json enc (client device creds sid token) request
          ≡ ok body)
        × (opened crypto enc dc device body ≡ ok request)
        × (dc.pem_of body ≡ none)
  unfolding sealed opened
  sealed_request creds sid token request =
      let (body, written, read, no_pem) = speaks.passthroughs (ciphertext request) in
      (
        body,
        rw (encrypts creds sid token request, written) refl,
        rw (read, speaks.base64 (ciphertext request))
            (decrypts (record { username = []; password = [] }) [] device.token request),
        no_pem,
      )

  unsealed_reply :
      (creds : Credentials) (sid token plain : Text)
      → unsealed crypto http rsa json enc
          (client device creds sid token)
          (ok (dc.response_result (enc.encode_base64 (ciphertext plain))))
        ≡ inner json plain
  unfolding unsealed
  unsealed_reply creds sid token plain =
      rw
        (
          speaks.responses (ciphertext plain),
          speaks.base64 (ciphertext plain),
          decrypts creds sid token plain,
        )
        refl

  -- A request of the client, as the device answers it at the stage.
  abbrev pub said : AesStage → Credentials → (session_id token request : Text) → Text × AesStage
  said stage creds sid token request =
      on_request crypto enc dc device stage (token_query (client device creds sid token)) request
        (dc.login_of request)

  abbrev pub IsOpen : AesStage → Type 0
  IsOpen fresh = ⊥
  IsOpen key_given = Unit
  IsOpen authenticated = Unit

  inner_sends :
      (stage : AesStage) (query body request : Text)
      → IsOpen stage
      → opened crypto enc dc device body ≡ ok request
      → dc.pem_of body ≡ none
      → on_body crypto enc dc device stage query body (dc.pem_of body)
        ≡ sends crypto enc dc device
            (on_request crypto enc dc device stage query request (dc.login_of request))
  inner_sends fresh query body request h read no_pem = absurd h
  inner_sends key_given query body request h read no_pem =
      ap (on_body crypto enc dc device key_given query body) no_pem
      ∙ ap (on_opened crypto enc dc device key_given query) read
  inner_sends authenticated query body request h read no_pem =
      ap (on_body crypto enc dc device authenticated query body) no_pem
      ∙ ap (on_opened crypto enc dc device authenticated query) read

  passed_through :
      (stage : AesStage) (creds : Credentials) (sid token request : Text)
      → IsOpen stage
      → IsSmall (wire crypto enc dc device (said stage creds sid token request).0)
      → passthrough crypto http rsa json enc stage (client device creds sid token) request ≡ (
        inner json (said stage creds sid token request).0,
        client device creds sid token,
        (said stage creds sid token request).1,
      )
  unfolding passthrough
  passed_through stage creds sid token request h fits =
      let t = client device creds sid token in
      let (body, sealed_as, read, no_pem) = sealed_request creds sid token request in
      let (plain, stage') = said stage creds sid token request in
      ap (passed crypto http rsa json enc stage t) sealed_as
      ∙ ap (λ x. (unsealed crypto http rsa json enc x.1 x.0, x.1, x.2))
          (post_answered t stage stage' (token_query t) body
            (dc.response_result (enc.encode_base64 (ciphertext plain)))
            (inner_sends stage (token_query t) body request h read no_pem)
            (ciphertext plain, inr refl) fits)
      ∙ ap (λ r. (r, t, stage')) (unsealed_reply creds sid token plain)

  pub passed_as :
      (stage : AesStage) (creds : Credentials) (sid token request plain : Text) (stage' : AesStage)
      → IsOpen stage
      → said stage creds sid token request ≡ (plain, stage')
      → IsSmall (wire crypto enc dc device plain)
      → passthrough crypto http rsa json enc stage (client device creds sid token) request
        ≡ (inner json plain, client device creds sid token, stage')
  passed_as stage creds sid token request plain stage' h e fits =
      passed_through stage creds sid token request h
        (subst (λ x. IsSmall (wire crypto enc dc device x.0)) (sym e) fits)
      ∙ (λ i. (inner json (e i).0, client device creds sid token, (e i).1))
