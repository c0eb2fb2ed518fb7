-- ===== src/Aes/Dialogue/Logins.antt =====
-- The handshake and the logins of kasa/aes.go against a device that keeps to the protocol.
use kasa_exporter.Base.{
  ◌≡◌, refl, ap, ◌∙◌, inl, inr, true, false, Option, none, some, List, [], ◌∷◌, ◌==◌, if◌then◌else◌,
  Bool-cases, length, Any,
}
use kasa_exporter.Base.Text.{Text}
use kasa_exporter.Errors.{aes_unauthorized, Result, ok, err}
use kasa_exporter.Klap.{Http, Crypto}
use kasa_exporter.Klap.Queries.{Takes}
use kasa_exporter.Aes.{
  token_query, aes_error_for, Encoding, AesTransport, AesJson, Rsa, LoginParams,
}
use kasa_exporter.Klap.Wire.{IsSound}
use kasa_exporter.Connect.{Credentials}
use kasa_exporter.Aes.Query.{keyed, shaken, with_key, offered, secret_of, connect, granted}
use kasa_exporter.Aes.Query.{
  login_sent, logged_in, with_token, granted, login, login_loop, login_attempts,
}
use kasa_exporter.Aes.Device.{
  on_login, AesStage, key_given, authenticated, AesDevice, DeviceCodec, on_request, on_body,
  aes_device_http,
}
use kasa_exporter.Klap.{Http}
use kasa_exporter.Aes.Device.{aes_device_http}
use kasa_exporter.Base.{All}
use kasa_exporter.Aes.Dialogue.{
  IsLogin, post_answered, Speaks, inner, client, HasToken, IsBrief, said, passed_as,
}

module _ {K : Type 0} (crypto : Crypto) (sound : IsSound crypto) (takes : Takes crypto)
    (json : AesJson) (enc : Encoding) (rsa : Rsa AesStage K) (dc : DeviceCodec) (device : AesDevice)
    (speaks : Speaks json enc rsa dc device) (whole : length device.secret ≡ 32) where
  abbrev http : Http AesStage
  http = aes_device_http crypto enc dc device

  inner_refusal : inner json dc.refusal ≡ err aes_unauthorized
  unfolding aes_error_for
  inner_refusal = rw speaks.refusals refl

  inner_login : inner json (dc.login_reply device.token) ≡ ok (dc.login_reply device.token)
  unfolding aes_error_for
  inner_login = rw speaks.login_envelope.1 refl

  granted_login :
      HasToken device
      → granted crypto http rsa json enc (inner json (dc.login_reply device.token))
        ≡ some device.token
  granted_login has =
      ap (granted crypto http rsa json enc) inner_login
      ∙ ap
          (λ o. elim o as (λ x. Option Text) [
            | none ↦ none
            | some token ↦ if length token == 0 then none else some token
          ])
          speaks.login_token
      ∙ ap (λ b. if b then none else some device.token) has

  abbrev Rest : Type 0
  Rest = AesTransport → AesStage → Result (Unit {0}) × AesTransport × AesStage

  attempt_taken :
      (creds : Credentials) (sid : Text) (p : LoginParams) (rest : Rest)
      → IsLogin enc p
      → HasToken device
      → IsBrief crypto enc dc device
      → device.accepts p ≡ true
      → login_sent crypto http rsa json enc key_given
          (client device creds sid [])
          (json.login p)
          rest
        ≡ (ok tt, client device creds sid device.token, authenticated)
  attempt_taken creds sid p rest shaped has brief taken =
      let (b, written, read) = speaks.logins p shaped in
      let t = client device creds sid [] in
      let told : said crypto sound takes json enc rsa dc device speaks whole key_given creds sid []
            b
          ≡ (dc.login_reply device.token, authenticated) =
        ap (on_request crypto enc dc device key_given (token_query t) b) read
        ∙ ap (on_login crypto enc dc device key_given) taken in
      ap (λ r. login_sent crypto http rsa json enc key_given t r rest) written
      ∙ ap (λ x. logged_in crypto http rsa json enc x rest)
          (passed_as crypto sound takes json enc rsa dc device speaks whole key_given creds sid [] b
            (dc.login_reply device.token) authenticated tt told brief.login)
      ∙ ap (λ o. with_token crypto http rsa json enc o t authenticated rest) (granted_login has)

  attempt_refused :
      (creds : Credentials) (sid : Text) (p : LoginParams) (rest : Rest)
      → IsLogin enc p
      → IsBrief crypto enc dc device
      → device.accepts p ≡ false
      → login_sent crypto http rsa json enc key_given
          (client device creds sid [])
          (json.login p)
          rest
        ≡ rest (client device creds sid []) key_given
  attempt_refused creds sid p rest shaped brief refused =
      let (b, written, read) = speaks.logins p shaped in
      let t = client device creds sid [] in
      let told : said crypto sound takes json enc rsa dc device speaks whole key_given creds sid []
            b
          ≡ (dc.refusal, key_given) =
        ap (on_request crypto enc dc device key_given (token_query t) b) read
        ∙ ap (on_login crypto enc dc device key_given) refused in
      ap (λ r. login_sent crypto http rsa json enc key_given t r rest) written
      ∙ ap (λ x. logged_in crypto http rsa json enc x rest)
          (passed_as crypto sound takes json enc rsa dc device speaks whole key_given creds sid [] b
            dc.refusal key_given tt told brief.refused)
      ∙ ap
          (λ r.
            with_token crypto http rsa json enc (granted crypto http rsa json enc r) t key_given
              rest)
          inner_refusal

  -- The device accepts one of the two logins that the client device has for its credentials.
  abbrev pub Accepts : Credentials → Type 0
  Accepts creds = Any (λ p. device.accepts p ≡ true) (login_attempts crypto http rsa json enc creds)

  login_loop_done :
      (creds : Credentials) (sid : Text) (ps : List LoginParams)
      → All (IsLogin enc) ps
      → HasToken device
      → IsBrief crypto enc dc device
      → Any (λ p. device.accepts p ≡ true) ps
      → login_loop crypto http rsa json enc ps key_given (client device creds sid [])
        ≡ (ok tt, client device creds sid device.token, authenticated)
  unfolding login_loop
  login_loop_done creds sid [] shapes has brief none_taken = absurd none_taken
  login_loop_done creds sid (p ∷ ps) (shaped, shapes) has brief (inl taken) =
      attempt_taken creds sid p _ shaped has brief taken
  login_loop_done creds sid (p ∷ ps) (shaped, shapes) has brief (inr later) =
      elim (Bool-cases (device.accepts p)) [
        | inl taken ↦ attempt_taken creds sid p _ shaped has brief taken
        | inr refused ↦
            attempt_refused creds sid p _ shaped brief refused
            ∙ login_loop_done creds sid ps shapes has brief later
      ]

  secret_found :
      (k : K) (pem : Text)
      → rsa.decrypt_pkcs1v15 k (dc.seal pem device.secret) ≡ some device.secret
      → secret_of crypto http rsa json enc k
          (ok (dc.key_result (enc.encode_base64 (dc.seal pem device.secret))))
        ≡ ok device.secret
  unfolding secret_of
  secret_found k pem opens =
      let wrapped = enc.encode_base64 (dc.seal pem device.secret) in
      rw
        (
          speaks.key_results (dc.seal pem device.secret),
          speaks.base64 (dc.seal pem device.secret),
          opens,
          whole,
        )
        refl

  pub connected_client :
      (stage : AesStage) (t : AesTransport)
      → HasToken device
      → IsBrief crypto enc dc device
      → Accepts t.credentials
      → connect crypto http rsa json enc stage t
        ≡ (ok tt, client device t.credentials [] device.token, authenticated)
  unfolding connect login
  connected_client stage t has brief accepts =
      let (k, pem, made, public_part, opens) = speaks.key_pairs stage in
      let (b, written, read) = speaks.handshakes k pem public_part in
      let t0 : AesTransport = record t { token = []; session_id = [] } in
      let offer : offered crypto http rsa json enc k ≡ ok b = rw public_part written in
      let result = dc.key_result (enc.encode_base64 (dc.seal pem device.secret)) in
      ap (with_key crypto http rsa json enc stage t0) made
      ∙ ap (λ r. shaken crypto http rsa json enc stage t0 k r) offer
      ∙ ap (λ x. keyed crypto http rsa json enc x.2 x.1 (secret_of crypto http rsa json enc k x.0))
          (post_answered crypto sound takes json enc rsa dc device speaks whole t0 stage key_given
            [] b result (ap (on_body crypto enc dc device stage [] b) read)
            (dc.seal pem device.secret, inl refl) (brief.keys pem))
      ∙ ap (keyed crypto http rsa json enc key_given t0) (secret_found k pem opens)
      ∙ login_loop_done t.credentials [] (login_attempts crypto http rsa json enc t.credentials)
          ((_, _, inl refl), ((_, _, inr refl), tt)) has brief accepts
