-- ===== src/Aes/Dialogue/Queries.antt =====
-- The queries of kasa/aes.go against a device that keeps to the protocol.
use kasa_exporter.Base.{
  ◌⊎◌, ◌≡◌, refl, sym, ap, ◌∙◌, subst, inl, inr, false, none, [], ◌++◌, if◌then◌else◌, length,
}
use kasa_exporter.Base.Text.{==ₜ_refl, ◌==ₜ◌, Text, codes}
use kasa_exporter.Errors.{Result, ok}
use kasa_exporter.Klap.{Http, Crypto}
use kasa_exporter.Klap.Queries.{Takes}
use kasa_exporter.Aes.{token_query, Encoding, AesTransport, AesJson, Rsa, passthrough}
use kasa_exporter.Klap.Wire.{IsSound}
use kasa_exporter.Connect.{Credentials}
use kasa_exporter.Aes.Query.{
  connected, connect_unless, aes_query, aes_loop, after_connect, or_renewed,
}
use kasa_exporter.Aes.Device.{
  on_command, AesStage, authenticated, AesDevice, DeviceCodec, on_request, aes_device_http,
}
use kasa_exporter.Klap.{Http}
use kasa_exporter.Aes.Device.{aes_device_http}
use kasa_exporter.Aes.Dialogue.{Speaks, inner, client, HasToken, IsBrief, said, passed_as}
use kasa_exporter.Aes.Dialogue.Logins.{Accepts, connected_client}

module _ {K : Type 0} (crypto : Crypto) (sound : IsSound crypto) (takes : Takes crypto)
    (json : AesJson) (enc : Encoding) (rsa : Rsa AesStage K) (dc : DeviceCodec) (device : AesDevice)
    (speaks : Speaks json enc rsa dc device) (whole : length device.secret ≡ 32) where
  abbrev http : Http AesStage
  http = aes_device_http crypto enc dc device

  -- The device's answers hold no error code, and the requests are not logins.
  abbrev pub IsPlain : (request : Text) → Type 0
  IsPlain request =
      (inner json (device.respond request) ≡ ok (device.respond request))
      × (dc.login_of request ≡ none)

  -- The client device has the session and the token of the device.
  abbrev pub Synced : AesTransport → AesStage → Type 0
  Synced t stage =
      (sid : Text) × (t ≡ client device t.credentials sid device.token) × (stage ≡ authenticated)

  request_answered :
      (creds : Credentials) (sid request : Text)
      → HasToken device
      → IsBrief crypto enc dc device
      → IsPlain request
      → passthrough crypto http rsa json enc authenticated
          (client device creds sid device.token)
          request
        ≡ (ok (device.respond request), client device creds sid device.token, authenticated)
  request_answered creds sid request has brief (plain, no_login) =
      let t = client device creds sid device.token in
      let told : said crypto sound takes json enc rsa dc device speaks whole authenticated creds sid
            device.token request
          ≡ (device.respond request, authenticated) =
        ap (on_request crypto enc dc device authenticated (token_query t) request) no_login
        ∙ ap
            (λ b.
              on_command crypto enc dc device authenticated
                ((if b then [] else codes "?token=" ++ device.token)
                  ==ₜ (codes "?token=" ++ device.token))
                request)
            has
        ∙ ap (λ b. on_command crypto enc dc device authenticated b request)
            (==ₜ_refl (codes "?token=" ++ device.token)) in
      passed_as crypto sound takes json enc rsa dc device speaks whole authenticated creds sid
        device.token request (device.respond request) authenticated tt told (brief.answers request)
      ∙ ap (λ r. (r, t, authenticated)) plain

  -- A client device that has still to connect has credentials that the device accepts; another one has its
  -- session and its token.
  abbrev pub IsReady : AesTransport → AesStage → Type 0
  IsReady t stage =
      ((t.established ≡ false)
        × Accepts crypto sound takes json enc rsa dc device speaks whole t.credentials)
      ⊎ Synced t stage

  -- The answer of the device, to a client device that has its session and its token.
  abbrev pub IsAnswered : (request : Text) → Result Text × AesTransport × AesStage → Type 0
  IsAnswered request x = (x.0 ≡ ok (device.respond request)) × Synced x.1 x.2

  ready_client :
      (t : AesTransport) (stage : AesStage)
      → HasToken device
      → IsBrief crypto enc dc device
      → IsReady t stage
      → (sid : Text) × (connected crypto http rsa json enc stage t
          ≡ (ok tt, client device t.credentials sid device.token, authenticated))
  ready_client t stage has brief (inl (none_yet, accepts)) = (
    [],
    ap (λ b. connect_unless crypto http rsa json enc b stage t) none_yet
        ∙ connected_client crypto sound takes json enc rsa dc device speaks whole stage t has brief
            accepts,
  )
  ready_client t stage has brief (inr (sid, same, at)) =
      (sid, λ i. connected crypto http rsa json enc (at i) (same i))

  -- Against a device that accepts the client's credentials in one of the two shapes of a login and keeps to
  -- the protocol, a query gives the device's answer to the request, if its answers hold no error
  -- code and fit in the limit on a body; it does so from a client device without a session, whatever the
  -- device did before, and from one that has the device's session; and afterwards the client device has
  -- the session and the token.
  pub aes_query_answers :
      (t : AesTransport) (stage : AesStage) (request : Text)
      → HasToken device
      → IsBrief crypto enc dc device
      → IsPlain request
      → IsReady t stage
      → IsAnswered request (aes_query crypto http rsa json enc stage t request)
  unfolding aes_query aes_loop
  aes_query_answers t stage request has brief plain ready =
      let (sid, joined) = ready_client t stage has brief ready in
      let creds = t.credentials in
      subst
        (λ x. IsAnswered request (
          after_connect crypto http rsa json enc request x
            (λ t' w'. aes_loop crypto http rsa json enc 1 w' t' request)))
        (sym joined)
        (subst
          (λ x. IsAnswered request (
            or_renewed crypto http rsa json enc x
              (λ t' w'. aes_loop crypto http rsa json enc 1 w' t' request)))
          (sym (request_answered creds sid request has brief plain)) (refl, (sid, refl, refl)))
