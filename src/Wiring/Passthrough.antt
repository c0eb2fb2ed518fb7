-- ===== src/Wiring/Passthrough.antt =====
-- A device that discovery found (kasa/discover.go), read again and again over the secure passthrough.
use kasa_exporter.Base.Int.{ℤ}
use kasa_exporter.Base.Text.{codes, ◌==ₜ◌, Text}
use kasa_exporter.Base.{ℕ, ◌≡◌, refl, sym, subst, inl, inr, ◌++◌, length}
use kasa_exporter.Errors.{ok}
use kasa_exporter.Wiring.{
  build_querier, query_link, Backend, World, Link, xor_link, klap_link, aes_link, links, over_aes,
}
use kasa_exporter.Wiring.EndToEnd.{read_device-Read, after_reads-IsServed, IsServed, after_reads}
use kasa_exporter.Wiring.Served.{NextPlain}
use kasa_exporter.Wiring.Ready.{answers_of}
use kasa_exporter.Connect.{Credentials, device_url, connect_as, smart_over_aes}
use kasa_exporter.Discovery.{DiscoveryResult, encrypt_aes}
use kasa_exporter.Device.{discovered_device}
use kasa_exporter.Transport.Ideal.{Serves}
use kasa_exporter.Klap.Wire.{IsSound}
use kasa_exporter.Klap.Queries.{Takes}
use kasa_exporter.Aes.Query.{aes_query}
use kasa_exporter.Aes.Device.{AesStage, AesDevice, DeviceCodec, aes_device_http}
use kasa_exporter.Aes.Dialogue.{Speaks, HasToken, IsBrief}
use kasa_exporter.Aes.Dialogue.Logins.{Accepts}
use kasa_exporter.Aes.Dialogue.Queries.{IsReady, IsPlain, aes_query_answers}

connect_as-aes :
    (found : DiscoveryResult)
    → found.encrypt_type ≡ encrypt_aes
    → connect_as found.host found
      ≡ ok (smart_over_aes (device_url found.host found ++ codes "/app"))
unfolding connect_as ◌==ₜ◌
connect_as-aes found e = rw e refl

module _ {K F : Type 0} (b : Backend AesStage K F) (sound : IsSound b.crypto)
    (takes : Takes b.crypto) (dc : DeviceCodec) (device : AesDevice)
    (speaks : Speaks b.aes_json b.encoding b.rsa dc device)
    (whole : length device.secret ≡ 32) where
  -- The base URL leads to the device.
  abbrev AesReady : AesStage × Link → Type 0
  AesReady (stage, xor_link t) = ⊥
  AesReady (stage, klap_link url timeout t) = ⊥
  AesReady (stage, aes_link url timeout t) =
      (b.http url timeout ≡ aes_device_http b.crypto b.encoding dc device)
      × IsReady b.crypto sound takes b.aes_json b.encoding b.rsa dc device speaks whole t stage

  abbrev pub IsPlainRequest : Text → Type 0
  IsPlainRequest = IsPlain b.crypto sound takes b.aes_json b.encoding b.rsa dc device speaks whole

  -- The device accepts the credentials.
  abbrev pub Admits : Credentials → Type 0
  Admits creds =
      Accepts b.crypto sound takes b.aes_json b.encoding b.rsa dc device speaks whole creds

  aes-Serves :
      HasToken device
      → IsBrief b.crypto b.encoding dc device
      → Serves (links b) AesReady IsPlainRequest (answers_of device.respond)
  unfolding query_link
  aes-Serves has brief (stage, xor_link t) body ready plain = absurd ready
  aes-Serves has brief (stage, klap_link url timeout t) body ready plain = absurd ready
  aes-Serves has brief (stage, aes_link url timeout t) body (at, ready) plain =
      let (answer, synced) =
        aes_query_answers b.crypto sound takes b.aes_json b.encoding b.rsa dc device speaks whole t
          stage body has brief plain ready in
      subst
        (λ http.
          ((over_aes b url timeout
              (aes_query b.crypto http b.rsa b.aes_json b.encoding stage t body)).0
            ≡ ok (device.respond body))
          × AesReady
              (over_aes b url timeout
                (aes_query b.crypto http b.rsa b.aes_json b.encoding stage t body)).1)
        (sym at) (answer, (at, inr synced))

  module _ (creds : Credentials) (timeout : ℤ) (found : DiscoveryResult)
      (smart_fits : kasa_exporter.Smart.Querier.Ideal.AllFit b.smart_json IsPlainRequest) where
    discovered_aes-IsServed :
        (w : World AesStage)
        → found.encrypt_type ≡ encrypt_aes
        → b.http (device_url found.host found ++ codes "/app") timeout
          ≡ aes_device_http b.crypto b.encoding dc device
        → Admits creds
        → IsServed b AesReady
            (smart_over_aes (device_url found.host found ++ codes "/app"))
            w
            (discovered_device creds timeout found)
    unfolding discovered_device build_querier
    discovered_aes-IsServed w scheme at admits = record {
      found = found;
      known = refl;
      planned = connect_as-aes found scheme;
      fresh = λ v. (at, inl (refl, admits));
      held = tt;
    }

    -- A device that announced AES in discovery, that keeps to the protocol of the secure passthrough at the
    -- announced address, has a session key of 32 bytes, accepts the client's credentials in one of the two
    -- shapes of a login, gives a token, replies within the limit on a body, and answers the requests of
    -- the SMART dialect, none of which reads as a login, without an error code in the envelope: each read of
    -- it, however many were made before and whatever the device did before them, succeeds or fails as the
    -- SMART dialect makes of the device's own answers, with the same reading; neither the handshake, the
    -- logins nor the encryption change anything.
    pub aes_reads :
        (w : World AesStage) (n : ℕ)
        → found.encrypt_type ≡ encrypt_aes
        → b.http (device_url found.host found ++ codes "/app") timeout
          ≡ aes_device_http b.crypto b.encoding dc device
        → Admits creds
        → HasToken device
        → IsBrief b.crypto b.encoding dc device
        → NextPlain b
            (answers_of device.respond)
            (smart_over_aes (device_url found.host found ++ codes "/app"))
            (after_reads b n w (discovered_device creds timeout found))
    aes_reads w n scheme at admits has brief =
        let plan = smart_over_aes (device_url found.host found ++ codes "/app") in
        let serves = aes-Serves has brief in
        let (d, w') = after_reads b n w (discovered_device creds timeout found) in
        let s =
          after_reads-IsServed b AesReady plan IsPlainRequest (answers_of device.respond) serves
            (λ iot. absurd iot) (λ smart. smart_fits) n w (discovered_device creds timeout found)
            (discovered_aes-IsServed w scheme at admits) in
        (read_device-Read b AesReady plan IsPlainRequest (answers_of device.respond) serves
          (λ iot. absurd iot) (λ smart. smart_fits) w' d s).0
