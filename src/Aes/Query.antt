-- ===== src/Aes/Query.antt =====
-- The handshake, the login and the queries of kasa/aes.go.
use kasa_exporter.Base.{
  ℕ, zero, suc, Bool, true, false, not, Option, none, some, List, [], ◌∷◌, ◌==◌, if◌then◌else◌,
  length, take, drop,
}
use kasa_exporter.Base.Text.{Text}
use kasa_exporter.Errors.{
  Result, ok, err, ◌>>=◌, ◌>>◌, reject_if, or_error, aes_unauthorized, expired_twice, rsa_failed,
  bad_handshake, bad_base64, bad_session_key, session_key_length,
}
use kasa_exporter.Connect.{Credentials}
use kasa_exporter.Klap.{Crypto, Http}
use kasa_exporter.Aes.{
  with_password2, with_password, Encoding, AesJson, Rsa, aes_session_len, LoginParams, passthrough,
  AesTransport, is_expired, aes_post,
}

module _ {W K : Type 0} (crypto : Crypto) (http : Http W) (rsa : Rsa W K) (json : AesJson)
    (enc : Encoding) where
  -- The token in the reply to a login: an attempt without one is not the last word.
  abbrev pub granted : Result Text → Option Text
  granted (err e) = none
  granted (ok plain) = elim (json.login_token plain) [
    | none ↦ none
    | some token ↦ if length token == 0 then none else some token
  ]

  abbrev pub with_token :
      Option Text
      → AesTransport
      → W
      → (AesTransport → W → Result (Unit {0}) × AesTransport × W)
      → Result (Unit {0}) × AesTransport × W
  with_token none t w rest = rest t w
  with_token (some token) t w rest = (ok tt, record t { token = token }, w)

  abbrev pub logged_in :
      Result Text × AesTransport × W
      → (AesTransport → W → Result (Unit {0}) × AesTransport × W)
      → Result (Unit {0}) × AesTransport × W
  logged_in (r, t, w) rest = with_token (granted r) t w rest

  abbrev pub login_sent :
      W
      → AesTransport
      → Result Text
      → (AesTransport → W → Result (Unit {0}) × AesTransport × W)
      → Result (Unit {0}) × AesTransport × W
  login_sent w t (err e) rest = (err e, t, w)
  login_sent w t (ok request) rest =
      logged_in (passthrough crypto http rsa json enc w t request) rest

  -- The loop of `login` over the attempts that are left.
  unfoldable pub login_loop :
      List LoginParams → W → AesTransport → Result (Unit {0}) × AesTransport × W
  unfolding passthrough
  login_loop [] w t = (err aes_unauthorized, record t { established = false }, w)
  login_loop (params ∷ attempts) w t =
      login_sent w t (json.login params) (λ t' w'. login_loop attempts w' t')

  abbrev pub login_attempts : Credentials → List LoginParams
  login_attempts creds =
      let username = enc.encode_base64 (enc.encode_hex (crypto.sha1 creds.username)) in
      with_password username (enc.encode_base64 creds.password)
      ∷ with_password2 username (enc.encode_base64 (enc.encode_hex (crypto.sha1 creds.password)))
      ∷ []

  -- `login`
  unfoldable pub login : W → AesTransport → Result (Unit {0}) × AesTransport × W
  unfolding login_loop
  login w t = login_loop (login_attempts t.credentials) w t

  -- The session secret in the reply to the handshake.
  unfoldable pub secret_of : K → Result Text → Result Text
  secret_of key answer = do
    result ← answer
    wrapped ← or_error (json.wrapped_key result) bad_handshake
    encrypted ← or_error (enc.decode_base64 wrapped) bad_base64
    secret ← or_error (rsa.decrypt_pkcs1v15 key encrypted) bad_session_key
    reject_if (not (length secret == aes_session_len)) (session_key_length (length secret))
    ok secret

  abbrev pub keyed : W → AesTransport → Result Text → Result (Unit {0}) × AesTransport × W
  keyed w t (err e) = (err e, t, w)
  keyed w t (ok secret) =
      login w (record t { key = take 16 secret; iv = drop 16 secret; established = true })

  abbrev pub shaken : W → AesTransport → K → Result Text → Result (Unit {0}) × AesTransport × W
  shaken w t key (err e) = (err e, t, w)
  shaken w t key (ok body) =
      let (r, t', w') = aes_post crypto http rsa json enc w t [] body in
      keyed w' t' (secret_of key r)

  -- The public key, in the request that offers it.
  abbrev pub offered : K → Result Text
  offered key = do pem ← or_error (rsa.public_pem key) rsa_failed; json.handshake pem

  abbrev pub with_key : W → AesTransport → Option (K × W) → Result (Unit {0}) × AesTransport × W
  with_key w t none = (err rsa_failed, t, w)
  with_key w t (some (key, w')) = shaken w' t key (offered key)

  -- `connect`
  unfoldable pub connect : W → AesTransport → Result (Unit {0}) × AesTransport × W
  unfolding login secret_of aes_post
  connect w t = with_key w (record t { token = []; session_id = [] }) (rsa.generate w)

  abbrev pub connect_unless :
      (established : Bool) → W → AesTransport → Result (Unit {0}) × AesTransport × W
  connect_unless true w t = (ok tt, t, w)
  connect_unless false w t = connect w t

  abbrev pub connected : W → AesTransport → Result (Unit {0}) × AesTransport × W
  connected w t = connect_unless t.established w t

  -- What `Query` does with the answer: an expired session is tried again.
  abbrev pub or_renewed :
      Result Text × AesTransport × W
      → (AesTransport → W → Result Text × AesTransport × W)
      → Result Text × AesTransport × W
  or_renewed (ok plain, t, w) again = (ok plain, t, w)
  or_renewed (err e, t, w) again =
      if is_expired e then again (record t { established = false }) w else (err e, t, w)

  abbrev pub after_connect :
      Text
      → Result (Unit {0}) × AesTransport × W
      → (AesTransport → W → Result Text × AesTransport × W)
      → Result Text × AesTransport × W
  after_connect request (err e, t, w) again = (err e, t, w)
  after_connect request (ok _, t, w) again =
      or_renewed (passthrough crypto http rsa json enc w t request) again

  -- The loop of `Query`, with the attempts that are left.
  unfoldable pub aes_loop : ℕ → W → AesTransport → Text → Result Text × AesTransport × W
  unfolding connect passthrough
  aes_loop zero w t request = (err expired_twice, t, w)
  aes_loop (suc n) w t request =
      after_connect request (connected w t) (λ t' w'. aes_loop n w' t' request)

  -- `Query`
  unfoldable pub aes_query : W → AesTransport → Text → Result Text × AesTransport × W
  unfolding aes_loop
  aes_query w t request = aes_loop 2 w t request

-- `Close`
abbrev pub aes_close : AesTransport → AesTransport
aes_close t = record t { established = false; token = []; session_id = [] }
