-- ===== src/Aes/Attempt.antt =====
-- The connection of kasa/aes.go: what an attempt to make a session leaves of it.
use kasa_exporter.Base.{
  ◌≡◌, refl, ◌∙◌, Bool, true, false, not, ◌||◌, Option, none, some, List, [], ◌∷◌, arith, ◌==◌,
  length, take, drop,
}
use kasa_exporter.Base.Text.{Text}
use kasa_exporter.Errors.{Result, ok, err}
use kasa_exporter.Klap.{Crypto, Http, HttpOutcome, failed, broken, response}
use kasa_exporter.Aes.{
  token_query, AesTransport, AesJson, Encoding, Rsa, LoginParams, aes_post, accepted, passthrough,
  passed, sealed,
}
use kasa_exporter.Aes.Query.{
  connect_unless, with_token, logged_in, granted, login_loop, login, connect, with_key, shaken,
  keyed, secret_of, offered, login_attempts,
}

-- A session that is established has a token.
abbrev pub IsAuthenticated : AesTransport → Type 0
IsAuthenticated t = (not t.established || not (length t.token == 0)) ≡ true

-- json.Marshal takes a map of strings.
abbrev pub Marshals : AesJson → Type 0
Marshals json = (params : LoginParams) → ((body : Text) × (json.login params ≡ ok body))

module _ {W K : Type 0} (crypto : Crypto) (http : Http W) (rsa : Rsa W K) (json : AesJson)
    (enc : Encoding) where
  -- A post changes nothing of a session but its cookie.
  pub record SameSession (t u : AesTransport) : Type 0 where
    pub established : u.established ≡ t.established
    pub token : u.token ≡ t.token

  accepted-SameSession :
      (t : AesTransport) (outcome : HttpOutcome) → SameSession t (accepted json t outcome).1
  unfolding accepted
  accepted-SameSession t failed = record { established = refl; token = refl }
  accepted-SameSession t broken = record { established = refl; token = refl }
  accepted-SameSession t (response status body cookies) = record {
    established = ground arith;
    token = ground arith;
  }

  passed-SameSession :
      (w : W) (t : AesTransport) (r : Result Text)
      → SameSession t (passed crypto http rsa json enc w t r).1
  unfolding aes_post
  passed-SameSession w t (err e) = record { established = refl; token = refl }
  passed-SameSession w t (ok body) =
      accepted-SameSession t (http.post w (token_query t) t.session_id body).0

  pub passthrough-SameSession :
      (w : W) (t : AesTransport) (request : Text)
      → SameSession t (passthrough crypto http rsa json enc w t request).1
  unfolding passthrough
  passthrough-SameSession w t request =
      passed-SameSession w t (sealed crypto http rsa json enc t request)

  granted_nonempty :
      (r : Result Text) (token : Text)
      → granted crypto http rsa json enc r ≡ some token
      → (length token == 0) ≡ false
  granted_nonempty (err e) token h = cc h
  granted_nonempty (ok plain) token h = ground arith

  with_token-IsAuthenticated :
      (r : Result Text) (token : Option Text) (t : AesTransport) (w : W)
      (rest : AesTransport → W → Result (Unit {0}) × AesTransport × W)
      → granted crypto http rsa json enc r ≡ token
      → ((t : AesTransport) (w : W) → IsAuthenticated (rest t w).1)
      → IsAuthenticated (with_token crypto http rsa json enc token t w rest).1
  with_token-IsAuthenticated r none t w rest e h = h t w
  with_token-IsAuthenticated r (some token) t w rest e h =
      let nonempty = granted_nonempty r token e in ground arith

  logged_in-IsAuthenticated :
      (x : Result Text × AesTransport × W)
      (rest : AesTransport → W → Result (Unit {0}) × AesTransport × W)
      → ((t : AesTransport) (w : W) → IsAuthenticated (rest t w).1)
      → IsAuthenticated (logged_in crypto http rsa json enc x rest).1
  logged_in-IsAuthenticated (r, t, w) rest h =
      with_token-IsAuthenticated r (granted crypto http rsa json enc r) t w rest refl h

  login_loop-IsAuthenticated :
      (marshals : Marshals json) (attempts : List LoginParams) (w : W) (t : AesTransport)
      → IsAuthenticated (login_loop crypto http rsa json enc attempts w t).1
  unfolding login_loop
  login_loop-IsAuthenticated marshals [] w t = refl
  login_loop-IsAuthenticated marshals (params ∷ attempts) w t =
      let (body, e) = marshals params in
      rw e (
        logged_in-IsAuthenticated (passthrough crypto http rsa json enc w t body)
          (λ t' w'. login_loop crypto http rsa json enc attempts w' t')
          (λ t' w'. login_loop-IsAuthenticated marshals attempts w' t'))

  keyed-IsAuthenticated :
      (marshals : Marshals json) (w : W) (t : AesTransport) (secret : Result Text)
      → t.established ≡ false
      → IsAuthenticated (keyed crypto http rsa json enc w t secret).1
  unfolding login
  keyed-IsAuthenticated marshals w t (err e) idle = ground arith
  keyed-IsAuthenticated marshals w t (ok secret) idle =
      login_loop-IsAuthenticated marshals (login_attempts crypto http rsa json enc t.credentials) w
        (record t { key = take 16 secret; iv = drop 16 secret; established = true })

  shaken-IsAuthenticated :
      (marshals : Marshals json) (w : W) (t : AesTransport) (key : K) (body : Result Text)
      → t.established ≡ false
      → IsAuthenticated (shaken crypto http rsa json enc w t key body).1
  unfolding aes_post
  shaken-IsAuthenticated marshals w t key (err e) idle = ground arith
  shaken-IsAuthenticated marshals w t key (ok body) idle =
      let (outcome, w') = http.post w [] t.session_id body in
      let (r, t') = accepted json t outcome in
      keyed-IsAuthenticated marshals w' t' (secret_of crypto http rsa json enc key r)
        ((accepted-SameSession t outcome).established ∙ idle)

  with_key-IsAuthenticated :
      (marshals : Marshals json) (w : W) (t : AesTransport) (made : Option (K × W))
      → t.established ≡ false
      → IsAuthenticated (with_key crypto http rsa json enc w t made).1
  with_key-IsAuthenticated marshals w t none idle = ground arith
  with_key-IsAuthenticated marshals w t (some (key, w')) idle =
      shaken-IsAuthenticated marshals w' t key (offered crypto http rsa json enc key) idle

  pub connect_unless-IsAuthenticated :
      (marshals : Marshals json) (established : Bool) (w : W) (t : AesTransport)
      → t.established ≡ established
      → IsAuthenticated t
      → IsAuthenticated (connect_unless crypto http rsa json enc established w t).1
  unfolding connect
  connect_unless-IsAuthenticated marshals true w t e h = h
  connect_unless-IsAuthenticated marshals false w t e h =
      with_key-IsAuthenticated marshals w (record t { token = []; session_id = [] })
        (rsa.generate w) e

  -- An attempt that succeeded leaves the session established.
  abbrev pub IsOpened : Result (Unit {0}) × AesTransport × W → Type 0
  IsOpened x = x.0 ≡ ok tt → x.1.established ≡ true

  with_token-IsOpened :
      (token : Option Text) (t : AesTransport) (w : W)
      (rest : AesTransport → W → Result (Unit {0}) × AesTransport × W)
      → t.established ≡ true
      → ((t : AesTransport) (w : W) → t.established ≡ true → IsOpened (rest t w))
      → IsOpened (with_token crypto http rsa json enc token t w rest)
  with_token-IsOpened none t w rest e h = h t w e
  with_token-IsOpened (some token) t w rest e h = λ done. e

  login_loop-IsOpened :
      (marshals : Marshals json) (attempts : List LoginParams) (w : W) (t : AesTransport)
      → t.established ≡ true
      → IsOpened (login_loop crypto http rsa json enc attempts w t)
  unfolding login_loop
  login_loop-IsOpened marshals [] w t e = λ done. cc done
  login_loop-IsOpened marshals (params ∷ attempts) w t e =
      let (body, written) = marshals params in
      let (r, t', w') = passthrough crypto http rsa json enc w t body in
      rw written (
        with_token-IsOpened (granted crypto http rsa json enc r) t' w'
          (λ t'' w''. login_loop crypto http rsa json enc attempts w'' t'')
          ((passthrough-SameSession w t body).established ∙ e)
          (λ t'' w'' e''. login_loop-IsOpened marshals attempts w'' t'' e''))

  keyed-IsOpened :
      (marshals : Marshals json) (w : W) (t : AesTransport) (secret : Result Text)
      → IsOpened (keyed crypto http rsa json enc w t secret)
  unfolding login
  keyed-IsOpened marshals w t (err e) = λ done. cc done
  keyed-IsOpened marshals w t (ok secret) =
      login_loop-IsOpened marshals (login_attempts crypto http rsa json enc t.credentials) w
        (record t { key = take 16 secret; iv = drop 16 secret; established = true }) refl

  shaken-IsOpened :
      (marshals : Marshals json) (w : W) (t : AesTransport) (key : K) (body : Result Text)
      → IsOpened (shaken crypto http rsa json enc w t key body)
  unfolding aes_post
  shaken-IsOpened marshals w t key (err e) = λ done. cc done
  shaken-IsOpened marshals w t key (ok body) =
      let (outcome, w') = http.post w [] t.session_id body in
      let (r, t') = accepted json t outcome in
      keyed-IsOpened marshals w' t' (secret_of crypto http rsa json enc key r)

  with_key-IsOpened :
      (marshals : Marshals json) (w : W) (t : AesTransport) (made : Option (K × W))
      → IsOpened (with_key crypto http rsa json enc w t made)
  with_key-IsOpened marshals w t none = λ done. cc done
  with_key-IsOpened marshals w t (some (key, w')) =
      shaken-IsOpened marshals w' t key (offered crypto http rsa json enc key)

  pub connect_unless-IsOpened :
      (marshals : Marshals json) (established : Bool) (w : W) (t : AesTransport)
      → t.established ≡ established
      → IsOpened (connect_unless crypto http rsa json enc established w t)
  unfolding connect
  connect_unless-IsOpened marshals true w t e = λ done. e
  connect_unless-IsOpened marshals false w t e =
      with_key-IsOpened marshals w (record t { token = []; session_id = [] }) (rsa.generate w)
