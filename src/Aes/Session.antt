-- ===== src/Aes/Session.antt =====
-- The session of kasa/aes.go: what an established one has, and what a failed login is taken for.
use kasa_exporter.Base.{◌≡◌, refl, true, false, Option, none, some, List, [], ◌∷◌}
use kasa_exporter.Base.Text.{Text}
use kasa_exporter.Errors.{Error, Result, ok, err, aes_unauthorized}
use kasa_exporter.Klap.{Crypto, Http}
use kasa_exporter.Aes.{AesTransport, AesJson, Encoding, Rsa, LoginParams, passthrough}
use kasa_exporter.Aes.Query.{
  with_token, granted, login_loop, login, connected, aes_query, login_attempts,
}
use kasa_exporter.Aes.Attempt.{IsAuthenticated, Marshals}

-- The credentials were refused, and the session is not established.
abbrev pub IsRefused : Error → AesTransport → Type 0
IsRefused e t = (e ≡ aes_unauthorized) × (t.established ≡ false)

module _ {W K : Type 0} (crypto : Crypto) (http : Http W) (rsa : Rsa W K) (json : AesJson)
    (enc : Encoding) where
  -- What a query from a session that is established only with a token comes to.
  abbrev pub IsGuarded : W → AesTransport → (request : Text) → Type 0
  IsGuarded w t request =
      let joined = connected crypto http rsa json enc w t in
      let x = aes_query crypto http rsa json enc w t request in
      IsAuthenticated joined.1
      × (joined.0 ≡ ok tt → joined.1.established ≡ true)
      × ((e : Error) → joined.0 ≡ err e → x ≡ (err e, joined.1, joined.2))
      × IsAuthenticated x.1

  with_token_failed :
      (token : Option Text) (t : AesTransport) (w : W)
      (rest : AesTransport → W → Result (Unit {0}) × AesTransport × W) (e : Error)
      → ((t : AesTransport) (w : W) → (rest t w).0 ≡ err e → IsRefused e (rest t w).1)
      → (with_token crypto http rsa json enc token t w rest).0 ≡ err e
      → IsRefused e (with_token crypto http rsa json enc token t w rest).1
  with_token_failed none t w rest e later h = later t w h
  with_token_failed (some token) t w rest e later h = cc h

  login_loop_failed :
      (marshals : Marshals json) (attempts : List LoginParams) (w : W) (t : AesTransport)
      (e : Error)
      → (login_loop crypto http rsa json enc attempts w t).0 ≡ err e
      → IsRefused e (login_loop crypto http rsa json enc attempts w t).1
  unfolding login_loop
  login_loop_failed marshals [] w t e h = (cc h, refl)
  login_loop_failed marshals (params ∷ attempts) w t e h =
      let (body, marshalled) = marshals params in
      let (reply, t', w') = passthrough crypto http rsa json enc w t body in
      rw marshalled (
        with_token_failed (granted crypto http rsa json enc reply) t' w'
          (λ t'' w''. login_loop crypto http rsa json enc attempts w'' t'') e
          (λ t'' w''. login_loop_failed marshals attempts w'' t'' e) (rw marshalled at h))

  -- Whatever makes a login fail, an unreachable device and a broken reply included, it is reported as a
  -- refusal of the credentials, and no session is established.
  pub login_failed :
      (marshals : Marshals json) (w : W) (t : AesTransport) (e : Error)
      → (login crypto http rsa json enc w t).0 ≡ err e
      → IsRefused e (login crypto http rsa json enc w t).1
  unfolding login
  login_failed marshals w t e h =
      login_loop_failed marshals (login_attempts crypto http rsa json enc t.credentials) w t e h
