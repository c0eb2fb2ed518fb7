-- ===== src/Aes/Posts.antt =====
-- What a query of kasa/aes.go costs in posts.
use mathlib.Core.Option
use kasa_exporter.Base.{
  ℕ, zero, suc, ◌+◌, ◌*◌, ◌≤◌, inl, inr, true, false, List, [], ◌∷◌, arith, Option-cases, length,
  take, drop,
}
use kasa_exporter.Base.Text.{Text}
use kasa_exporter.Errors.{Result, ok, err}
use kasa_exporter.Klap.{Crypto, Http}
use kasa_exporter.Klap.Session.{counting}
use kasa_exporter.Aes.{AesTransport, AesJson, Encoding, Rsa, LoginParams, aes_post, passthrough}
use kasa_exporter.Aes.Query.{
  login_sent, logged_in, login_loop, login, connect, connected, shaken, keyed, or_renewed,
  after_connect, aes_loop, aes_query, secret_of, offered, login_attempts,
}

-- A source of keys beside a count.
abbrev pub beside : {W K : Type 0} → Rsa W K → Rsa (W × ℕ) K
beside rsa = record {
  generate = λ (w, n). Option.map (λ p. (p.0, (p.1, n))) (rsa.generate w);
  public_pem = rsa.public_pem;
  decrypt_pkcs1v15 = rsa.decrypt_pkcs1v15;
}

module _ {W K : Type 0} (crypto : Crypto) (http : Http W) (rsa : Rsa W K) (json : AesJson)
    (enc : Encoding) where
  passthrough_posts :
      (w : W × ℕ) (t : AesTransport) (request : Text)
      → (passthrough crypto (counting http) (beside rsa) json enc w t request).2.1 ≤ w.1 + 1
  unfolding passthrough aes_post
  passthrough_posts w t request = ground arith

  logged_in_posts :
      (n : ℕ) (x : Result Text × AesTransport × (W × ℕ))
      (rest : AesTransport → W × ℕ → Result (Unit {0}) × AesTransport × (W × ℕ))
      → ((t : AesTransport) (w : W × ℕ) → (rest t w).2.1 ≤ w.1 + n)
      → (logged_in crypto (counting http) (beside rsa) json enc x rest).2.1 ≤ x.2.1 + n
  logged_in_posts n (r, t, w) rest bound = let later = bound t w in ground arith

  login_sent_posts :
      (n : ℕ) (w : W × ℕ) (t : AesTransport) (r : Result Text)
      (rest : AesTransport → W × ℕ → Result (Unit {0}) × AesTransport × (W × ℕ))
      → ((t : AesTransport) (w : W × ℕ) → (rest t w).2.1 ≤ w.1 + n)
      → (login_sent crypto (counting http) (beside rsa) json enc w t r rest).2.1 ≤ w.1 + (n + 1)
  login_sent_posts n w t (err e) rest bound = omega arith
  login_sent_posts n w t (ok request) rest bound =
      let reply = passthrough crypto (counting http) (beside rsa) json enc w t request in
      let one = passthrough_posts w t request in
      let more = logged_in_posts n reply rest bound in omega arith

  login_loop_posts :
      (attempts : List LoginParams) (w : W × ℕ) (t : AesTransport)
      → (login_loop crypto (counting http) (beside rsa) json enc attempts w t).2.1
        ≤ w.1 + length attempts
  unfolding login_loop
  login_loop_posts [] w t = omega arith
  login_loop_posts (params ∷ attempts) w t =
      let bound =
        login_sent_posts (length attempts) w t (json.login params)
          (λ t' w'. login_loop crypto (counting http) (beside rsa) json enc attempts w' t')
          (λ t' w'. login_loop_posts attempts w' t') in
      omega arith

  keyed_posts :
      (w : W × ℕ) (t : AesTransport) (secret : Result Text)
      → (keyed crypto (counting http) (beside rsa) json enc w t secret).2.1 ≤ w.1 + 2
  unfolding login
  keyed_posts w t (err e) = omega arith
  keyed_posts w t (ok secret) =
      login_loop_posts (login_attempts crypto (counting http) (beside rsa) json enc t.credentials) w
        (record t { key = take 16 secret; iv = drop 16 secret; established = true })

  post_posts :
      (w : W × ℕ) (t : AesTransport) (query body : Text)
      → (aes_post crypto (counting http) (beside rsa) json enc w t query body).2.1 ≤ w.1 + 1
  unfolding aes_post
  post_posts w t query body = omega arith

  shaken_posts :
      (w : W × ℕ) (t : AesTransport) (key : K) (body : Result Text)
      → (shaken crypto (counting http) (beside rsa) json enc w t key body).2.1 ≤ w.1 + 3
  shaken_posts w t key (err e) = omega arith
  shaken_posts w t key (ok body) =
      let (r, t', w') = aes_post crypto (counting http) (beside rsa) json enc w t [] body in
      let one = post_posts w t [] body in
      let two = keyed_posts w' t' (secret_of crypto (counting http) (beside rsa) json enc key r) in
      omega arith

  connect_posts :
      (w : W × ℕ) (t : AesTransport)
      → (connect crypto (counting http) (beside rsa) json enc w t).2.1 ≤ w.1 + 3
  unfolding connect
  connect_posts (w, n) t =
      let fresh = record t { token = []; session_id = [] } in
      elim (Option-cases (rsa.generate w)) [
        | inl none_made ↦ rw none_made (omega arith)
        | inr (made, e) ↦ rw e (
            shaken_posts (made.1, n) fresh made.0
              (offered crypto (counting http) (beside rsa) json enc made.0))
      ]

  connected_posts :
      (w : W × ℕ) (t : AesTransport)
      → (connected crypto (counting http) (beside rsa) json enc w t).2.1 ≤ w.1 + 3
  connected_posts w t = let bound = connect_posts w t in ground arith

  or_renewed_posts :
      (n : ℕ) (x : Result Text × AesTransport × (W × ℕ))
      (again : AesTransport → W × ℕ → Result Text × AesTransport × (W × ℕ))
      → ((t : AesTransport) (w : W × ℕ) → (again t w).2.1 ≤ w.1 + n)
      → (or_renewed crypto (counting http) (beside rsa) json enc x again).2.1 ≤ x.2.1 + n
  or_renewed_posts n (ok plain, t, w) again bound = omega arith
  or_renewed_posts n (err e, t, w) again bound =
      let later = bound (record t { established = false }) w in ground arith

  after_connect_posts :
      (n : ℕ) (request : Text) (x : Result (Unit {0}) × AesTransport × (W × ℕ))
      (again : AesTransport → W × ℕ → Result Text × AesTransport × (W × ℕ))
      → ((t : AesTransport) (w : W × ℕ) → (again t w).2.1 ≤ w.1 + n)
      → (after_connect crypto (counting http) (beside rsa) json enc request x again).2.1
        ≤ x.2.1 + (n + 1)
  after_connect_posts n request (err e, t, w) again bound = omega arith
  after_connect_posts n request (ok _, t, w) again bound =
      let one = passthrough_posts w t request in
      let more =
        or_renewed_posts n (passthrough crypto (counting http) (beside rsa) json enc w t request)
          again bound in
      omega arith

  aes_loop_posts :
      (k : ℕ) (w : W × ℕ) (t : AesTransport) (request : Text)
      → (aes_loop crypto (counting http) (beside rsa) json enc k w t request).2.1 ≤ w.1 + 4 * k
  unfolding aes_loop
  aes_loop_posts zero w t request = omega arith
  aes_loop_posts (suc k) w t request =
      let first = connected crypto (counting http) (beside rsa) json enc w t in
      let three = connected_posts w t in
      let more =
        after_connect_posts (4 * k) request first
          (λ t' w'. aes_loop crypto (counting http) (beside rsa) json enc k w' t' request)
          (λ t' w'. aes_loop_posts k w' t' request) in
      omega arith

  -- A query makes at most eight posts, whatever the device answers: two attempts, each with at most one
  -- for the key, two for the logins and one for the request.
  pub aes_query_posts :
      (w : W × ℕ) (t : AesTransport) (request : Text)
      → (aes_query crypto (counting http) (beside rsa) json enc w t request).2.1 ≤ w.1 + 8
  unfolding aes_query
  aes_query_posts w t request = aes_loop_posts 2 w t request
