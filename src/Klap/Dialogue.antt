-- ===== src/Klap/Dialogue.antt =====
-- A query of kasa/klap.go against a device that keeps to the protocol.
use kasa_exporter.Base.{
  length-take, sym, subst, ℕ, ◌+◌, ◌≤◌, ◌≡◌, refl, true, [], ◌∷◌, ◌++◌, arith, length, take, drop,
  length-append, take_all, take-append, drop-append,
}
use kasa_exporter.Base.Text.{codes, Text, ◌==ₜ◌, ==ₜ_refl}
use kasa_exporter.Errors.{Result, ok}
use kasa_exporter.Klap.{
  klap_derive_session, matching_hash, Crypto, response, KlapTransport, klap_auth_hash, limited,
  max_response_bytes, session_of, session_cookie,
}
use kasa_exporter.Klap.Query.{
  accepted2, second_post, installed, handshake, agree, klap_post, handshake1_path, handshake2_path,
}
use kasa_exporter.Klap.Wire.{IsSound}
use kasa_exporter.Base.Dict.{Dict}
use kasa_exporter.Klap.Device.{device_session, in_session, challenged}
use kasa_exporter.Klap.Device.{device_http, Stage, KlapDevice}
use kasa_exporter.Klap.Device.{in_session, challenged}

pub limited_small :
    (status : ℕ) (body : Text) (cookies : Dict Text)
    → length body ≤ max_response_bytes
    → limited (response status body cookies) ≡ ok (status, body, session_of [] cookies)
unfolding limited
limited_small status body cookies h =
    let whole = take_all (max_response_bytes + 1) body (omega arith) in rw whole (ground arith)

response_fits : 48 ≤ max_response_bytes
unfolding max_response_bytes
response_fits = omega arith

module _ (crypto : Crypto) (sound : IsSound crypto) (device : KlapDevice) (entropy : Text) where
  -- The client has the session of the device.
  pub record InSync (t : KlapTransport) (stage : Stage) : Type 0 where
    pub session : KlapTransport
    pub at : stage ≡ in_session session
    pub established : t.established ≡ true
    pub cookie : t.session_id ≡ device.cookie
    pub enc_key : t.enc_key ≡ session.enc_key
    pub sig_key : t.sig_key ≡ session.sig_key
    pub iv : t.iv ≡ session.iv
    pub seq : t.seq ≡ session.seq
    pub whole_key : length session.enc_key ≡ 16

  -- The answer to the first post.
  abbrev challenge : Text
  challenge = device.seed ++ crypto.sha256 (entropy ++ (device.seed ++ device.auth_hash))

  length-challenge : length device.seed ≡ 16 → length challenge ≡ 48
  length-challenge seeded =
      let digest = crypto.sha256 (entropy ++ (device.seed ++ device.auth_hash)) in
      omega (
        arith,
        length-append device.seed digest,
        sound.digest_length (entropy ++ (device.seed ++ device.auth_hash)),
        seeded,
      )

  first_answer :
      (t : KlapTransport) (stage : Stage)
      → length device.seed ≡ 16
      → klap_post crypto (device_http crypto device entropy) stage t handshake1_path entropy
        ≡ (ok (200, challenge, device.cookie), challenged entropy)
  unfolding klap_post ◌==ₜ◌
  first_answer t stage seeded =
      let fits =
        limited_small 200 challenge ((session_cookie, device.cookie) ∷ [])
          (omega (arith, length-challenge seeded, response_fits)) in
      rw fits refl

  agreed :
      (t : KlapTransport)
      → klap_auth_hash crypto t.credentials t.login_version ≡ device.auth_hash
      → length device.seed ≡ 16
      → agree crypto
          (device_http crypto device entropy)
          t
          entropy
          (ok (200, challenge, device.cookie))
        ≡ ok device.auth_hash
  unfolding agree matching_hash
  agreed t same seeded =
      let digest = crypto.sha256 (entropy ++ (device.seed ++ device.auth_hash)) in
      let front : take 16 challenge ≡ device.seed =
        rw (← seeded) (take-append device.seed digest) in
      let back : drop 16 challenge ≡ digest = rw (← seeded) (drop-append device.seed digest) in
      rw (length-challenge seeded, front, back, same, ==ₜ_refl digest) refl

  second_answer :
      (t : KlapTransport)
      → t.session_id ≡ device.cookie
      → klap_post crypto
          (device_http crypto device entropy)
          (challenged entropy)
          t
          handshake2_path
          (crypto.sha256 (device.seed ++ (entropy ++ device.auth_hash)))
        ≡ (ok (200, [], []), in_session (device_session crypto device entropy))
  unfolding klap_post ◌==ₜ◌
  second_answer t cookie =
      let proof = crypto.sha256 (device.seed ++ (entropy ++ device.auth_hash)) in
      let fits = limited_small 200 [] [] (omega arith) in
      rw (cookie, ==ₜ_refl device.cookie, ==ₜ_refl proof, fits) refl

  -- It succeeded, and the client and the device have one session.
  abbrev pub Shaken : Result (Unit {0}) × KlapTransport × Stage → Type 0
  Shaken x = (x.0 ≡ ok tt) × InSync x.1 x.2

  -- The keys that the client derives, once the device took the second post.
  abbrev installs :
      KlapTransport
      → Text
      → Result (ℕ × Text × Text) × Stage
      → Result (Unit {0}) × KlapTransport × Stage
  installs t remote r =
      installed crypto (device_http crypto device entropy) t entropy remote device.auth_hash
        (accepted2 r.0, r.1)

  derived_key : (s : Text) → length (take 16 (crypto.sha256 s)) ≡ 16
  derived_key s = omega (arith, length-take 16 (crypto.sha256 s), sound.digest_length s)

  after_second :
      (t : KlapTransport) (r : Result (ℕ × Text × Text) × Stage)
      → t.session_id ≡ device.cookie
      → r ≡ (ok (200, [], []), in_session (device_session crypto device entropy))
      → Shaken (installs t device.seed r)
  unfolding klap_derive_session
  after_second t r cookie e =
      subst (λ x. Shaken (installs t device.seed x)) (sym e)
        (
          refl,
          record {
            session = device_session crypto device entropy;
            at = refl;
            established = refl;
            cookie = cookie;
            enc_key = refl;
            sig_key = refl;
            iv = refl;
            seq = refl;
            whole_key = derived_key (codes "lsk" ++ (entropy ++ (device.seed ++ device.auth_hash)));
          },
        )

  abbrev seconds :
      KlapTransport
      → Result (ℕ × Text × Text)
      → Result Text
      → Result (Unit {0}) × KlapTransport × Stage
  seconds t first hash =
      second_post crypto (device_http crypto device entropy) (challenged entropy) t entropy first
        hash

  after_first :
      (t : KlapTransport) (hash : Result Text)
      → length device.seed ≡ 16
      → hash ≡ ok device.auth_hash
      → Shaken (seconds t (ok (200, challenge, device.cookie)) hash)
  after_first t hash seeded e =
      let digest = crypto.sha256 (entropy ++ (device.seed ++ device.auth_hash)) in
      let front : take 16 challenge ≡ device.seed =
        rw (← seeded) (take-append device.seed digest) in
      let t1 = record t { session_id = device.cookie } in
      let proof = crypto.sha256 (device.seed ++ (entropy ++ device.auth_hash)) in
      subst (λ h. Shaken (seconds t (ok (200, challenge, device.cookie)) h)) (sym e)
        (subst
          (λ s. Shaken (
            installs t1 s (
              klap_post crypto (device_http crypto device entropy) (challenged entropy) t1
                handshake2_path (crypto.sha256 (s ++ (entropy ++ device.auth_hash))))))
          (sym front) (after_second t1 _ refl (second_answer t1 refl)))

  -- A handshake with the device succeeds, and leaves the client and the device with one session.
  pub handshake_agrees :
      (t : KlapTransport) (stage : Stage)
      → klap_auth_hash crypto t.credentials t.login_version ≡ device.auth_hash
      → length device.seed ≡ 16
      → Shaken (handshake crypto (device_http crypto device entropy) stage t)
  unfolding handshake
  handshake_agrees t stage same seeded =
      let t1 = record t { session_id = [] } in
      let http = device_http crypto device entropy in
      subst
        (λ x.
          Shaken (second_post crypto http x.1 t1 entropy x.0 (agree crypto http t1 entropy x.0)))
        (sym (first_answer t1 stage seeded))
        (after_first t1 (agree crypto http t1 entropy (ok (200, challenge, device.cookie))) seeded
          (agreed t1 same seeded))
