-- ===== src/Klap/Query.antt =====
-- The handshake and the queries of kasa/klap.go, over the HTTP client.
use kasa_exporter.Base.{
  ℕ, zero, suc, ◌+◌, ◌%◌, true, false, not, Option, none, some, [], ◌∷◌, ◌++◌, ◌==◌, if◌then◌else◌,
  length, take, drop,
}
use kasa_exporter.Base.Text.{Text, codes}
use kasa_exporter.Base.Decimal.{itoa_ℤ}
use kasa_exporter.Errors.{
  ◌>>=◌, ◌>>◌, Result, ok, err, reject_if, or_error, no_random, handshake1_status,
  handshake1_length, handshake2_status, request_status, klap_unauthorized, rejected_twice,
}
use kasa_exporter.Klap.{
  Crypto, Http, klap_seed_len, klap_handshake_len, klap_fallback_credentials, KlapTransport,
  seq_mod, klap_signed, klap_derive_session, klap_encrypt, klap_decrypt, matching_hash, limited,
}

abbrev pub handshake1_path : Text
handshake1_path = codes "/handshake1"

abbrev pub handshake2_path : Text
handshake2_path = codes "/handshake2"

abbrev pub reply_of : Result (ℕ × Text × Text) → Text
reply_of (err e) = []
reply_of (ok (status, reply, session)) = reply

abbrev pub cookie_of : Result (ℕ × Text × Text) → Text
cookie_of (err e) = []
cookie_of (ok (status, reply, session)) = session

abbrev pub accepted2 : Result (ℕ × Text × Text) → Result (Unit {0})
accepted2 (err e) = err e
accepted2 (ok (status, reply, session)) = reject_if (not (status == 200)) (handshake2_status status)

abbrev pub request_path : ℕ → Text
request_path seq = codes "/request?seq=" ++ itoa_ℤ (klap_signed seq)

-- What one attempt comes to: an outcome, or 403, which is tried again.
pub data Attempt : Type 0 where
  settled : Result Text → Attempt
  forbidden : Attempt

module _ {W : Type 0} (crypto : Crypto) (http : Http W) where
  -- `klapPost`: the status, the body and the session cookie.
  unfoldable pub klap_post : W → KlapTransport → (path body : Text) → Result (ℕ × Text × Text) × W
  unfolding limited
  klap_post w t path body =
      let (outcome, w') = http.post w path t.session_id body in (limited outcome, w')

  -- The checks on the answer to the first post, and the hash that is agreed on.
  unfoldable pub agree : KlapTransport → Text → Result (ℕ × Text × Text) → Result Text
  unfolding matching_hash
  agree t local_seed answer = do
    (status, reply, session) ← answer
    reject_if (not (status == 200)) (handshake1_status status)
    reject_if (not (length reply == klap_handshake_len)) (handshake1_length (length reply))
    or_error
        (matching_hash crypto t.login_version local_seed (take klap_seed_len reply)
          (drop klap_seed_len reply) (t.credentials ∷ klap_fallback_credentials))
        klap_unauthorized

  abbrev pub installed :
      KlapTransport
      → (local_seed remote_seed auth_hash : Text) → Result (Unit {0}) × W
      → Result (Unit {0}) × KlapTransport × W
  installed t local_seed remote_seed auth_hash (err e, w) = (err e, t, w)
  installed t local_seed remote_seed auth_hash (ok _, w) = (
    ok tt,
    record (klap_derive_session crypto t local_seed remote_seed auth_hash) { established = true },
    w,
  )

  -- The second post, once a hash is agreed on.
  abbrev pub second_post :
      W
      → KlapTransport
      → Text
      → Result (ℕ × Text × Text)
      → Result Text
      → Result (Unit {0}) × KlapTransport × W
  second_post w t local_seed first (err e) = (err e, t, w)
  second_post w t local_seed first (ok auth_hash) =
      let remote_seed = take klap_seed_len (reply_of first) in
      let t1 = record t { session_id = cookie_of first } in
      let (r, w') =
        klap_post w t1 handshake2_path (crypto.sha256 (remote_seed ++ (local_seed ++ auth_hash))) in
      installed t1 local_seed remote_seed auth_hash (accepted2 r, w')

  abbrev pub first_post :
      W → KlapTransport → Option (Text × W) → Result (Unit {0}) × KlapTransport × W
  first_post w t none = (err no_random, t, w)
  first_post w t (some (local_seed, w1)) =
      let t1 = record t { session_id = [] } in
      let (first, w2) = klap_post w1 t1 handshake1_path local_seed in
      second_post w2 t1 local_seed first (agree t1 local_seed first)

  -- `handshake`; `random` gives `klap_seed_len` bytes.
  unfoldable pub handshake : W → KlapTransport → Result (Unit {0}) × KlapTransport × W
  unfolding klap_post agree klap_derive_session
  handshake w t = first_post w t (http.random w)

  abbrev pub judged : KlapTransport → ℕ → Result (ℕ × Text × Text) → Attempt
  judged t seq (err e) = settled (err e)
  judged t seq (ok (status, reply, session)) =
      if status == 403
      then forbidden
      else if not (status == 200)
      then settled (err (request_status status))
      else settled (klap_decrypt crypto t reply seq)

  abbrev pub posted : W → KlapTransport → ℕ → Result Text → Attempt × KlapTransport × W
  posted w t seq (err e) = (settled (err e), t, w)
  posted w t seq (ok body) =
      let (r, w') = klap_post w t (request_path seq) body in (judged t seq r, t, w')

  -- The sequence number is advanced before the request is encrypted.
  unfoldable pub send_request : W → KlapTransport → Text → Attempt × KlapTransport × W
  unfolding klap_post klap_encrypt klap_decrypt
  send_request w t request =
      let seq = (t.seq + 1) % seq_mod in
      let t1 = record t { seq = seq } in posted w t1 seq (klap_encrypt crypto t1 request seq)

  abbrev pub ready : W → KlapTransport → Result (Unit {0}) × KlapTransport × W
  ready w t = if t.established then (ok tt, t, w) else handshake w t

  abbrev pub after_ready :
      Text → Result (Unit {0}) × KlapTransport × W → Attempt × KlapTransport × W
  after_ready request (err e, t, w) = (settled (err e), t, w)
  after_ready request (ok _, t, w) = send_request w t request

  -- The rest of an attempt of `Query`: on 403 the session is forgotten and `again` is what follows.
  abbrev pub or_again :
      (KlapTransport → W → Result Text × KlapTransport × W)
      → Attempt × KlapTransport × W
      → Result Text × KlapTransport × W
  or_again again (settled r, t, w) = (r, t, w)
  or_again again (forbidden, t, w) = again (record t { established = false }) w

  -- The loop of `Query`, with the attempts that are left.
  unfoldable pub query_loop : ℕ → W → KlapTransport → Text → Result Text × KlapTransport × W
  unfolding send_request handshake
  query_loop zero w t request = (err rejected_twice, t, w)
  query_loop (suc n) w t request =
      or_again (λ t' w'. query_loop n w' t' request) (after_ready request (ready w t))

  -- `Query`
  unfoldable pub klap_query : W → KlapTransport → Text → Result Text × KlapTransport × W
  unfolding query_loop
  klap_query w t request = query_loop 2 w t request

-- `Close`
abbrev pub klap_close : KlapTransport → KlapTransport
klap_close t = record t { established = false; session_id = [] }
