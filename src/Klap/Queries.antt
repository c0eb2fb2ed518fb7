-- ===== src/Klap/Queries.antt =====
-- Queries of kasa/klap.go against a device that keeps to the protocol, from the handshake on.
use kasa_exporter.Base.{
  if◌then◌else◌, inl, inr, false, ◌⊎◌, ◌⊎◌, false, ap, sym, subst, arith, ◌∙◌, ℕ, ◌+◌, ◌%◌, ◌≤◌,
  ◌≡◌, refl, true, [], length,
}
use kasa_exporter.Base.Text.{Text, ◌==ₜ◌, ==ₜ_refl}
use kasa_exporter.Errors.{err, Result, ok}
use kasa_exporter.Klap.{
  klap_auth_hash, Http, Crypto, KlapTransport, klap_encrypt, klap_decrypt, max_response_bytes,
  seq_mod,
}
use kasa_exporter.Klap.Query.{
  handshake, forbidden, query_loop, ready, after_ready, query_loop, or_again, klap_query,
  send_request, settled, judged, judged, posted, Attempt, klap_post, request_path,
}
use kasa_exporter.Klap.Wire.{length-klap_encrypt, same_encrypt, encrypted, decrypt-encrypt, IsSound}
use kasa_exporter.Klap.Device.{Stage, device_http, KlapDevice, in_session}
use kasa_exporter.Klap.Dialogue.{handshake_agrees, Shaken, InSync, limited_small}

-- What is documented of aes.NewCipher: it takes every key of 16 bytes.
abbrev pub Takes : Crypto → Type 0
Takes crypto = (key : Text) → length key ≡ 16 → crypto.new_cipher key ≡ true

module _ (crypto : Crypto) (sound : IsSound crypto) (takes : Takes crypto) (device : KlapDevice)
    (entropy : Text) where
  -- The answer of the device to a request that it can decrypt.
  device_answers :
      (session t : KlapTransport) (request body reply : Text)
      → t.session_id ≡ device.cookie
      → length reply ≤ max_response_bytes
      → klap_decrypt crypto session body ((session.seq + 1) % seq_mod) ≡ ok request
      → klap_encrypt crypto session (device.respond request) ((session.seq + 1) % seq_mod)
        ≡ ok reply
      → klap_post crypto
          (device_http crypto device entropy)
          (in_session session)
          t
          (request_path ((session.seq + 1) % seq_mod))
          body
        ≡ (ok (200, reply, []), in_session (record session { seq = (session.seq + 1) % seq_mod }))
  unfolding klap_post ◌==ₜ◌
  device_answers session t request body reply cookie small opens seals =
      let seq = (session.seq + 1) % seq_mod in
      rw
        (
          cookie,
          ==ₜ_refl device.cookie,
          ==ₜ_refl (request_path seq),
          opens,
          seals,
          limited_small 200 reply [] small,
        )
        refl

  abbrev http : Http Stage
  http = device_http crypto device entropy

  -- The attempt gave the answer of the device to the request, and one session is left with both.
  abbrev Answers : Text → Attempt × KlapTransport × Stage → Type 0
  Answers request x =
      (x.0 ≡ settled (ok (device.respond request))) × InSync crypto sound device entropy x.1 x.2

  -- One number for a request, as the device and the client count.
  abbrev next_seq : KlapTransport → ℕ
  next_seq t = (t.seq + 1) % seq_mod

  -- The keys of two sessions are the same.
  record SameKeys (t s : KlapTransport) : Type 0 where
    enc_key : t.enc_key ≡ s.enc_key
    sig_key : t.sig_key ≡ s.sig_key
    iv : t.iv ≡ s.iv

  same_decrypt :
      (t s : KlapTransport) (payload body : Text) (seq : ℕ)
      → SameKeys t s
      → klap_encrypt crypto s payload seq ≡ ok body
      → klap_decrypt crypto t body seq ≡ ok payload
  same_decrypt t s payload body seq k e =
      decrypt-encrypt crypto sound t payload body seq
        (same_encrypt crypto t s payload seq k.enc_key k.sig_key k.iv ∙ e)

  posted-Answers :
      (t s : KlapTransport) (request body : Text)
      → SameKeys t s
      → t.established ≡ true
      → t.session_id ≡ device.cookie
      → t.seq ≡ next_seq s
      → length s.enc_key ≡ 16
      → length (device.respond request) + 48 ≤ max_response_bytes
      → klap_encrypt crypto s request (next_seq s) ≡ ok body
      → Answers request (posted crypto http (in_session s) t (next_seq s) (ok body))
  posted-Answers t s request body k established cookie seq whole small sealed =
      let (reply, answered) =
        encrypted crypto s (device.respond request) (next_seq s) (takes s.enc_key whole) in
      let short =
        length-klap_encrypt crypto sound s (device.respond request) reply (next_seq s) answered in
      let got =
        device_answers s t request body reply cookie (omega arith)
          (decrypt-encrypt crypto sound s request body (next_seq s) sealed) answered in
      subst (λ x. Answers request (judged crypto http t (next_seq s) x.0, t, x.1)) (sym got)
        (
          ap settled (same_decrypt t s (device.respond request) reply (next_seq s) k answered),
          record {
            session = record s { seq = next_seq s };
            at = refl;
            established = established;
            cookie = cookie;
            enc_key = k.enc_key;
            sig_key = k.sig_key;
            iv = k.iv;
            seq = seq;
            whole_key = whole;
          },
        )

  -- An attempt under a session that is shared is answered.
  send-Answers :
      (t : KlapTransport) (stage : Stage) (request : Text)
      → InSync crypto sound device entropy t stage
      → length (device.respond request) + 48 ≤ max_response_bytes
      → Answers request (send_request crypto http stage t request)
  unfolding send_request
  send-Answers t stage request i small =
      let s = i.session in
      let t1 = record t { seq = next_seq s } in
      let (body, sealed) = encrypted crypto s request (next_seq s) (takes s.enc_key i.whole_key) in
      let k : SameKeys t1 s = record { enc_key = i.enc_key; sig_key = i.sig_key; iv = i.iv } in
      let done =
        posted-Answers t1 s request body k i.established i.cookie refl i.whole_key small sealed in
      let own = same_encrypt crypto t1 s request (next_seq s) i.enc_key i.sig_key i.iv ∙ sealed in
      subst (λ st. Answers request (send_request crypto http st t request)) (sym i.at)
        (subst
          (λ n. Answers request (
            posted crypto http (in_session s) (record t { seq = (n + 1) % seq_mod })
              ((n + 1) % seq_mod)
              (klap_encrypt crypto (record t { seq = (n + 1) % seq_mod }) request
                ((n + 1) % seq_mod))))
          (sym i.seq)
          (subst (λ r. Answers request (posted crypto http (in_session s) t1 (next_seq s) r))
            (sym own) done))

  -- A client that may still have to shake hands: it has no session, or the one of the device.
  abbrev pub Ready : KlapTransport → Stage → Type 0
  Ready t stage = (t.established ≡ false) ⊎ InSync crypto sound device entropy t stage

  -- A query was answered as the device answers, and left one session with the client and the device.
  abbrev pub Answered : Text → Result Text × KlapTransport × Stage → Type 0
  Answered request x =
      (x.0 ≡ ok (device.respond request)) × InSync crypto sound device entropy x.1 x.2

  settled-Answers :
      (request : Text) (x : Attempt × KlapTransport × Stage)
      (again : KlapTransport → Stage → Result Text × KlapTransport × Stage)
      → Answers request x
      → Answered request (or_again crypto http again x)
  settled-Answers request (settled r, t, stage) again (e, i) = (ground (arith, e), i)
  settled-Answers request (forbidden, t, stage) again (e, i) = absurd (cc e)

  after_ready-Answers :
      (request : Text) (x : Result (Unit {0}) × KlapTransport × Stage)
      → Shaken crypto sound device entropy x
      → length (device.respond request) + 48 ≤ max_response_bytes
      → Answers request (after_ready crypto http request x)
  after_ready-Answers request (err e, t, stage) (h, i) small = absurd (cc h)
  after_ready-Answers request (ok _, t, stage) (h, i) small = send-Answers t stage request i small

  synced-Shaken :
      (t : KlapTransport) (stage : Stage)
      → InSync crypto sound device entropy t stage
      → Shaken crypto sound device entropy (ready crypto http stage t)
  synced-Shaken t stage i =
      subst
        (λ b.
          Shaken crypto sound device entropy
            (if b then (ok tt, t, stage) else handshake crypto http stage t))
        (sym i.established) (refl, i)

  ready-Shaken :
      (t : KlapTransport) (stage : Stage)
      → klap_auth_hash crypto t.credentials t.login_version ≡ device.auth_hash
      → length device.seed ≡ 16
      → Ready t stage
      → Shaken crypto sound device entropy (ready crypto http stage t)
  ready-Shaken t stage same seeded (inl none_yet) =
      subst
        (λ b.
          Shaken crypto sound device entropy
            (if b then (ok tt, t, stage) else handshake crypto http stage t))
        (sym none_yet) (handshake_agrees crypto sound device entropy t stage same seeded)
  ready-Shaken t stage same seeded (inr i) = synced-Shaken t stage i

  -- A query of a client that is ready is answered.
  Shaken-answers :
      (t : KlapTransport) (stage : Stage) (request : Text)
      → Shaken crypto sound device entropy (ready crypto http stage t)
      → length (device.respond request) + 48 ≤ max_response_bytes
      → Answered request (klap_query crypto http stage t request)
  unfolding klap_query query_loop
  Shaken-answers t stage request shaken small =
      settled-Answers request (after_ready crypto http request (ready crypto http stage t))
        (λ t' stage'. query_loop crypto http 1 stage' t' request)
        (after_ready-Answers request (ready crypto http stage t) shaken small)

  -- A query under the session of the device is answered.
  pub synced_answers :
      (t : KlapTransport) (stage : Stage) (request : Text)
      → InSync crypto sound device entropy t stage
      → length (device.respond request) + 48 ≤ max_response_bytes
      → Answered request (klap_query crypto http stage t request)
  synced_answers t stage request i small =
      Shaken-answers t stage request (synced-Shaken t stage i) small

  -- Against a device that has the client's credentials and keeps to the protocol, a query gives the
  -- device's answer to the request, whatever the request, if the answer fits in the limit on a body; it
  -- does so from a client without a session, whatever the device did before, and from one that has the
  -- device's session; and afterwards both have one session again, with one sequence number.
  pub query_answers :
      (t : KlapTransport) (stage : Stage) (request : Text)
      → klap_auth_hash crypto t.credentials t.login_version ≡ device.auth_hash
      → length device.seed ≡ 16
      → length (device.respond request) + 48 ≤ max_response_bytes
      → Ready t stage
      → Answered request (klap_query crypto http stage t request)
  query_answers t stage request same seeded small at_hand =
      Shaken-answers t stage request (ready-Shaken t stage same seeded at_hand) small
