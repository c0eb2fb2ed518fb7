-- ===== src/Klap/Device.antt =====
-- A device that keeps to the protocol of kasa/klap.go, as an HTTP client that answers for it: it checks
-- the session cookie, the proof of the credentials and the sequence number, and refuses all else with 403.
use kasa_exporter.Base.{◌+◌, ◌%◌, false, ◌&&◌, some, [], ◌∷◌, ◌++◌, if◌then◌else◌}
use kasa_exporter.Base.Text.{Text, ◌==ₜ◌}
use kasa_exporter.Base.Int.{pos}
use kasa_exporter.Errors.{Result, ok, err, ◌>>=◌}
use kasa_exporter.Klap.{
  Crypto, Http, HttpOutcome, response, KlapTransport, klap_derive_session, klap_encrypt,
  klap_decrypt, session_cookie, seq_mod,
}
use kasa_exporter.Klap.Query.{handshake1_path, handshake2_path, request_path}

-- How far the device is: after the first post it has a seed of the client, after the second a session.
pub data Stage : Type 0 where
  idle : Stage
  challenged : (local_seed : Text) → Stage
  in_session : KlapTransport → Stage

-- What it knows: the hash of its credentials, its seed and cookie, and what it answers to a request.
pub record KlapDevice : Type 0 where
  pub auth_hash : Text
  pub seed : Text
  pub cookie : Text
  pub respond : Text → Text

-- A session without keys.
abbrev pub blank_session : KlapTransport
blank_session = record {
  credentials = record { username = []; password = [] };
  login_version = pos 0;
  session_id = [];
  enc_key = [];
  sig_key = [];
  iv = [];
  seq = 0;
  established = false;
}

module _ (crypto : Crypto) (device : KlapDevice) where
  abbrev pub refuses : HttpOutcome × Stage
  refuses = (response 403 [] [], idle)

  abbrev pub device_session : Text → KlapTransport
  device_session local_seed =
      klap_derive_session crypto blank_session local_seed device.seed device.auth_hash

  abbrev pub on_handshake1 : Text → HttpOutcome × Stage
  on_handshake1 local_seed = (
    response 200 (device.seed ++ crypto.sha256 (local_seed ++ (device.seed ++ device.auth_hash)))
        ((session_cookie, device.cookie) ∷ []),
    challenged local_seed,
  )

  abbrev pub on_handshake2 : Stage → (session body : Text) → HttpOutcome × Stage
  on_handshake2 idle session body = refuses
  on_handshake2 (in_session t) session body = refuses
  on_handshake2 (challenged local_seed) session body =
      if session ==ₜ device.cookie
        && body ==ₜ crypto.sha256 (device.seed ++ (local_seed ++ device.auth_hash))
      then (response 200 [] [], in_session (device_session local_seed))
      else refuses

  abbrev pub sends : KlapTransport → Result Text → HttpOutcome × Stage
  sends t (err e) = refuses
  sends t (ok body) = (response 200 body [], in_session t)

  abbrev pub on_request : Stage → (path session body : Text) → HttpOutcome × Stage
  on_request idle path session body = refuses
  on_request (challenged local_seed) path session body = refuses
  on_request (in_session t) path session body =
      let seq = (t.seq + 1) % seq_mod in
      if session ==ₜ device.cookie && path ==ₜ request_path seq
      then sends (record t { seq = seq })
          (klap_decrypt crypto t body seq >>= λ request.
            klap_encrypt crypto t (device.respond request) seq)
      else refuses

  -- The device behind an HTTP client, with a source of random bytes that gives `entropy`.
  abbrev pub device_http : (entropy : Text) → Http Stage
  device_http entropy = record {
    post = λ stage path session body.
        if path ==ₜ handshake1_path
        then on_handshake1 body
        else if path ==ₜ handshake2_path
        then on_handshake2 stage session body
        else on_request stage path session body;
    random = λ stage. some (entropy, stage);
  }
