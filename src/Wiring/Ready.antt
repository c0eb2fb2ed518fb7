-- ===== src/Wiring/Ready.antt =====
-- The transports of kasa/connect.go over a network whose device serves them.
use kasa_exporter.Base.Text.{Text}
use kasa_exporter.Base.{
  ◌+◌, ◌≤◌, ◌<◌, ◌≡◌, sym, subst, ◌⊎◌, inl, inr, true, false, length, ltb, Bool-cases,
  if◌then◌else◌, arith,
}
use kasa_exporter.Wiring.{
  query_link, Backend, Link, xor_link, klap_link, aes_link, links, over_klap,
}
use kasa_exporter.Klap.Device.{device_http, KlapDevice, Stage}
use kasa_exporter.Xor.{xor_max_payload, xor_port, Peer}
use kasa_exporter.Klap.Wire.{IsSound}
use kasa_exporter.Xor.Cipher.{IsBytes}
use kasa_exporter.Xor.Framing.{query_answered, query_refused, device_answer}
use kasa_exporter.Transport.Ideal.{Serves}
use kasa_exporter.Klap.{klap_auth_hash, max_response_bytes, KlapTransport}
use kasa_exporter.Errors.{Result, ok, err, request_too_long}
use kasa_exporter.Klap.Query.{klap_query}
use kasa_exporter.Klap.Dialogue.{InSync}
use kasa_exporter.Klap.Queries.{Takes, Answered, query_answers, synced_answers}

-- A device that has an answer to every request.
abbrev pub answers_of : (Text → Text) → Text → Result Text
answers_of respond body = ok (respond body)

module _ {K F : Type 0} (b : Backend Stage K F) (sound : IsSound b.crypto) (takes : Takes b.crypto)
    (device : KlapDevice) (entropy : Text) where
  -- A transport that has still to shake hands has the credentials of the device; another one has its
  -- session.
  abbrev Prepared : Stage → KlapTransport → Type 0
  Prepared stage t =
      ((t.established ≡ false)
        × (klap_auth_hash b.crypto t.credentials t.login_version ≡ device.auth_hash))
      ⊎ InSync b.crypto sound device entropy t stage

  -- The base URL leads to the device.
  abbrev pub KlapReady : Stage × Link → Type 0
  KlapReady (stage, xor_link t) = ⊥
  KlapReady (stage, aes_link url timeout t) = ⊥
  KlapReady (stage, klap_link url timeout t) =
      (b.http url timeout ≡ device_http b.crypto device entropy) × Prepared stage t

  Prepared-answers :
      (t : KlapTransport) (stage : Stage) (request : Text)
      → length device.seed ≡ 16
      → length (device.respond request) + 48 ≤ max_response_bytes
      → Prepared stage t
      → Answered b.crypto sound takes device entropy request
          (klap_query b.crypto (device_http b.crypto device entropy) stage t request)
  Prepared-answers t stage request seeded small (inl (none_yet, same)) =
      query_answers b.crypto sound takes device entropy t stage request same seeded small
        (inl none_yet)
  Prepared-answers t stage request seeded small (inr i) =
      synced_answers b.crypto sound takes device entropy t stage request i small

  pub klap-Serves :
      length device.seed ≡ 16
      → ((request : Text) → length (device.respond request) + 48 ≤ max_response_bytes)
      → Serves (links b) KlapReady (λ body. Unit) (answers_of device.respond)
  unfolding query_link
  klap-Serves seeded small (stage, xor_link t) body ready fits = absurd ready
  klap-Serves seeded small (stage, aes_link url timeout t) body ready fits = absurd ready
  klap-Serves seeded small (stage, klap_link url timeout t) body (at, ready) fits =
      let (answer, synced) = Prepared-answers t stage body seeded (small body) ready in
      subst
        (λ http.
          ((over_klap b url timeout (klap_query b.crypto http stage t body)).0
            ≡ ok (device.respond body))
          × KlapReady (over_klap b url timeout (klap_query b.crypto http stage t body)).1)
        (sym at) (answer, (at, inr synced))

-- Every exchange reaches the device, which takes frames and answers in frames.
pub record IsReached (device : Peer) (host : Text) (reply : Text → Text) : Type 0 where
  pub dials : device.dials host xor_port ≡ true
  pub sets_deadline : device.sets_deadline ≡ true
  pub takes_write : device.takes_write ≡ true
  pub answers : (stream : Text) → device.answer stream ≡ device_answer reply stream

-- A device that answers what fits in a frame; what does not is refused before it is sent.
abbrev pub framed : (Text → Text) → Text → Result Text
framed reply body =
    if ltb xor_max_payload (length body)
    then err (request_too_long (length body))
    else ok (reply body)

-- Bytes that fit in a frame.
abbrev pub IsFrameable : Text → Type 0
IsFrameable s = IsBytes s × (length s ≤ xor_max_payload)

module _ {W K F : Type 0} (b : Backend W K F) (host : Text) (reply : Text → Text)
    (reached : (w : W) → IsReached (b.exchange w).0 host reply) where
  abbrev pub XorReady : W × Link → Type 0
  XorReady (w, xor_link t) = t ≡ record { host = host; port = 0 }
  XorReady (w, klap_link url timeout t) = ⊥
  XorReady (w, aes_link url timeout t) = ⊥

  pub xor-Serves :
      ((request : Text) → IsFrameable (reply request) × (0 < length (reply request)))
      → Serves (links b) XorReady IsBytes (framed reply)
  unfolding query_link
  xor-Serves answers (w, klap_link url timeout t) body ready fits = absurd ready
  xor-Serves answers (w, aes_link url timeout t) body ready fits = absurd ready
  xor-Serves answers (w, xor_link t) body ready bytes =
      let r = reached w in
      (
        subst (λ t'. kasa_exporter.Xor.query t' (b.exchange w).0 body ≡ framed reply body)
            (sym ready)
            (elim (Bool-cases (ltb xor_max_payload (length body))) [
              | inl long ↦
                  rw long
                    (query_refused (record { host = host; port = 0 }) (b.exchange w).0 body long)
              | inr short ↦ rw short (
                  query_answered (record { host = host; port = 0 }) (b.exchange w).0 reply body
                    r.dials r.sets_deadline r.takes_write r.answers bytes (ground (arith, short))
                    (answers body).0.0 (answers body).1 (answers body).0.1)
            ]),
        ready,
      )
