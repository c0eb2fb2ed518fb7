-- ===== src/Xor/Framing.antt =====
-- One query of kasa/xor.go, from end to end: against a device that follows the protocol, and the
-- bounds against one that does not.
use kasa_exporter.Base.{
  take_all, drop_all, take-append, drop-append, ℕ, ◌^◌, ◌≤◌, ◌<◌, ◌≡◌, refl, sym, ap, ◌∙◌, inl, inr,
  true, some, [], ◌++◌, arith, ltb, leb, ◌==◌, Bool-cases, length, take, drop, length-append,
  length-take,
}
use kasa_exporter.Base.Text.{Text}
use kasa_exporter.Errors.{
  err, request_too_long, ok, >>=-eq-ok, reject_if, or_error, reading_length, reading_response,
  empty_response, declares_too_long,
}
use kasa_exporter.Xor.{
  xor_max_payload, xor_encrypt, xor_decrypt, put_u32, get_u32, XorTransport, Peer, read_full,
  dial_port, frame, receive, query,
}
use kasa_exporter.Xor.Cipher.{IsBytes, cipher_bijective, length-xor_encrypt, length-xor_decrypt}

pub get_u32-put_u32 : (n : ℕ) → n < 2 ^ 32 → get_u32 (put_u32 n) ≡ n
unfolding get_u32 put_u32
get_u32-put_u32 n h = omega arith

-- The firmware's side of an exchange, as the protocol describes it: it reads the length, decrypts
-- that many bytes, and answers with a frame of its own.
abbrev pub device_answer : (Text → Text) → Text → Text
device_answer reply stream =
    frame (reply (xor_decrypt (take (get_u32 (take 4 stream)) (drop 4 stream))))

split_frame :
    (s : Text) → (take 4 (frame s) ≡ put_u32 (length s)) × (drop 4 (frame s) ≡ xor_encrypt s)
unfolding frame put_u32
split_frame s = (refl, refl)

read_all : (xs : Text) → read_full (length xs) xs ≡ some (xs, [])
unfolding read_full
read_all xs =
    rw (take_all (length xs) xs (omega arith), drop_all (length xs) xs (omega arith)) (ground arith)

read_full-append : (xs ys : Text) → read_full (length xs) (xs ++ ys) ≡ some (xs, ys)
unfolding read_full
read_full-append xs ys =
    rw (take-append xs ys, drop-append xs ys) (ground (arith, length-append xs ys))

read_header : (n : ℕ) (rest : Text) → read_full 4 (put_u32 n ++ rest) ≡ some (put_u32 n, rest)
unfolding put_u32
read_header n rest = read_full-append (put_u32 n) rest

-- What the device reads out of a frame is the request that was framed.
deframed :
    (s : Text)
    → IsBytes s
    → length s < 2 ^ 32
    → xor_decrypt (take (get_u32 (take 4 (frame s))) (drop 4 (frame s))) ≡ s
deframed s h fits =
    rw
      (
        (split_frame s).0,
        (split_frame s).1,
        get_u32-put_u32 (length s) fits,
        take_all (length s) (xor_encrypt s) (omega (arith, length-xor_encrypt s)),
      )
      (cipher_bijective s h).0

-- A stream that declares `n` bytes and holds them is answered by their decryption.
receive_declared :
    (n : ℕ) (body : Text)
    → n ≡ length body
    → 0 < n
    → n ≤ xor_max_payload
    → receive (put_u32 n ++ body) ≡ ok (xor_decrypt body)
unfolding receive
receive_declared n body same some_bytes fits =
    let whole : read_full n body ≡ some (body, []) = rw same (read_all body) in
    rw read_header (rw (get_u32-put_u32 n (omega arith)) (ground (arith, whole)))

pub receive-frame :
    (s : Text) → IsBytes s → 0 < length s → length s ≤ xor_max_payload → receive (frame s) ≡ ok s
unfolding frame
receive-frame s h pos fits =
    receive_declared (length s) (xor_encrypt s) (sym (length-xor_encrypt s)) pos fits
    ∙ ap ok (cipher_bijective s h).0

-- Against a reachable device that reads frames and answers in frames, as `device_answer` does, a
-- query of at most `xor_max_payload` bytes returns the device's reply, where that reply is not
-- empty and within the same limit: framing, both ciphers and the length checks are consistent.
pub query_answered :
    (t : XorTransport) (peer : Peer) (reply : Text → Text) (request : Text)
    → peer.dials t.host (dial_port t) ≡ true
    → peer.sets_deadline ≡ true
    → peer.takes_write ≡ true
    → ((stream : Text) → peer.answer stream ≡ device_answer reply stream)
    → IsBytes request
    → length request ≤ xor_max_payload
    → IsBytes (reply request)
    → 0 < length (reply request)
    → length (reply request) ≤ xor_max_payload
    → query t peer request ≡ ok (reply request)
unfolding query
query_answered t peer reply request dials deadline writes serves bytes fits bytes' pos fits' =
    let answered : receive (peer.answer (frame request)) ≡ ok (reply request) =
      rw (serves (frame request), deframed request bytes (omega arith))
        (receive-frame (reply request) bytes' pos fits') in
    ground (arith, answered)

-- A request above the limit is refused, whatever the network would do.
pub query_refused :
    (t : XorTransport) (peer : Peer) (request : Text)
    → ltb xor_max_payload (length request) ≡ true
    → query t peer request ≡ err (request_too_long (length request))
unfolding query
query_refused t peer request long = rw long refl

length-read_full :
    (n : ℕ) (s : Text) (got : Text × Text) → read_full n s ≡ some got → length got.0 ≡ n
unfolding read_full
length-read_full n s got h = elim (Bool-cases (leb n (length s))) [
  | inl enough ↦ ground (arith, length-take n s)
  | inr short ↦ ground arith
]

receive_bounded :
    (stream body : Text)
    → receive stream ≡ ok body
    → (0 < length body) × (length body ≤ xor_max_payload)
unfolding receive read_full
receive_bounded stream body h =
    let ((header, rest), e1, h1) = >>=-eq-ok (or_error (read_full 4 stream) reading_length) _ h in
    let (_, nonempty, h2) = >>=-eq-ok (reject_if (get_u32 header == 0) empty_response) _ h1 in
    let (_, fits, h3) =
      >>=-eq-ok
        (reject_if (ltb xor_max_payload (get_u32 header)) (declares_too_long (get_u32 header))) _
        h2 in
    let (got, e4, h4) =
      >>=-eq-ok (or_error (read_full (get_u32 header) rest) reading_response) _ h3 in
    ground (arith, length-read_full (get_u32 header) rest got, length-xor_decrypt got.0)

-- Whatever the network does, a query that succeeds returns at least one byte and at most
-- `xor_max_payload`, and its request was no longer than that.
pub query_bounded :
    (t : XorTransport) (peer : Peer) (request body : Text)
    → query t peer request ≡ ok body
    → (0 < length body) × (length body ≤ xor_max_payload) × (length request ≤ xor_max_payload)
unfolding query
query_bounded t peer request body h =
    ground (arith, receive_bounded (peer.answer (frame request)) body)
