-- ===== src/Xor.antt =====
-- kasa/xor.go: the autokey cipher of the legacy protocol, and one query over TCP.
pub mod Cipher
pub mod Framing
pub mod Tests
use Prim.Native.Nat.{bit_xor}
use kasa_exporter.Base.{
  ℕ, ◌+◌, ◌*◌, ◌/◌, ◌%◌, ◌^◌, Bool, not, Option, none, some, [], ◌∷◌, ◌++◌, ltb, leb, ◌==◌,
  if◌then◌else◌, length, take, drop,
}
use kasa_exporter.Base.Text.{Text}
use kasa_exporter.Errors.{
  ◌>>=◌, ◌>>◌, Result, ok, reject_if, or_error, request_too_long, connecting, deadline_refused,
  sending, reading_length, empty_response, reading_response, declares_too_long,
}

abbrev pub xor_key : ℕ
xor_key = 0xab

abbrev pub xor_port : ℕ
xor_port = 9999

-- 1 << 20
abbrev pub xor_max_payload : ℕ
xor_max_payload = 1_048_576

-- The loop of `xorEncrypt`: `key` is the last byte of ciphertext.
pub encrypt_from : ℕ → Text → Text
encrypt_from key [] = []
encrypt_from key (b ∷ plain) = let c = bit_xor b key in c ∷ encrypt_from c plain

unfoldable pub xor_encrypt : Text → Text
unfolding encrypt_from
xor_encrypt plain = encrypt_from xor_key plain

pub decrypt_from : ℕ → Text → Text
decrypt_from key [] = []
decrypt_from key (c ∷ cipher) = bit_xor c key ∷ decrypt_from c cipher

unfoldable pub xor_decrypt : Text → Text
unfolding decrypt_from
xor_decrypt cipher = decrypt_from xor_key cipher

-- binary.BigEndian.PutUint32(frame, uint32(n))
unfoldable pub put_u32 : ℕ → Text
put_u32 n = (n / 2 ^ 24) % 256 ∷ (n / 2 ^ 16) % 256 ∷ (n / 2 ^ 8) % 256 ∷ n % 256 ∷ []

-- binary.BigEndian.Uint32: of the first four bytes (it panics on fewer, and is not called so).
unfoldable pub get_u32 : Text → ℕ
get_u32 (a ∷ b ∷ c ∷ d ∷ _) = ((a * 256 + b) * 256 + c) * 256 + d
get_u32 _ = 0

pub record XorTransport : Type 0 where
  pub host : Text
  pub port : ℕ

-- What the network does in one exchange: whether the dial, the deadline and the write succeed, and
-- the bytes that come back for the bytes that were written.
pub record Peer : Type 0 where
  pub dials : Text → ℕ → Bool
  pub sets_deadline : Bool
  pub takes_write : Bool
  pub answer : Text → Text

-- io.ReadFull of `n` bytes: the bytes and what is left of the stream, or an error at its end.
unfoldable pub read_full : ℕ → Text → Option (Text × Text)
read_full n stream = if leb n (length stream) then some (take n stream, drop n stream) else none

abbrev pub dial_port : XorTransport → ℕ
dial_port t = if t.port == 0 then xor_port else t.port

pub frame : Text → Text
unfolding xor_encrypt put_u32
frame request = put_u32 (length request) ++ xor_encrypt request

-- The reading half of `Query`.
pub receive : Text → Result Text
unfolding read_full get_u32 xor_decrypt
receive stream = do
  (header, rest) ← or_error (read_full 4 stream) reading_length
  let declared = get_u32 header
  reject_if (declared == 0) empty_response
  reject_if (ltb xor_max_payload declared) (declares_too_long declared)
  (body, _) ← or_error (read_full declared rest) reading_response
  ok (xor_decrypt body)

unfoldable pub query : XorTransport → Peer → Text → Result Text
unfolding frame receive
query t peer request = do
  reject_if (ltb xor_max_payload (length request)) (request_too_long (length request))
  reject_if (not (peer.dials t.host (dial_port t))) connecting
  reject_if (not peer.sets_deadline) deadline_refused
  reject_if (not peer.takes_write) sending
  receive (peer.answer (frame request))
