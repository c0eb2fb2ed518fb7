-- ===== src/Xor/Tests.antt =====
-- Concrete runs of the legacy cipher and its framing.
use kasa_exporter.Base.{◌≡◌, refl, true, [], ◌∷◌, arith, ◌==◌}
use kasa_exporter.Base.Text.{Text, codes}
use kasa_exporter.Errors.{ok}
use kasa_exporter.Xor.{
  XorTransport, Peer, xor_encrypt, xor_decrypt, query, frame, encrypt_from, decrypt_from, receive,
  read_full, get_u32, put_u32,
}
use kasa_exporter.Xor.Cipher.{IsBytes}
use kasa_exporter.Xor.Framing.{device_answer}

abbrev plug_transport : XorTransport
plug_transport = record { host = codes "10.0.0.7"; port = 0 }

-- A device that echoes what it is sent.
abbrev echo_peer : Peer
echo_peer = record {
  dials = λ host port. port == 9999;
  sets_deadline = true;
  takes_write = true;
  answer = device_answer (λ request. request);
}

abbrev request : Text
request = 123 ∷ 125 ∷ []

bytes : IsBytes request
bytes = (omega arith, (omega arith, tt))

-- {} is encrypted to d0 ad.
encrypted : xor_encrypt request ≡ 208 ∷ 173 ∷ []
unfolding xor_encrypt encrypt_from
encrypted = refl

answer_runs : query plug_transport echo_peer request ≡ ok request
unfolding query frame receive read_full get_u32 put_u32 xor_encrypt encrypt_from xor_decrypt
    decrypt_from
answer_runs = refl
