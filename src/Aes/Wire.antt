-- ===== src/Aes/Wire.antt =====
-- The encrypted bodies of kasa/aes.go.
use kasa_exporter.Base.{◌≡◌, sym, inl, inr, arith, Bool-cases}
use kasa_exporter.Base.Text.{Text}
use kasa_exporter.Errors.{ok, ok-injective}
use kasa_exporter.Pkcs7.{pkcs7_pad}
use kasa_exporter.Pkcs7.RoundTrip.{unpad-pad, length-pad}
use kasa_exporter.Klap.{Crypto, block_size}
use kasa_exporter.Klap.Wire.{IsSound}
use kasa_exporter.Aes.{AesTransport, aes_encrypt, aes_decrypt}

-- What is encrypted under a session is decrypted to the same request, whatever the request, if the
-- session's key is one that the cipher takes.
pub aes_decrypt-aes_encrypt :
    (crypto : Crypto) (sound : IsSound crypto) (t : AesTransport) (payload body : Text)
    → aes_encrypt crypto t payload ≡ ok body
    → aes_decrypt crypto t body ≡ ok payload
unfolding aes_encrypt aes_decrypt
aes_decrypt-aes_encrypt crypto sound t payload body h =
    elim (Bool-cases (crypto.new_cipher t.key)) [
      | inr refused ↦ absurd (cc (rw refused at h))
      | inl taken ↦
          let padded = pkcs7_pad payload block_size in
          let sealed : body ≡ crypto.cbc_encrypt t.key t.iv padded =
            sym (ok-injective (rw taken at h)) in
          let (aligned, some_bytes) = length-pad payload block_size (omega arith) in
          let same_length = sound.keeps_length t.key t.iv padded in
          let plain = sound.decrypts t.key t.iv padded taken aligned in
          let unpadded = unpad-pad payload block_size (omega arith) (omega arith) in
          rw (sealed, taken, same_length, aligned, plain, unpadded) (ground arith)
    ]
