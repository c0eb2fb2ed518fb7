-- ===== src/Xor/Cipher.antt =====
-- The two routines of the cipher of kasa/xor.go, on bytes.
use Prim.Native.Nat.{bit_xor}
use kasa_exporter.Base.{ℕ, suc, ◌<◌, ◌≡◌, refl, ap, [], ◌∷◌, arith, length, All}
use kasa_exporter.Base.Text.{Text}
use kasa_exporter.Base.Bits.{xor-lt_256, xor-xor}
use kasa_exporter.Xor.{xor_key, encrypt_from, decrypt_from, xor_encrypt, xor_decrypt}

abbrev pub IsBytes : Text → Type 0
IsBytes = All (λ b. b < 256)

decrypt-encrypt_from :
    (key : ℕ) (plain : Text)
    → key < 256
    → IsBytes plain
    → decrypt_from key (encrypt_from key plain) ≡ plain
unfolding encrypt_from decrypt_from
decrypt-encrypt_from key [] k h = refl
decrypt-encrypt_from key (b ∷ plain) k (p, h) =
    rw (xor-xor b key p k, decrypt-encrypt_from (bit_xor b key) plain (xor-lt_256 b key p k) h)

encrypt-decrypt_from :
    (key : ℕ) (cipher : Text)
    → key < 256
    → IsBytes cipher
    → encrypt_from key (decrypt_from key cipher) ≡ cipher
unfolding encrypt_from decrypt_from
encrypt-decrypt_from key [] k h = refl
encrypt-decrypt_from key (c ∷ cipher) k (p, h) =
    rw (xor-xor c key p k, encrypt-decrypt_from c cipher p h)

-- Decrypting what was encrypted gives the plaintext back, and encrypting what was decrypted gives
-- the ciphertext back: the cipher is a bijection on byte strings.
pub cipher_bijective :
    (s : Text) → IsBytes s → (xor_decrypt (xor_encrypt s) ≡ s) × (xor_encrypt (xor_decrypt s) ≡ s)
unfolding xor_encrypt xor_decrypt
cipher_bijective s h =
    (decrypt-encrypt_from xor_key s (omega arith) h, encrypt-decrypt_from xor_key s (omega arith) h)

length-encrypt_from : (key : ℕ) (plain : Text) → length (encrypt_from key plain) ≡ length plain
unfolding encrypt_from
length-encrypt_from key [] = refl
length-encrypt_from key (b ∷ plain) = ap suc (length-encrypt_from (bit_xor b key) plain)

pub length-xor_encrypt : (plain : Text) → length (xor_encrypt plain) ≡ length plain
unfolding xor_encrypt
length-xor_encrypt plain = length-encrypt_from xor_key plain

length-decrypt_from : (key : ℕ) (cipher : Text) → length (decrypt_from key cipher) ≡ length cipher
unfolding decrypt_from
length-decrypt_from key [] = refl
length-decrypt_from key (c ∷ cipher) = ap suc (length-decrypt_from c cipher)

pub length-xor_decrypt : (cipher : Text) → length (xor_decrypt cipher) ≡ length cipher
unfolding xor_decrypt
length-xor_decrypt cipher = length-decrypt_from xor_key cipher
