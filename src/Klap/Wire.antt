-- ===== src/Klap/Wire.antt =====
-- The encrypted bodies of kasa/klap.go, and what the block cipher and the hash are relied on for.
use kasa_exporter.Base.{
  ℕ, ◌+◌, ◌%◌, ◌^◌, ◌<◌, ◌≡◌, sym, ap, ◌∙◌, ◌≢◌, inl, inr, true, List, ◌++◌, arith, Bool-cases,
  length, drop, length-append, drop-append, refl, inl, inr, ◌≤◌, ◌-◌, replicate, length-replicate,
}
use kasa_exporter.Base.Text.{Text}
use kasa_exporter.Errors.{Result-cases, ok, ok-injective}
use kasa_exporter.Xor.{put_u32, get_u32}
use kasa_exporter.Xor.Framing.{get_u32-put_u32}
use kasa_exporter.Pkcs7.{pkcs7_pad, pkcs7_unpad}
use kasa_exporter.Pkcs7.RoundTrip.{unpad-pad, length-pad}
use kasa_exporter.Klap.{Crypto, KlapTransport, block_size, block_iv, klap_encrypt, klap_decrypt}

-- What is documented of the primitives: under a key that is taken, CBC decryption is the inverse of
-- encryption on whole blocks and keeps the length, and a SHA-256 digest has 32 bytes.
pub record IsSound (crypto : Crypto) : Type 0 where
  pub decrypts :
      (key iv blocks : Text)
      → crypto.new_cipher key ≡ true
      → length blocks % block_size ≡ 0
      → crypto.cbc_decrypt key iv (crypto.cbc_encrypt key iv blocks) ≡ blocks
  pub keeps_length :
      (key iv blocks : Text) → length (crypto.cbc_encrypt key iv blocks) ≡ length blocks
  pub digest_length : (s : Text) → length (crypto.sha256 s) ≡ 32

u32_injective : (m n : ℕ) → m < 2 ^ 32 → n < 2 ^ 32 → put_u32 m ≡ put_u32 n → m ≡ n
u32_injective m n hm hn e = sym (get_u32-put_u32 m hm) ∙ ap get_u32 e ∙ get_u32-put_u32 n hn

drop-append_of_length :
    {A : Type 0} (n : ℕ) (xs ys : List A) → length xs ≡ n → drop n (xs ++ ys) ≡ ys
drop-append_of_length n xs ys e = rw (← e) (drop-append xs ys)

drop-same : {A : Type 0} (xs ys zs : List A) → xs ++ ys ≡ xs ++ zs → ys ≡ zs
drop-same xs ys zs e = sym (drop-append xs ys) ∙ ap (drop (length xs)) e ∙ drop-append xs zs

module _ (crypto : Crypto) (sound : IsSound crypto) where
  -- What is encrypted for a sequence number is decrypted to the same payload under the same session
  -- and number, whatever the payload, if the session's key is one that the cipher takes.
  pub decrypt-encrypt :
      (t : KlapTransport) (payload body : Text) (seq : ℕ)
      → klap_encrypt crypto t payload seq ≡ ok body
      → klap_decrypt crypto t body seq ≡ ok payload
  unfolding klap_encrypt klap_decrypt
  decrypt-encrypt t payload body seq h = elim (Bool-cases (crypto.new_cipher t.enc_key)) [
    | inr refused ↦ absurd (cc (rw refused at h))
    | inl taken ↦
        let padded = pkcs7_pad payload block_size in
        let ciphertext = crypto.cbc_encrypt t.enc_key (t.iv ++ put_u32 seq) padded in
        let signature = crypto.sha256 (t.sig_key ++ (put_u32 seq ++ ciphertext)) in
        let sealed : body ≡ signature ++ ciphertext = sym (ok-injective (rw taken at h)) in
        let (aligned, some_bytes) = length-pad payload block_size (omega arith) in
        let same_length : length ciphertext ≡ length padded =
          sound.keeps_length t.enc_key (t.iv ++ put_u32 seq) padded in
        let whole : length (signature ++ ciphertext) ≡ 32 + length padded = omega (
          arith,
          length-append signature ciphertext,
          sound.digest_length (t.sig_key ++ (put_u32 seq ++ ciphertext)),
          same_length,
        ) in
        let stripped : drop 32 (signature ++ ciphertext) ≡ ciphertext =
          drop-append_of_length 32 signature ciphertext
            (sound.digest_length (t.sig_key ++ (put_u32 seq ++ ciphertext))) in
        let plain : crypto.cbc_decrypt t.enc_key (t.iv ++ put_u32 seq) ciphertext ≡ padded =
          sound.decrypts t.enc_key (t.iv ++ put_u32 seq) padded taken aligned in
        let unpadded : pkcs7_unpad padded block_size ≡ ok payload =
          unpad-pad payload block_size (omega arith) (omega arith) in
        rw (sealed, whole, stripped, taken, same_length, aligned, plain, unpadded) (ground arith)
  ]

-- What is encrypted and decrypted hangs on the keys of a session alone.
pub same_encrypt :
    (crypto : Crypto) (t s : KlapTransport) (payload : Text) (seq : ℕ)
    → t.enc_key ≡ s.enc_key
    → t.sig_key ≡ s.sig_key
    → t.iv ≡ s.iv
    → klap_encrypt crypto t payload seq ≡ klap_encrypt crypto s payload seq
unfolding klap_encrypt block_iv
same_encrypt crypto t s payload seq key sig iv = rw (key, sig, iv) refl

-- A key that the cipher takes is enough for a body.
pub encrypted :
    (crypto : Crypto) (t : KlapTransport) (payload : Text) (seq : ℕ)
    → crypto.new_cipher t.enc_key ≡ true
    → (body : Text) × (klap_encrypt crypto t payload seq ≡ ok body)
unfolding klap_encrypt block_iv
encrypted crypto t payload seq taken = elim (Result-cases (klap_encrypt crypto t payload seq)) [
  | inl (body, e) ↦ (body, e)
  | inr (failure, e) ↦ absurd (cc (rw taken at e))
]

length-pkcs7_pad : (payload : Text) → length (pkcs7_pad payload 16) ≤ length payload + 16
unfolding pkcs7_pad
length-pkcs7_pad payload =
    let n = 16 - length payload % 16 in
    omega (arith, length-append payload (replicate n (n % 256)), length-replicate n (n % 256))

-- A body is at most a signature and a block longer than its payload.
pub length-klap_encrypt :
    (crypto : Crypto) (sound : IsSound crypto) (t : KlapTransport) (payload body : Text) (seq : ℕ)
    → klap_encrypt crypto t payload seq ≡ ok body
    → length body ≤ length payload + 48
unfolding klap_encrypt block_iv
length-klap_encrypt crypto sound t payload body seq h =
    elim (Bool-cases (crypto.new_cipher t.enc_key)) [
      | inr refused ↦ absurd (cc (rw refused at h))
      | inl taken ↦
          let padded = pkcs7_pad payload block_size in
          let ciphertext = crypto.cbc_encrypt t.enc_key (t.iv ++ put_u32 seq) padded in
          let signature = crypto.sha256 (t.sig_key ++ (put_u32 seq ++ ciphertext)) in
          let sealed : body ≡ signature ++ ciphertext = sym (ok-injective (rw taken at h)) in
          rw sealed (
            omega (
              arith,
              length-append signature ciphertext,
              sound.digest_length (t.sig_key ++ (put_u32 seq ++ ciphertext)),
              sound.keeps_length t.enc_key (t.iv ++ put_u32 seq) padded,
              length-pkcs7_pad payload,
            ))
    ]

same_iv :
    (crypto : Crypto) (t : KlapTransport) (m n : ℕ)
    → m < 2 ^ 32
    → n < 2 ^ 32
    → block_iv crypto t m ≡ block_iv crypto t n
    → m ≡ n
unfolding block_iv
same_iv crypto t m n hm hn e = u32_injective m n hm hn (drop-same t.iv (put_u32 m) (put_u32 n) e)

-- Under a session two requests with different sequence numbers have different IVs: no IV is used twice
-- before the 32-bit counter comes round.
pub block_iv_injective :
    (crypto : Crypto) (t : KlapTransport) (m n : ℕ)
    → m < 2 ^ 32
    → n < 2 ^ 32
    → m ≢ n
    → block_iv crypto t m ≢ block_iv crypto t n
block_iv_injective crypto t m n hm hn distinct e = distinct (same_iv crypto t m n hm hn e)
