-- ===== src/Pkcs7.antt =====
-- PKCS#7 padding: `pkcs7Pad` and `pkcs7Unpad` of kasa/klap.go, which kasa/aes.go uses too.
pub mod RoundTrip
pub mod Tests
use kasa_exporter.Base.{
  ℕ, ◌-◌, ◌%◌, Bool, true, not, ◌&&◌, ◌||◌, [], ◌∷◌, ◌++◌, ltb, ◌==◌, if◌then◌else◌, length, get_or,
  take, drop, replicate,
}
use kasa_exporter.Base.Text.{Text}
use kasa_exporter.Errors.{Result, ok, err, bad_padded_length, bad_padding_length, bad_padding_bytes}

-- `byte(n)` keeps the low eight bits.
unfoldable pub pkcs7_pad : Text → ℕ → Text
pkcs7_pad payload size = let n = size - length payload % size in payload ++ replicate n (n % 256)

pub all_equal : ℕ → Text → Bool
all_equal n [] = true
all_equal n (b ∷ bs) = b == n && all_equal n bs

-- The three checks in order: the length, the padding length (the last byte), the padding bytes.
unfoldable pub pkcs7_unpad : Text → ℕ → Result Text
unfolding all_equal
pkcs7_unpad padded size =
    let len = length padded in
    let n = get_or padded (len - 1) 0 in
    if len == 0 || not (len % size == 0)
    then err (bad_padded_length len)
    else if n == 0 || (ltb size n || ltb len n)
    then err (bad_padding_length n)
    else if all_equal n (drop (len - n) padded)
    then ok (take (len - n) padded)
    else err bad_padding_bytes
