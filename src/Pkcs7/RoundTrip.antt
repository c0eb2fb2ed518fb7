-- ===== src/Pkcs7/RoundTrip.antt =====
-- Padding and unpadding: the round trip in both directions.
use Prim.Native.Nat.add
use kasa_exporter.Base.{
  ltb, ◌||◌, if◌then◌else◌, take-append-drop, length-take, length-drop, not, take-append,
  drop-append, ℕ, zero, suc, ◌+◌, ◌-◌, ◌%◌, ◌≤◌, ◌<◌, ◌≡◌, refl, sym, ap, ◌∙◌, true, not, ◌||◌, [],
  ◌∷◌, ◌++◌, arith, ltb, ◌==◌, if◌then◌else◌, length, get_or, take, drop, replicate, length-append,
  take-append-drop, length-take, length-drop, length-replicate, take-append, drop-append,
}
use kasa_exporter.Base.Text.{Text}
use kasa_exporter.Errors.{ok, err, bad_padded_length, bad_padding_length, bad_padding_bytes}
use kasa_exporter.Pkcs7.{pkcs7_pad, pkcs7_unpad, all_equal}

all_equal-replicate : (n k : ℕ) → all_equal n (replicate k n) ≡ true
unfolding all_equal
all_equal-replicate n zero = refl
all_equal-replicate n (suc k) = ground (arith, all_equal-replicate n k)

replicate-of-all_equal : (n : ℕ) (bs : Text) → all_equal n bs ≡ true → bs ≡ replicate (length bs) n
unfolding all_equal
replicate-of-all_equal n [] h = refl
replicate-of-all_equal n (b ∷ bs) h = ground (arith, replicate-of-all_equal n bs)

get_or-append : (xs ys : Text) (i : ℕ) → get_or (xs ++ ys) (length xs + i) 0 ≡ get_or ys i 0
get_or-append [] ys i = rw (add.zero i)
get_or-append (x ∷ xs) ys i = rw (add.suc (length xs) i) (get_or-append xs ys i)

get_or-replicate : (k v i : ℕ) → i < k → get_or (replicate k v) i 0 ≡ v
get_or-replicate zero v i h = absurd (omega arith)
get_or-replicate (suc k) v zero h = refl
get_or-replicate (suc k) v (suc i) h = get_or-replicate k v i (omega arith)

padded_multiple : (len size : ℕ) → 0 < size → (len + (size - len % size)) % size ≡ 0
padded_multiple len size h = grind arith

pad_length : (len size : ℕ) → 0 < size → (0 < size - len % size) × (size - len % size ≤ size)
pad_length len size h = omega arith

-- A pad of `n` bytes, 1 to `size`, on a multiple of `size` is the pad that `pkcs7_pad` would add.
pad_unique :
    (len n size : ℕ) → len % size ≡ 0 → 0 < n → n ≤ size → n ≤ len → size - (len - n) % size ≡ n
pad_unique len n size m p q r = grind arith

-- Unpadding reads the pad back off, whatever stands before it.
module _ (payload : Text) (n size : ℕ) (some_pad : 0 < n) (fits : n ≤ size)
    (aligned : (length payload + n) % size ≡ 0) where
  padded_length : length (payload ++ replicate n n) ≡ length payload + n
  padded_length =
      length-append payload (replicate n n) ∙ ap (λ k. length payload + k) (length-replicate n n)

  last_byte : get_or (payload ++ replicate n n) (length payload + n - 1) 0 ≡ n
  last_byte =
      let e : length payload + n - 1 ≡ length payload + (n - 1) = omega arith in
      rw e
        (get_or-append payload (replicate n n) (n - 1) ∙ get_or-replicate n n (n - 1) (omega arith))

  unpad_padded : pkcs7_unpad (payload ++ replicate n n) size ≡ ok payload
  unfolding pkcs7_unpad
  unpad_padded =
      let e : length payload + n - n ≡ length payload = omega arith in
      rw
        (
          padded_length,
          last_byte,
          aligned,
          e,
          take-append payload (replicate n n),
          drop-append payload (replicate n n),
          all_equal-replicate n n,
        )
        (ground arith)

-- Unpadding what was padded gives the payload back, for every block size from 1 to 255 bytes.
pub unpad-pad :
    (payload : Text) (size : ℕ)
    → 0 < size
    → size < 256
    → pkcs7_unpad (pkcs7_pad payload size) size ≡ ok payload
unfolding pkcs7_pad
unpad-pad payload size pos byte =
    let n = size - length payload % size in
    let (some_pad, fits) = pad_length (length payload) size pos in
    let e : n % 256 ≡ n = omega arith in
    rw e (unpad_padded payload n size some_pad fits (padded_multiple (length payload) size pos))

-- What the checks of `pkcs7_unpad` establish, with `n` the last byte.
unpad_accepts :
    (padded payload : Text) (size n : ℕ)
    → n ≡ get_or padded (length padded - 1) 0
    → pkcs7_unpad padded size ≡ ok payload
    → (length padded % size ≡ 0)
      × (0 < n)
      × (n ≤ size)
      × (n ≤ length padded)
      × (payload ≡ take (length padded - n) padded)
      × (all_equal n (drop (length padded - n) padded) ≡ true)
unfolding pkcs7_unpad
unpad_accepts padded payload size n last h =
    let shown : (if length padded == 0 || not (length padded % size == 0)
          then err (bad_padded_length (length padded))
          else if n == 0 || (ltb size n || ltb (length padded) n)
          then err (bad_padding_length n)
          else if all_equal n (drop (length padded - n) padded)
          then ok (take (length padded - n) padded)
          else err bad_padding_bytes)
        ≡ ok payload =
      rw last h in
    ground arith

-- Unpadding accepts nothing but padded text: where it succeeds, padding the result gives the very
-- bytes that it was given, for every block size from 1 to 255 bytes.
pub pad-unpad :
    (padded payload : Text) (size : ℕ)
    → 0 < size
    → size < 256
    → pkcs7_unpad padded size ≡ ok payload
    → pkcs7_pad payload size ≡ padded
unfolding pkcs7_pad
pad-unpad padded payload size pos byte h =
    let n = get_or padded (length padded - 1) 0 in
    let len = length padded in
    let (aligned, some_pad, fits, within, taken, equal) =
      unpad_accepts padded payload size n refl h in
    let body : length payload ≡ len - n = rw (taken, length-take (len - n) padded) (omega arith) in
    let pad : size - length payload % size ≡ n =
      rw body (pad_unique len n size aligned some_pad fits within) in
    let tail_length : length (drop (len - n) padded) ≡ n =
      rw (length-drop (len - n) padded) (omega arith) in
    let tail : replicate n n ≡ drop (len - n) padded =
      rw tail_length at (sym (replicate-of-all_equal n (drop (len - n) padded) equal)) in
    let small : n % 256 ≡ n = omega arith in
    rw (pad, small, tail, taken) (take-append-drop (len - n) padded)

-- What is padded is a whole number of blocks, and never empty.
pub length-pad :
    (payload : Text) (size : ℕ)
    → 0 < size
    → (length (pkcs7_pad payload size) % size ≡ 0) × (0 < length (pkcs7_pad payload size))
unfolding pkcs7_pad
length-pad payload size pos =
    let n = size - length payload % size in
    let e : length (payload ++ replicate n (n % 256)) ≡ length payload + n =
      length-append payload (replicate n (n % 256))
      ∙ ap (λ k. length payload + k) (length-replicate n (n % 256)) in
    rw e (
      padded_multiple (length payload) size pos,
      omega (arith, pad_length (length payload) size pos),
    )
