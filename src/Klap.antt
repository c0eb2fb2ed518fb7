-- ===== src/Klap.antt =====
-- kasa/klap.go: the authenticated session over HTTP. Hashes, the block cipher and the HTTP client are
-- parameters (`Crypto`, `Http`); the mutex makes each query one step.
pub mod Query
pub mod Wire
pub mod Session
pub mod Device
pub mod Dialogue
pub mod Queries
pub mod Tests
use kasa_exporter.Base.{
  ℕ, zero, suc, ◌+◌, ◌-◌, ◌%◌, ◌^◌, Bool, true, false, not, Option, none, some, List, [], ◌∷◌, ◌++◌,
  ltb, leb, ◌==◌, if◌then◌else◌, length, take, drop,
}
use kasa_exporter.Base.Text.{Text, codes, ◌==ₜ◌}
use kasa_exporter.Base.Int.{ℤ, pos, negsuc}
use kasa_exporter.Base.Dict.{Dict}
use kasa_exporter.Base.Decimal.{itoa_ℤ}
use kasa_exporter.Errors.{
  ◌>>=◌, ◌>>◌, Result, ok, err, reject_if, or_error, no_random, http_failed, body_failed,
  body_too_long, handshake1_status, handshake1_length, handshake2_status, request_status,
  klap_unauthorized, rejected_twice, too_short_to_sign, not_block_multiple, bad_cipher_key,
}
use kasa_exporter.Xor.{put_u32, get_u32}
use kasa_exporter.Pkcs7.{pkcs7_pad, pkcs7_unpad}
use kasa_exporter.Connect.{Credentials}

-- crypto/md5, sha1, sha256 and AES-CBC: `new_cipher` says whether aes.NewCipher takes the key.
pub record Crypto : Type 0 where
  pub md5 : Text → Text
  pub sha1 : Text → Text
  pub sha256 : Text → Text
  pub new_cipher : Text → Bool
  pub cbc_encrypt : (key iv blocks : Text) → Text
  pub cbc_decrypt : (key iv blocks : Text) → Text

-- What an HTTP request comes to: no response, a body that cannot be read, or a response with its
-- status, body and cookies.
pub data HttpOutcome : Type 0 where
  failed broken : HttpOutcome
  response : (status : ℕ) → (body : Text) → (cookies : Dict Text) → HttpOutcome

-- One POST: the path, the session cookie that is sent, and the body.
pub record Http (W : Type 0) : Type 0 where
  pub post : W → (path session body : Text) → HttpOutcome × W
  pub random : W → Option (Text × W)

abbrev pub klap_seed_len : ℕ
klap_seed_len = 16

abbrev pub klap_handshake_len : ℕ
klap_handshake_len = 48

abbrev pub klap_sig_len : ℕ
klap_sig_len = 32

abbrev pub block_size : ℕ
block_size = 16

-- 8 << 20; not an `abbrev`, so that nothing counts up to it.
unfoldable pub max_response_bytes : ℕ
max_response_bytes = 8_388_608

abbrev pub klap_fallback_credentials : List Credentials
klap_fallback_credentials =
    record { username = []; password = [] }
    ∷ record { username = codes "kasa@tp-link.net"; password = codes "kasaSetup" }
    ∷ record { username = codes "test@tp-link.net"; password = codes "test" }
    ∷ []

pub record KlapTransport : Type 0 where
  pub credentials : Credentials
  pub login_version : ℤ
  pub session_id : Text
  pub enc_key : Text
  pub sig_key : Text
  pub iv : Text
  pub seq : ℕ
  pub established : Bool

-- An int32 is its bit pattern; `klap_signed` is the number that fmt prints.
abbrev pub seq_mod : ℕ
seq_mod = 2 ^ 32

abbrev pub klap_signed : ℕ → ℤ
klap_signed n = if ltb n (2 ^ 31) then pos n else negsuc (2 ^ 32 - n - 1)

abbrev is_login_v2 : ℤ → Bool
is_login_v2 (pos n) = n == 2
is_login_v2 (negsuc n) = false

module _ (crypto : Crypto) where
  pub klap_auth_hash : Credentials → ℤ → Text
  klap_auth_hash creds version =
      if is_login_v2 version
      then crypto.sha256 (crypto.sha1 creds.username ++ crypto.sha1 creds.password)
      else crypto.md5 (crypto.md5 creds.username ++ crypto.md5 creds.password)

  -- `klapDeriveSession`, into the transport.
  pub klap_derive_session :
      KlapTransport → (local_seed remote_seed auth_hash : Text) → KlapTransport
  klap_derive_session t local_seed remote_seed auth_hash =
      let seeds = local_seed ++ (remote_seed ++ auth_hash) in
      let full_iv = crypto.sha256 (codes "iv" ++ seeds) in
      record t {
        enc_key = take 16 (crypto.sha256 (codes "lsk" ++ seeds));
        sig_key = take 28 (crypto.sha256 (codes "ldk" ++ seeds));
        iv = take 12 full_iv;
        seq = get_u32 (take 4 (drop 28 full_iv));
      }

  -- `blockIV`
  pub block_iv : KlapTransport → ℕ → Text
  block_iv t seq = t.iv ++ put_u32 seq

  -- `klapEncrypt`: the signature, then the ciphertext.
  pub klap_encrypt : KlapTransport → Text → ℕ → Result Text
  unfolding block_iv
  klap_encrypt t payload seq = do
    reject_if (not (crypto.new_cipher t.enc_key)) bad_cipher_key
    let ciphertext = crypto.cbc_encrypt t.enc_key (block_iv t seq) (pkcs7_pad payload block_size)
    ok (crypto.sha256 (t.sig_key ++ (put_u32 seq ++ ciphertext)) ++ ciphertext)

  -- `klapDecrypt`
  pub klap_decrypt : KlapTransport → Text → ℕ → Result Text
  unfolding block_iv
  klap_decrypt t body seq = do
    reject_if (leb (length body) klap_sig_len) (too_short_to_sign (length body))
    let ciphertext = drop klap_sig_len body
    reject_if (not (crypto.new_cipher t.enc_key)) bad_cipher_key
    reject_if (not (length ciphertext % block_size == 0)) (not_block_multiple (length ciphertext))
    pkcs7_unpad (crypto.cbc_decrypt t.enc_key (block_iv t seq) ciphertext) block_size

  -- The first candidate whose hash is the one that the device sent.
  pub matching_hash :
      (version : ℤ) → (local_seed remote_seed server_hash : Text) → List Credentials → Option Text
  unfolding klap_auth_hash
  matching_hash version local_seed remote_seed server_hash [] = none
  matching_hash version local_seed remote_seed server_hash (creds ∷ rest) =
      let candidate = klap_auth_hash creds version in
      if crypto.sha256 (local_seed ++ (remote_seed ++ candidate)) ==ₜ server_hash
      then some candidate
      else matching_hash version local_seed remote_seed server_hash rest

abbrev pub session_cookie : Text
session_cookie = codes "TP_SESSIONID"

-- The loop over the cookies: the last one of the name counts.
abbrev pub session_of : Text → Dict Text → Text
session_of found [] = found
session_of found ((name, value) ∷ cookies) =
    session_of (if name ==ₜ session_cookie then value else found) cookies

-- The limit on a body: one byte more than the limit is read, and refused.
unfoldable pub limited : HttpOutcome → Result (ℕ × Text × Text)
limited failed = err http_failed
limited broken = err body_failed
limited (response status body cookies) =
    if ltb max_response_bytes (length (take (max_response_bytes + 1) body))
    then err body_too_long
    else ok (status, take (max_response_bytes + 1) body, session_of [] cookies)
