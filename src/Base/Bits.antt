-- ===== src/Base/Bits.antt =====
-- Exclusive or on bytes: evaluated at every pair of bytes, and used through three laws.
use Prim.Native.Nat.{bit_xor}
use kasa_exporter.Base.{ℕ, zero, suc, ◌<◌, ◌≡◌, refl, Bool, true, ◌&&◌, arith, ltb, ◌==◌}

-- Whether a test holds of every number under a bound.
holds_under : (test : ℕ → Bool) (bound : ℕ) → Bool
holds_under test zero = true
holds_under test (suc last) = holds_under test last && test last

holds_under_lem :
    (test : ℕ → Bool) (bound k : ℕ) → holds_under test bound ≡ true → k < bound → test k ≡ true
unfolding holds_under
holds_under_lem test zero k passed small = absurd (omega arith)
holds_under_lem test (suc last) k passed small = ground (arith, holds_under_lem test last k)

-- One pair of bytes: the result is a byte, and the same mask again gives the first byte back.
abbrev pair_ok : ℕ → ℕ → Bool
pair_ok a k = ltb (bit_xor a k) 256 && (bit_xor (bit_xor a k) k == a && bit_xor a k == bit_xor k a)

row_ok : ℕ → Bool
unfolding holds_under
row_ok a = holds_under (pair_ok a) 256

table : holds_under row_ok 256 ≡ true
unfolding holds_under row_ok
table = refl

module _ (a k : ℕ) (byte_a : a < 256) (byte_k : k < 256) where
  checked : pair_ok a k ≡ true
  checked =
      holds_under_lem (pair_ok a) 256 k (unfold row_ok in holds_under_lem row_ok 256 a table byte_a)
        byte_k

  pub xor-lt_256 : bit_xor a k < 256
  xor-lt_256 = ground (arith, checked)

  pub xor-xor : bit_xor (bit_xor a k) k ≡ a
  xor-xor = ground (arith, checked)
