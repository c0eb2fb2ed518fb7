-- ===== src/Floats.antt =====
-- float64 is not modelled: the number type and the operations that the sources use on it are a
-- parameter. `integers` shows that the parameter can be met.
use kasa_exporter.Base.{ℕ, ◌+◌, ◌/◌}
use kasa_exporter.Base.Int.{◌*ℤ◌, ℤ, pos, negsuc, ◌+ℤ◌, ◌-ℤ◌}

pub record Arithmetic (F : Type 0) : Type 0 where
  pub of_ℕ : ℕ → F
  pub plus : F → F → F
  pub minus : F → F → F
  pub times : F → F → F
  pub over : F → F → F

-- Integers, with a division that rounds towards zero: for tests.
unfoldable pub divide : ℤ → ℤ → ℤ
divide (pos a) (pos b) = pos (a / b)
divide (pos a) (negsuc b) = pos 0 -ℤ pos (a / (b + 1))
divide (negsuc a) (pos b) = pos 0 -ℤ pos ((a + 1) / b)
divide (negsuc a) (negsuc b) = pos ((a + 1) / (b + 1))

abbrev pub integers : Arithmetic ℤ
integers = record { of_ℕ = pos; plus = ◌+ℤ◌; minus = ◌-ℤ◌; times = ◌*ℤ◌; over = divide }
