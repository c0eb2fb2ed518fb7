-- ===== src/Reading/Tests.antt =====
-- Concrete models: an HS300 is a strip.
use kasa_exporter.Base.{◌∷◌, arith}
use kasa_exporter.Base.Text.{Text, codes}
use kasa_exporter.Reading.Category.{NoMark}

abbrev model : Text
model = codes "hs300"

model_NoMark : NoMark (b'H' ∷ codes "S300")
model_NoMark = (
  λ m. ground (arith, m),
  (
    λ m. ground (arith, m),
    (λ m. ground (arith, m), (λ m. ground (arith, m), (λ m. ground (arith, m), tt))),
  ),
)
