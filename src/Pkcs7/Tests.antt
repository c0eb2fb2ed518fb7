-- ===== src/Pkcs7/Tests.antt =====
-- Concrete runs of the padding.
use kasa_exporter.Base.{◌≡◌, refl, [], ◌∷◌, arith}
use kasa_exporter.Base.Text.{Text}
use kasa_exporter.Errors.{ok}
use kasa_exporter.Pkcs7.{pkcs7_pad, pkcs7_unpad, all_equal}
use kasa_exporter.Pkcs7.RoundTrip.{pad-unpad}

abbrev short : Text
short = 7 ∷ 8 ∷ []

abbrev padded : Text
padded = 7 ∷ 8 ∷ 2 ∷ 2 ∷ []

unpadded : pkcs7_unpad padded 4 ≡ ok short
unfolding pkcs7_unpad all_equal
unpadded = refl

pad-unpad_example : pkcs7_pad short 4 ≡ padded
pad-unpad_example = pad-unpad padded short 4 (omega arith) (omega arith) unpadded
