-- ===== src/Base/Decimal.antt =====
-- strconv.Itoa and fmt's %d on integers, with the reading back that shows that different numbers
-- have different texts.
use kasa_exporter.Base.{
  ℕ, zero, suc, ◌+◌, ◌-◌, ◌*◌, ◌/◌, ◌%◌, ◌<◌, ◌≡◌, refl, sym, ap, ◌∙◌, inl, inr, [], ◌∷◌, ◌++◌,
  arith, ltb, if◌then◌else◌, Bool-cases,
}
use kasa_exporter.Base.Text.{Text}
use kasa_exporter.Base.Int.{ℤ, pos, negsuc}

-- The digits of `n`, where `n` is below 10 ^ fuel.
digits_of : ℕ → ℕ → Text
digits_of zero n = []
digits_of (suc f) n =
    let more = digits_of f (n / 10) in
    if ltb n 10 then (n + b'0') ∷ [] else more ++ (n % 10 + b'0') ∷ []

-- One digit more than the number of halvings: `n + 1` rounds are always enough.
unfoldable pub itoa : ℕ → Text
unfolding digits_of
itoa n = digits_of (n + 1) n

unfoldable pub itoa_ℤ : ℤ → Text
itoa_ℤ (pos n) = itoa n
itoa_ℤ (negsuc n) = b'-' ∷ itoa (n + 1)

value_from : ℕ → Text → ℕ
value_from acc [] = acc
value_from acc (d ∷ ds) = value_from (acc * 10 + (d - b'0')) ds

value_from-append :
    (acc : ℕ) (xs : Text) (d : ℕ)
    → value_from acc (xs ++ d ∷ []) ≡ value_from acc xs * 10 + (d - b'0')
unfolding value_from
value_from-append acc [] d = refl
value_from-append acc (x ∷ xs) d = value_from-append (acc * 10 + (x - b'0')) xs d

value-digits_of : (f n : ℕ) → n < f → value_from 0 (digits_of f n) ≡ n
unfolding value_from digits_of
value-digits_of zero n h = absurd (omega arith)
value-digits_of (suc f) n h = elim (Bool-cases (ltb n 10)) [
  | inl small ↦ rw small (omega arith)
  | inr large ↦
      rw
        (
          large,
          value_from-append 0 (digits_of f (n / 10)) (n % 10 + b'0'),
          value-digits_of f (n / 10) (ground arith),
        )
        (omega arith)
]

-- Different numbers have different texts.
pub itoa_injective : (m n : ℕ) → itoa m ≡ itoa n → m ≡ n
unfolding itoa
itoa_injective m n e =
    sym (value-digits_of (m + 1) m (omega arith))
    ∙ ap (λ s. value_from 0 s) e
    ∙ value-digits_of (n + 1) n (omega arith)
