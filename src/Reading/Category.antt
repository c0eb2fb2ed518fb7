-- ===== src/Reading/Category.antt =====
-- `deviceTypeFor` of kasa/device.go: what decides the category of a device.
use kasa_exporter.Base.{ℕ, ◌≡◌, refl, sym, ap, ◌∙◌, ◌⊎◌, [], ◌∷◌, ◌++◌, arith, All}
use kasa_exporter.Base.Text.{upper_byte, Text, codes, to_upper}
use kasa_exporter.Reading.{resolve_type, strip, before_mark, cut_suffix, device_type_for}

classify : Unit {0}
unfolding device_type_for to_upper cut_suffix resolve_type
classify = tt

hs300 : device_type_for (codes "hs300(US) 2.0") (codes "IOT.SMARTPLUGSWITCH") ≡ strip
unfolding classify
hs300 = refl

upper_byte_idem : (c : ℕ) → upper_byte (upper_byte c) ≡ upper_byte c
upper_byte_idem c = ground arith

to_upper_idem : (s : Text) → to_upper (to_upper s) ≡ to_upper s
unfolding to_upper
to_upper_idem [] = refl
to_upper_idem (c ∷ s) = rw (upper_byte_idem c, to_upper_idem s)

-- The category does not depend on the case in which the device spells its model and its family.
pub device_type-to_upper :
    (model family : Text)
    → device_type_for (to_upper model) (to_upper family) ≡ device_type_for model family
unfolding device_type_for
device_type-to_upper model family =
    λ i. resolve_type (cut_suffix (to_upper_idem model i)) (to_upper_idem family i)

abbrev pub IsMark : ℕ → Type 0
IsMark c = (c ≡ b'(') ⊎ (c ≡ b' ')

abbrev pub NoMark : Text → Type 0
NoMark = All (λ c. ¬ IsMark c)

NoMark-to_upper : (s : Text) → NoMark s → NoMark (to_upper s)
unfolding to_upper
NoMark-to_upper [] h = tt
NoMark-to_upper (c ∷ s) (p, h) = (λ m. ground (arith, p), NoMark-to_upper s h)

before_mark_all : (s : Text) → NoMark s → before_mark s ≡ s
unfolding before_mark
before_mark_all [] h = refl
before_mark_all (c ∷ s) (p, h) = ground (arith, p, before_mark_all s h)

before_mark-append :
    (s t : Text) (mark : ℕ) → NoMark s → IsMark mark → before_mark (s ++ mark ∷ t) ≡ s
unfolding before_mark
before_mark-append [] t mark h m = ground arith
before_mark-append (c ∷ s) t mark (p, h) m = ground (arith, p, before_mark-append s t mark h m)

to_upper-append : (s t : Text) → to_upper (s ++ t) ≡ to_upper s ++ to_upper t
unfolding to_upper
to_upper-append [] t = refl
to_upper-append (c ∷ s) t = ap (λ r. upper_byte c ∷ r) (to_upper-append s t)

to_upper_mark : (mark : ℕ) (t : Text) → IsMark mark → to_upper (mark ∷ t) ≡ mark ∷ to_upper t
unfolding to_upper
to_upper_mark mark t m = ground arith

to_upper-cons : (c : ℕ) (s : Text) → to_upper (c ∷ s) ≡ upper_byte c ∷ to_upper s
unfolding to_upper
to_upper-cons c s = refl

cut_suffix_lem : (s : Text) (c : ℕ) (r : Text) → before_mark s ≡ c ∷ r → cut_suffix s ≡ c ∷ r
unfolding cut_suffix
cut_suffix_lem s c r h = rw (h, cut_suffix)

-- A region or hardware suffix, from the first "(" or space on, does not change the category; the
-- model itself must have at least one character before it.
pub device_type_suffix :
    (model suffix family : Text) (first mark : ℕ)
    → NoMark (first ∷ model)
    → IsMark mark
    → device_type_for (first ∷ model ++ mark ∷ suffix) family
      ≡ device_type_for (first ∷ model) family
unfolding device_type_for
device_type_suffix model suffix family first mark h m =
    let whole = to_upper (first ∷ model) in
    let cut : before_mark (to_upper (first ∷ model ++ mark ∷ suffix)) ≡ whole =
      rw (to_upper-append (first ∷ model) (mark ∷ suffix), to_upper_mark mark suffix m)
        (before_mark-append whole (to_upper suffix) mark (NoMark-to_upper (first ∷ model) h) m) in
    let plain = before_mark_all whole (NoMark-to_upper (first ∷ model) h) in
    let shape = to_upper-cons first model in
    let same = cut_suffix_lem _ _ _ (cut ∙ shape) ∙ sym (cut_suffix_lem _ _ _ (plain ∙ shape)) in
    λ i. resolve_type (same i) (to_upper family)
