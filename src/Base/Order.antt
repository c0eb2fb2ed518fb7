-- ===== src/Base/Order.antt =====
-- The order of Go strings, and sort.Slice by a text key as insertion sort.
use mathlib.Core.List.{Perm}
use mathlib.Core.List.Perm
use kasa_exporter.Base.{
  ◌≡◌, refl, ap, ◌∙◌, inl, inr, Bool, true, false, ◌&&◌, ◌||◌, List, [], ◌∷◌, arith, ltb, ◌==◌,
  if◌then◌else◌, Bool-cases, All,
}
use kasa_exporter.Base.Text.{Text, ◌==ₜ◌, contains}

-- s <= t, byte by byte.
unfoldable pub leb_text : Text → Text → Bool
leb_text [] t = true
leb_text (x ∷ s) [] = false
leb_text (x ∷ s) (y ∷ t) = ltb x y || (x == y && leb_text s t)

pub leb_text_total : (s t : Text) → leb_text s t ≡ false → leb_text t s ≡ true
unfolding leb_text
leb_text_total [] t h = cc h
leb_text_total (x ∷ s) [] h = refl
leb_text_total (x ∷ s) (y ∷ t) h = ground (arith, leb_text_total s t)

pub leb_text_trans :
    (s t u : Text) → leb_text s t ≡ true → leb_text t u ≡ true → leb_text s u ≡ true
unfolding leb_text
leb_text_trans [] t u h k = refl
leb_text_trans (x ∷ s) [] u h k = cc h
leb_text_trans (x ∷ s) (y ∷ t) [] h k = cc k
leb_text_trans (x ∷ s) (y ∷ t) (z ∷ u) h k = ground (arith, leb_text_trans s t u)

module _ {A : Type 0} (key : A → Text) where
  unfoldable pub place : A → List A → List A
  place a [] = a ∷ []
  place a (b ∷ bs) = if leb_text (key a) (key b) then a ∷ b ∷ bs else b ∷ place a bs

  -- sort.Slice with the order of the keys.
  unfoldable pub sort_by : List A → List A
  unfolding place
  sort_by [] = []
  sort_by (a ∷ rest) = place a (sort_by rest)

  abbrev pub IsSorted : List A → Type 0
  IsSorted [] = Unit
  IsSorted (a ∷ bs) = All (λ b. leb_text (key a) (key b) ≡ true) bs × IsSorted bs

  place-All : (P : A → Type 0) (a : A) (bs : List A) → P a → All P bs → All P (place a bs)
  unfolding place
  place-All P a [] p h = (p, tt)
  place-All P a (b ∷ bs) p (q, h) = elim (Bool-cases (leb_text (key a) (key b))) [
    | inl le ↦ rw le (p, (q, h))
    | inr gt ↦ rw gt (q, place-All P a bs p h)
  ]

  All-after :
      (a b : A) (bs : List A)
      → leb_text (key a) (key b) ≡ true
      → All (λ c. leb_text (key b) (key c) ≡ true) bs
      → All (λ c. leb_text (key a) (key c) ≡ true) bs
  All-after a b [] h k = tt
  All-after a b (c ∷ bs) h (p, k) =
      (leb_text_trans (key a) (key b) (key c) h p, All-after a b bs h k)

  place-IsSorted : (a : A) (bs : List A) → IsSorted bs → IsSorted (place a bs)
  unfolding place
  place-IsSorted a [] h = (tt, tt)
  place-IsSorted a (b ∷ bs) (below, h) = elim (Bool-cases (leb_text (key a) (key b))) [
    | inl le ↦ rw le ((le, All-after a b bs le below), (below, h))
    | inr gt ↦ rw gt (
      place-All (λ c. leb_text (key b) (key c) ≡ true) a bs (leb_text_total (key a) (key b) gt)
          below,
      place-IsSorted a bs h,
    )
  ]

  pub sort_by-IsSorted : (l : List A) → IsSorted (sort_by l)
  unfolding sort_by
  sort_by-IsSorted [] = tt
  sort_by-IsSorted (a ∷ l) = place-IsSorted a (sort_by l) (sort_by-IsSorted l)

  place-perm : (a : A) (bs : List A) → Perm (place a bs) (a ∷ bs)
  unfolding place
  place-perm a [] = Perm.refl (a ∷ [])
  place-perm a (b ∷ bs) = elim (Bool-cases (leb_text (key a) (key b))) [
    | inl le ↦ rw le (Perm.refl (a ∷ b ∷ bs))
    | inr gt ↦ rw gt (Perm.trans (Perm.cons b (place-perm a bs)) (Perm.swap a b bs))
  ]

  pub sort_by-perm : (l : List A) → Perm (sort_by l) l
  unfolding sort_by
  sort_by-perm [] = Perm.refl []
  sort_by-perm (a ∷ l) = Perm.trans (place-perm a (sort_by l)) (Perm.cons a (sort_by-perm l))

contains-place :
    (s : Text) (ts : List Text) (n : Text)
    → contains (place (λ t. t) s ts) n ≡ (s ==ₜ n || contains ts n)
unfolding place contains
contains-place s [] n = refl
contains-place s (t ∷ ts) n = let later = contains-place s ts n in ground arith

-- Sorting keeps what is there.
pub contains-sort_by :
    (ts : List Text) (n : Text) → contains (sort_by (λ t. t) ts) n ≡ contains ts n
unfolding sort_by contains
contains-sort_by [] n = refl
contains-sort_by (t ∷ ts) n =
    contains-place t (sort_by (λ t. t) ts) n ∙ ap (λ b. t ==ₜ n || b) (contains-sort_by ts n)
