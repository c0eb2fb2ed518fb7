-- ===== src/Base/Dict.antt =====
-- A Go map with string keys, as an association list. Its order is that of insertion; where the
-- sources iterate over a map, the order of the list stands for the one that the runtime picks.
use kasa_exporter.Base.{
  ◌≡◌, refl, subst, ◌≢◌, inl, inr, Option, none, some, List, [], ◌∷◌, arith, if◌then◌else◌,
  Bool-cases, All, is_some,
}
use kasa_exporter.Base.Text.{contains, Text, ◌==ₜ◌, ==ₜ_iff}

abbrev pub Dict {ℓ} : Type ℓ → Type ℓ
Dict V = List (Text × V)

module _ {ℓ} {V : Type ℓ} where
  -- v, ok := dict[key]
  unfoldable pub lookup : (key : Text) (dict : Dict V) → Option V
  lookup key [] = none
  lookup key ((own, value) ∷ rest) = if own ==ₜ key then some value else lookup key rest

  -- dict[key] = new
  unfoldable pub insert : (key : Text) (new : V) (dict : Dict V) → Dict V
  insert key new [] = (key, new) ∷ []
  insert key new ((own, value) ∷ rest) =
      if own ==ₜ key then (key, new) ∷ rest else (own, value) ∷ insert key new rest

  pub lookup-insert :
      (key sought : Text) (new : V) (dict : Dict V)
      → lookup sought (insert key new dict)
        ≡ (if key ==ₜ sought then some new else lookup sought dict)
  unfolding lookup insert
  lookup-insert key sought new [] = refl
  lookup-insert key sought new ((own, value) ∷ rest) =
      let later = lookup-insert key sought new rest in
      ground (arith, later, ==ₜ_iff own key, ==ₜ_iff own sought, ==ₜ_iff key sought)

  -- Keys, and that no key stands twice.
  abbrev pub keys : Dict V → List Text
  keys [] = []
  keys ((k, v) ∷ m) = k ∷ keys m

module _ {V : Type 0} where
  pub contains-keys : (d : Dict V) (n : Text) → contains (keys d) n ≡ is_some (lookup n d)
  unfolding contains lookup
  contains-keys [] n = refl
  contains-keys ((k, v) ∷ d) n = let later = contains-keys d n in ground arith

abbrev pub Distinct : List Text → Type 0
Distinct [] = Unit
Distinct (k ∷ ks) = All (λ j. j ≢ k) ks × Distinct ks

module _ {ℓ} {V : Type ℓ} where
  keys-insert_ne :
      (P : Text → Type 0) (k : Text) (v : V) (m : Dict V)
      → P k
      → All P (keys m)
      → All P (keys (insert k v m))
  unfolding insert
  keys-insert_ne P k v [] p h = (p, tt)
  keys-insert_ne P k v ((j, w) ∷ m) p (q, h) = elim (Bool-cases (j ==ₜ k)) [
    | inl same ↦ rw same (p, h)
    | inr other ↦ rw other (q, keys-insert_ne P k v m p h)
  ]

  pub Distinct-insert :
      (k : Text) (v : V) (m : Dict V) → Distinct (keys m) → Distinct (keys (insert k v m))
  unfolding insert
  Distinct-insert k v [] h = (tt, tt)
  Distinct-insert k v ((j, w) ∷ m) (fresh, h) = elim (Bool-cases (j ==ₜ k)) [
    | inl same ↦ rw same (subst (λ x. All (λ i. i ≢ x) (keys m)) ((==ₜ_iff j k).0 same) fresh, h)
    | inr other ↦ rw other (
      keys-insert_ne (λ i. i ≢ j) k v m (λ e. ground (arith, ==ₜ_iff j k)) fresh,
      Distinct-insert k v m h,
    )
  ]
