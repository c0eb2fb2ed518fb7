-- ===== src/Base/Text.antt =====
-- Go strings and byte slices: lists of bytes. Equality, order, prefixes and the functions of
-- package strings that the sources call.
use Prim.Native.Char.{code}
use kasa_exporter.Base.{
  ℕ, ◌+◌, ◌-◌, String, ◌≡◌, refl, subst, ◌↔◌, Bool, true, false, ◌&&◌, ◌||◌, List, [], ◌∷◌, map,
  arith, leb, ◌==◌, if◌then◌else◌,
}

abbrev pub Text : Type 0
Text = List ℕ

-- The bytes of an ASCII literal.
abbrev pub codes : String → Text
codes String.[] = []
codes (String.◌∷◌ c s) = code c ∷ codes s

infix 50 ◌==ₜ◌
unfoldable pub ◌==ₜ◌ : Text → Text → Bool
[] ==ₜ [] = true
[] ==ₜ (y ∷ ys) = false
(x ∷ xs) ==ₜ [] = false
(x ∷ xs) ==ₜ (y ∷ ys) = x == y && xs ==ₜ ys

pub ==ₜ_refl : (s : Text) → (s ==ₜ s) ≡ true
unfolding ◌==ₜ◌
==ₜ_refl [] = refl
==ₜ_refl (x ∷ s) = ground (arith, ==ₜ_refl s)

==ₜ-eq : (s t : Text) → (s ==ₜ t) ≡ true → s ≡ t
unfolding ◌==ₜ◌
==ₜ-eq [] [] h = refl
==ₜ-eq [] (y ∷ t) h = cc
==ₜ-eq (x ∷ s) [] h = cc
==ₜ-eq (x ∷ s) (y ∷ t) h = ground (arith, ==ₜ-eq s t)

pub ==ₜ_iff : (s t : Text) → ((s ==ₜ t) ≡ true) ↔ (s ≡ t)
==ₜ_iff s t = (==ₜ-eq s t, λ e. subst (λ u. (s ==ₜ u) ≡ true) e (==ₜ_refl s))

-- slices.Contains, and a `map[string]bool` used as a set.
unfoldable pub contains : List Text → Text → Bool
contains [] s = false
contains (t ∷ ts) s = t ==ₜ s || contains ts s

-- strings.ToUpper on one ASCII byte.
abbrev pub upper_byte : ℕ → ℕ
upper_byte c = if leb b'a' c && leb c b'z' then c - 32 else c

-- strings.ToUpper: model names and families are ASCII.
unfoldable pub to_upper : Text → Text
to_upper = map upper_byte

abbrev pub lower_byte : ℕ → ℕ
lower_byte c = if leb b'A' c && leb c b'Z' then c + 32 else c

-- strings.ToLower, of ASCII.
unfoldable pub to_lower : Text → Text
to_lower = map lower_byte

-- strings.HasPrefix(s, p)
unfoldable pub has_prefix : Text → Text → Bool
has_prefix s [] = true
has_prefix [] (p ∷ ps) = false
has_prefix (c ∷ s) (p ∷ ps) = c == p && has_prefix s ps

-- strings.Contains(s, p)
unfoldable pub has_infix : Text → Text → Bool
unfolding has_prefix
has_infix [] p = has_prefix [] p
has_infix (c ∷ s) p = has_prefix (c ∷ s) p || has_infix s p
