-- ===== src/Config/Hosts.antt =====
-- The addresses that config/kasa.go reads off the flags.
use kasa_exporter.Base.{
  ◌<◌, ◌≡◌, ap, ◌≢◌, inl, inr, Bool, false, ◌||◌, List, [], ◌∷◌, ◌++◌, arith, ◌==◌, Bool-cases,
  length, All, All-append,
}
use kasa_exporter.Base.Text.{Text, ◌==ₜ◌, ==ₜ_iff, contains}
use kasa_exporter.Base.Dict.{Distinct}
use kasa_exporter.Config.{fields_from, trim_space, add_host, add_fields, add_values, parse_hosts}

contains-append :
    (xs : List Text) (x h : Text) → contains (xs ++ x ∷ []) h ≡ (contains xs h || x ==ₜ h)
unfolding contains
contains-append [] x h = ground arith
contains-append (y ∷ xs) x h = let later = contains-append xs x h in ground arith

-- What holds of the addresses that were taken so far.
abbrev pub Clean : List Text → Type 0
Clean hosts = Distinct hosts × All (λ h. 0 < length h) hosts

not-contains : (xs : List Text) (h : Text) → contains xs h ≡ false → All (λ x. h ≢ x) xs
unfolding contains
not-contains [] h e = tt
not-contains (x ∷ xs) h e =
    let same = ==ₜ_iff x h in (λ equal. ground arith, not-contains xs h (ground arith))

Distinct-append :
    (xs : List Text) (h : Text) → Distinct xs → All (λ x. h ≢ x) xs → Distinct (xs ++ h ∷ [])
Distinct-append [] h d n = (tt, tt)
Distinct-append (x ∷ xs) h (other, d) (ne, n) =
    (All-append (λ j. j ≢ x) xs (h ∷ []) other (ne, tt), Distinct-append xs h d n)

add_host-Clean : (hosts : List Text) (h : Text) → Clean hosts → Clean (add_host hosts h)
add_host-Clean hosts h (d, full) = elim (Bool-cases (length h == 0 || contains hosts h)) [
  | inl skipped ↦ rw skipped (d, full)
  | inr taken ↦
      let new : contains hosts h ≡ false = ground arith in
      let some_byte : 0 < length h = ground arith in
      rw taken (
        Distinct-append hosts h d (not-contains hosts h new),
        All-append (λ k. 0 < length k) hosts (h ∷ []) full (some_byte, tt),
      )
]

add_host-contains :
    (hosts : List Text) (host h : Text)
    → 0 < length h
    → contains (add_host hosts host) h ≡ (contains hosts h || host ==ₜ h)
add_host-contains hosts host h full =
    let put = contains-append hosts host h in
    elim (Bool-cases (host ==ₜ h)) [
      | inl same ↦
          let equal : host ≡ h = (==ₜ_iff host h).0 same in
          let len = ap (λ t. length t) equal in
          let known = ap (contains hosts) equal in ground arith
      | inr other ↦ ground arith
    ]

add_fields-Clean : (hosts fields : List Text) → Clean hosts → Clean (add_fields hosts fields)
unfolding add_fields
add_fields-Clean hosts [] c = c
add_fields-Clean hosts (field ∷ fields) c =
    add_fields-Clean (add_host hosts (trim_space field)) fields
      (add_host-Clean hosts (trim_space field) c)

add_values-Clean : (hosts values : List Text) → Clean hosts → Clean (add_values hosts values)
unfolding add_values
add_values-Clean hosts [] c = c
add_values-Clean hosts (value ∷ values) c =
    add_values-Clean (add_fields hosts (fields_from [] value)) values
      (add_fields-Clean hosts (fields_from [] value) c)

-- Some field of some value is the address, once the space around it is taken off.
abbrev pub field_names : Text → List Text → Bool
field_names h [] = false
field_names h (field ∷ fields) = trim_space field ==ₜ h || field_names h fields

abbrev pub named : Text → List Text → Bool
named h [] = false
named h (value ∷ values) = field_names h (fields_from [] value) || named h values

add_fields-contains :
    (hosts fields : List Text) (h : Text)
    → 0 < length h
    → contains (add_fields hosts fields) h ≡ (contains hosts h || field_names h fields)
unfolding add_fields
add_fields-contains hosts [] h full = ground arith
add_fields-contains hosts (field ∷ fields) h full =
    let later = add_fields-contains (add_host hosts (trim_space field)) fields h full in
    let first = add_host-contains hosts (trim_space field) h full in ground arith

add_values-contains :
    (hosts values : List Text) (h : Text)
    → 0 < length h
    → contains (add_values hosts values) h ≡ (contains hosts h || named h values)
unfolding add_values
add_values-contains hosts [] h full = ground arith
add_values-contains hosts (value ∷ values) h full =
    let later = add_values-contains (add_fields hosts (fields_from [] value)) values h full in
    let first = add_fields-contains hosts (fields_from [] value) h full in ground arith

-- No address is taken twice, and none is empty, so that none is connected to twice.
pub parse_hosts-Clean : (values : List Text) → Clean (parse_hosts values)
unfolding parse_hosts
parse_hosts-Clean values = add_values-Clean [] values (tt, tt)

-- Every address of the flags is taken: one is polled exactly if some field of some value is it, once the
-- space around it is taken off.
pub parse_hosts-contains :
    (values : List Text) (h : Text)
    → 0 < length h
    → contains (parse_hosts values) h ≡ named h values
unfolding parse_hosts contains
parse_hosts-contains values h full = add_values-contains [] values h full
