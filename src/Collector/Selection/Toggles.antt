-- ===== src/Collector/Selection/Toggles.antt =====
-- The command-line flags of collector/collector.go, one for each collector that is registered. kong reads
-- the tags of a struct that is assembled at run time; here that struct is the list of its fields.
use mathlib.Core.Option
use kasa_exporter.Base.{
  zero, suc, ℕ, sym, ◌≡◌, refl, ap, ◌∙◌, inl, inr, Bool, true, false, Option, none, some, List, [],
  ◌∷◌, ◌++◌, map, arith, if◌then◌else◌, Bool-cases, is_some,
}
use kasa_exporter.Base.Text.{==ₜ_iff, ◌==ₜ◌, contains, Text, codes}
use kasa_exporter.Base.Order.{sort_by, contains-sort_by}
use kasa_exporter.Base.Dict.{Dict, lookup, insert, keys, contains-keys, lookup-insert}
use kasa_exporter.Collector.Selection.{Selection}

-- A field: the collector, the tag, and the bool that the state of the collector points to.
pub record Toggle : Type 0 where
  pub collector : Text
  pub tag : Text
  pub value : Bool

abbrev quoted : Text → Text
quoted s = 34 ∷ (s ++ 34 ∷ [])

abbrev bool_text : Bool → Text
bool_text true = codes "true"
bool_text false = codes "false"

abbrev default_state : Bool → Text
default_state true = codes "enabled"
default_state false = codes "disabled"

abbrev toggle_help : (collector state : Text) → Text
toggle_help collector state =
    codes "Enable the " ++ (collector ++ (codes " collector (default: " ++ (state ++ codes ").")))

-- `toggleTag`
unfoldable pub toggle_tag : (collector : Text) (is_default_enabled : Bool) → Text
toggle_tag collector is_default_enabled =
    let name = codes "name:" ++ quoted (codes "collector." ++ collector) in
    let negatable = codes " negatable:" ++ quoted [] in
    let default_value = codes " default:" ++ quoted (bool_text is_default_enabled) in
    let help =
      codes " help:" ++ quoted (toggle_help collector (default_state is_default_enabled)) in
    name ++ (negatable ++ (default_value ++ help))

-- A missing key of a map of bools is false.
abbrev pub holds : Option Bool → Bool
holds none = false
holds (some b) = b

abbrev pub toggle_of : (defaults states : Dict Bool) → Text → Toggle
toggle_of defaults states name = record {
  collector = name;
  tag = toggle_tag name (holds (lookup name defaults));
  value = holds (lookup name states);
}

-- `collectorState` has pointers: to the variable of a `registerCollector`, or to a field of the group by
-- its index.
pub data Pointer : Type 0 where
  own : (enabled : Bool) → Pointer
  field : (i : ℕ) → Pointer

-- The second loop of `newToggles`, from index `i` on: collectorState[name] = field.
unfoldable pub pointed_at : ℕ → (names : List Text) → Dict Pointer → Dict Pointer
pointed_at i [] pointers = pointers
pointed_at i (name ∷ names) pointers = pointed_at (suc i) names (insert name (field i) pointers)

abbrev pub own_variables : Dict Bool → Dict Pointer
own_variables [] = []
own_variables ((name, enabled) ∷ states) = (name, own enabled) ∷ own_variables states

-- What is read through the pointers.
abbrev pub field_at : List Toggle → ℕ → Bool
field_at [] i = false
field_at (t ∷ ts) zero = t.value
field_at (t ∷ ts) (suc i) = field_at ts i

abbrev pub deref : List Toggle → Pointer → Bool
deref group (own enabled) = enabled
deref group (field i) = field_at group i

abbrev pub states_of : List Toggle → Dict Pointer → Dict Bool
states_of group [] = []
states_of group ((name, p) ∷ pointers) = (name, deref group p) ∷ states_of group pointers

module _ {C : Type 0} where
  -- `newToggles`, with `collectorDefaults`: the group of fields, and `collectorState` afterwards.
  unfoldable pub new_toggles : (defaults : Dict Bool) → Selection C → List Toggle × Dict Pointer
  unfolding toggle_tag pointed_at
  new_toggles defaults s =
      let names = sort_by (λ name. name) (keys s.enabled) in
      (map (toggle_of defaults s.enabled) names, pointed_at 0 names (own_variables s.enabled))

-- kong writes what it parsed for the flag of a field's tag into that field.
abbrev pub kong_writes : (parsed : (tag : Text) → Bool) → List Toggle → List Toggle
kong_writes parsed = map {A = Toggle} (λ t. record t { value = parsed t.tag })

-- The fields from index `i` on have the values that `f` says.
abbrev Holds : (ℕ → Bool) → (Text → Bool) → ℕ → List Text → Type 0
Holds v f i [] = Unit
Holds v f i (name ∷ names) = (v i ≡ f name) × Holds v f (suc i) names

Holds-suc :
    (v : ℕ → Bool) (f : Text → Bool) (i : ℕ) (names : List Text)
    → Holds (λ j. v (suc j)) f i names
    → Holds v f (suc i) names
Holds-suc v f i [] h = tt
Holds-suc v f i (name ∷ names) (e, h) = (e, Holds-suc v f (suc i) names h)

Holds-field_at :
    (f : Text → Bool) (toggle : Text → Toggle) (names : List Text)
    → ((name : Text) → (toggle name).value ≡ f name)
    → Holds (field_at (map toggle names)) f 0 names
Holds-field_at f toggle [] h = tt
Holds-field_at f toggle (name ∷ names) h = (
  h name,
  Holds-suc (field_at (map toggle (name ∷ names))) f 0 names (Holds-field_at f toggle names h),
)

lookup-states_of :
    (group : List Toggle) (pointers : Dict Pointer) (n : Text)
    → lookup n (states_of group pointers) ≡ Option.map (deref group) (lookup n pointers)
unfolding lookup
lookup-states_of group [] n = refl
lookup-states_of group ((name, p) ∷ pointers) n =
    let later = lookup-states_of group pointers n in
    elim (Bool-cases (name ==ₜ n)) [ inl same ↦ rw same refl | inr other ↦ rw other later ]

lookup-insert_pointer :
    (group : List Toggle) (name n : Text) (i : ℕ) (pointers : Dict Pointer)
    → lookup n (states_of group (insert name (field i) pointers))
      ≡ (if name ==ₜ n then some (field_at group i) else lookup n (states_of group pointers))
lookup-insert_pointer group name n i pointers =
    let first = lookup-states_of group (insert name (field i) pointers) n in
    let before = lookup-states_of group pointers n in
    let put = lookup-insert name n (field i) pointers in
    elim (Bool-cases (name ==ₜ n)) [
      | inl same ↦ rw same (first ∙ ap (Option.map (deref group)) (rw same at put))
      | inr other ↦ rw other (first ∙ ap (Option.map (deref group)) (rw other at put) ∙ sym before)
    ]

lookup-pointed_at :
    (group : List Toggle) (f : Text → Bool) (i : ℕ) (names : List Text) (pointers : Dict Pointer)
    (n : Text)
    → Holds (field_at group) f i names
    → lookup n (states_of group (pointed_at i names pointers))
      ≡ (if contains names n then some (f n) else lookup n (states_of group pointers))
unfolding pointed_at contains
lookup-pointed_at group f i [] pointers n h = refl
lookup-pointed_at group f i (name ∷ names) pointers n (e, h) =
    let later = lookup-pointed_at group f (suc i) names (insert name (field i) pointers) n h in
    let put = lookup-insert_pointer group name n i pointers in
    elim (Bool-cases (name ==ₜ n)) [
      | inl same ↦
          let equal = ap (λ x. some (f x)) ((==ₜ_iff name n).0 same) in
          ground (arith, later, put, e, equal, same)
      | inr other ↦ ground (arith, later, put, other)
    ]

lookup-own_variables :
    (group : List Toggle) (states : Dict Bool) (n : Text)
    → lookup n (states_of group (own_variables states)) ≡ lookup n states
unfolding lookup
lookup-own_variables group [] n = refl
lookup-own_variables group ((name, enabled) ∷ states) n =
    ap (λ r. if name ==ₜ n then some enabled else r) (lookup-own_variables group states n)

-- All names that are registered, read through the pointers to fields with the values that `f` says.
read_toggles :
    (f : Text → Bool) (toggle : Text → Toggle) (states : Dict Bool) (n : Text)
    → ((name : Text) → (toggle name).value ≡ f name)
    → (let names = sort_by (λ name. name) (keys states) in
        lookup n (states_of (map toggle names) (pointed_at 0 names (own_variables states)))
        ≡ (if is_some (lookup n states) then some (f n) else lookup n states))
read_toggles f toggle states n h =
    let names = sort_by (λ name. name) (keys states) in
    let group = map toggle names in
    let listed = contains-sort_by (keys states) n ∙ contains-keys states n in
    lookup-pointed_at group f 0 names (own_variables states) n (Holds-field_at f toggle names h)
    ∙ (λ i. if listed i then some (f n) else lookup-own_variables group states n i)

kept_value : (o : Option Bool) → (if is_some o then some (holds o) else o) ≡ o
kept_value none = refl
kept_value (some b) = refl

parsed_value :
    (b : Bool) (o : Option Bool) → (if is_some o then some b else o) ≡ Option.map (λ _. b) o
parsed_value b none = refl
parsed_value b (some c) = refl

kong_writes-map :
    (parsed : Text → Bool) (toggle : Text → Toggle) (names : List Text)
    → kong_writes parsed (map toggle names)
      ≡ map (λ name. record (toggle name) { value = parsed (toggle name).tag }) names
kong_writes-map parsed toggle [] = refl
kong_writes-map parsed toggle (name ∷ names) =
    ap (λ ts. record (toggle name) { value = parsed (toggle name).tag } ∷ ts)
      (kong_writes-map parsed toggle names)

module _ {C : Type 0} where
  -- The state once the command line was parsed into the group.
  abbrev pub parsed_into :
      (parsed : (tag : Text) → Bool) → List Toggle × Dict Pointer → Selection C → Selection C
  parsed_into parsed (group, pointers) s = record s {
    enabled = states_of (kong_writes parsed group) pointers;
  }

  -- The flags change no state until they are parsed; afterwards each registered collector is enabled as the
  -- parser says for the flag with the collector's own tag, and nothing else is registered.
  pub new_toggles_lem :
      (defaults : Dict Bool) (s : Selection C) (parsed : (tag : Text) → Bool) (n : Text)
      → (lookup n (states_of (new_toggles defaults s).0 (new_toggles defaults s).1)
          ≡ lookup n s.enabled)
        × (lookup n (parsed_into parsed (new_toggles defaults s) s).enabled
            ≡ Option.map
                (λ _. parsed (toggle_tag n (holds (lookup n defaults))))
                (lookup n s.enabled))
  unfolding new_toggles
  new_toggles_lem defaults s parsed n =
      let states = s.enabled in
      let names = sort_by (λ name. name) (keys states) in
      let toggle = toggle_of defaults states in
      let value : Text → Bool = λ name. parsed (toggle_tag name (holds (lookup name defaults))) in
      (
        read_toggles (λ name. holds (lookup name states)) toggle states n (λ name. refl)
            ∙ kept_value (lookup n states),
        ap (λ g. lookup n (states_of g (pointed_at 0 names (own_variables states))))
              (kong_writes-map parsed toggle names)
            ∙ read_toggles value (λ name. record (toggle name) { value = value name }) states n
                (λ name. refl)
            ∙ parsed_value (value n) (lookup n states),
      )
