-- ===== src/Collector/Selection/Registered/OptedIn.antt =====
-- Which of the registered collectors run when the defaults are disabled.
use kasa_exporter.Base.{
  true, ◌≡◌, refl, ap, ◌∙◌, inl, inr, Bool, ◌&&◌, List, [], ◌∷◌, arith, Bool-cases, All, is_some,
  Option, some, none,
}
use kasa_exporter.Base.Text.{Text, ◌==ₜ◌, ==ₜ_iff, contains}
use kasa_exporter.Base.Order.{sort_by, place, leb_text}
use kasa_exporter.Collector.Selection.Toggles.{
  toggle_tag, new_toggles, parsed_into, pointed_at, new_toggles_lem, toggle_tag,
}
use kasa_exporter.Base.Dict.{Dict, lookup, insert}
use kasa_exporter.Errors.{Result, ok}
use kasa_exporter.Collector.Selection.{
  Selection, within, disable_unforced, disable_default_collectors, initiate, with_collector,
  build_collectors, check_filters, new_kasa_collector,
}
use kasa_exporter.Collector.Selection.Chosen.{chosen, new_kasa_collector-chosen}
use kasa_exporter.Collector.Selection.States.{
  PathElement, mark_forced, mark_forced_collectors, register_collector,
}
use kasa_exporter.Collector.Selection.States.Forced.{set_by, contains-mark_forced}
use kasa_exporter.Collector.Selection.Registered.{Made, registered, factory}

chosen-disable_unforced :
    (forced : List Text) (states : Dict Bool) (h : Text)
    → chosen [] (disable_unforced forced states) h ≡ (contains forced h && chosen [] states h)
unfolding disable_unforced
chosen-disable_unforced forced [] h = ground arith
chosen-disable_unforced forced ((name, enabled) ∷ states) h =
    let later = chosen-disable_unforced forced states h in
    elim (Bool-cases (name ==ₜ h)) [
      | inl same ↦
          let equal = ap (contains forced) ((==ₜ_iff name h).0 same) in
          ground (arith, later, equal, same)
      | inr other ↦ ground (arith, later, other)
    ]

-- The state of the collector is what the command line says of its flag.
abbrev IsParsed : (Text → Bool) → Text × Bool → Type 0
IsParsed parsed (name, enabled) = enabled ≡ parsed (toggle_tag name true)

chosen-IsParsed :
    (parsed : Text → Bool) (states : Dict Bool) (h : Text)
    → All (IsParsed parsed) states
    → chosen [] states h ≡ (is_some (lookup h states) && parsed (toggle_tag h true))
unfolding lookup
chosen-IsParsed parsed [] h on = ground arith
chosen-IsParsed parsed ((name, enabled) ∷ states) h (e, on) =
    let later = chosen-IsParsed parsed states h on in
    elim (Bool-cases (name ==ₜ h)) [
      | inl same ↦
          let equal = ap (λ n. parsed (toggle_tag n true)) ((==ₜ_iff name h).0 same) in
          ground (arith, later, e, equal, same)
      | inr other ↦ ground (arith, later, other)
    ]

-- The factory of the name makes a collector.
abbrev IsMade : Text × Bool → Type 0
IsMade (name, enabled) = (made : Made) × (factory name ≡ ok made)

disable_unforced-IsMade :
    (forced : List Text) (states : Dict Bool)
    → All IsMade states
    → All IsMade (disable_unforced forced states)
unfolding disable_unforced
disable_unforced-IsMade forced [] made = tt
disable_unforced-IsMade forced ((name, enabled) ∷ states) (m, made) =
    (m, disable_unforced-IsMade forced states made)

abbrev IsBuilt : Result (Dict Made) × Dict Made → Type 0
IsBuilt x = (out : Dict Made) × (x.0 ≡ ok out)

with_collector-IsBuilt :
    (name : Text) (m : Made) (collectors initiated : Dict Made) (cached : Option Made)
    (rest : Dict Made → Dict Made → Result (Dict Made) × Dict Made)
    → factory name ≡ ok m
    → ((more cached : Dict Made) → IsBuilt (rest more cached))
    → IsBuilt (with_collector factory name collectors (initiate factory name initiated cached) rest)
with_collector-IsBuilt name m collectors initiated (some own) rest e builds =
    builds (insert name own collectors) initiated
with_collector-IsBuilt name m collectors initiated none rest e builds =
    rw (e, with_collector, initiate) (builds (insert name m collectors) (insert name m initiated))

build_collectors-IsBuilt :
    (filters : List Text) (states : Dict Bool) (collectors initiated : Dict Made)
    → All IsMade states
    → IsBuilt (build_collectors factory filters states collectors initiated)
unfolding build_collectors
build_collectors-IsBuilt filters [] collectors initiated made = (collectors, refl)
build_collectors-IsBuilt filters ((name, enabled) ∷ states) collectors initiated ((m, e), made) =
    elim (Bool-cases (enabled && within filters name)) [
      | inl kept ↦ rw kept (
          with_collector-IsBuilt name m collectors initiated (lookup name initiated)
            (λ more cached. build_collectors factory filters states more cached) e
            (λ more cached. build_collectors-IsBuilt filters states more cached made))
      | inr left ↦ rw left (build_collectors-IsBuilt filters states collectors initiated made)
    ]

-- The states once the command line was parsed into the flags of the collectors.
abbrev pub started : (Text → Bool) → Selection Made
started parsed = parsed_into parsed (new_toggles registered.enabled registered) registered

started-IsParsed : (parsed : Text → Bool) → All (IsParsed parsed) (started parsed).enabled
unfolding registered new_toggles pointed_at register_collector insert lookup ◌==ₜ◌ sort_by place
    leb_text
started-IsParsed parsed = (refl, (refl, (refl, (refl, (refl, (refl, (refl, (refl, tt))))))))

started-IsMade : (parsed : Text → Bool) → All IsMade (started parsed).enabled
unfolding registered new_toggles pointed_at register_collector insert lookup ◌==ₜ◌ sort_by place
    leb_text factory
started-IsMade parsed = (
  (_, refl),
  ((_, refl), ((_, refl), ((_, refl), ((_, refl), ((_, refl), ((_, refl), ((_, refl), tt))))))),
)

started_forced : (parsed : Text → Bool) → (started parsed).forced ≡ []
unfolding registered register_collector new_toggles
started_forced parsed = refl

-- The collectors that run when the defaults are disabled.
abbrev pub opted_in : (Text → Bool) → List PathElement → Result (Dict Made) × Selection Made
opted_in parsed path =
    new_kasa_collector factory
      (disable_default_collectors (mark_forced_collectors path (started parsed))) []

opted_in-IsBuilt :
    (parsed : Text → Bool) (path : List PathElement) → IsBuilt ((opted_in parsed path).0, [])
unfolding new_kasa_collector check_filters disable_default_collectors mark_forced_collectors
opted_in-IsBuilt parsed path =
    let s = started parsed in
    let forced = mark_forced s.enabled path s.forced in
    build_collectors-IsBuilt [] (disable_unforced forced s.enabled) [] s.initiated
      (disable_unforced-IsMade forced s.enabled (started-IsMade parsed))

opted_in-chosen :
    (parsed : Text → Bool) (path : List PathElement) (h : Text)
    → chosen []
        (disable_default_collectors (mark_forced_collectors path (started parsed))).enabled
        h
      ≡ (is_some (lookup h registered.enabled) && (set_by h path && parsed (toggle_tag h true)))
unfolding disable_default_collectors mark_forced_collectors contains
opted_in-chosen parsed path h =
    let s = started parsed in
    let forced = mark_forced s.enabled path s.forced in
    let marks = contains-mark_forced s.enabled path s.forced h in
    let none_before = ap (λ f. contains f h) (started_forced parsed) in
    let left = chosen-disable_unforced forced s.enabled h in
    let on = chosen-IsParsed parsed s.enabled h (started-IsParsed parsed) in
    let known = (new_toggles_lem registered.enabled registered parsed h).1 in
    ground (arith, marks, none_before, left, on, known)

-- After the program's start with the defaults disabled and without a filter, the set of collectors is
-- always built, and a name is in it exactly if one of the eight files registers it, the flag
-- --collector.name or its negation stands on the command line itself, and the parser says true for the
-- flag that has the collector's tag.
pub opted_in_lem :
    (parsed : Text → Bool) (path : List PathElement) (h : Text)
    → (out : Dict Made) × ((opted_in parsed path).0 ≡ ok out)
      × (is_some (lookup h out) ≡ (
          is_some (lookup h registered.enabled) && (set_by h path && parsed (toggle_tag h true))))
opted_in_lem parsed path h =
    let (out, e) = opted_in-IsBuilt parsed path in
    (
      out,
      e,
      new_kasa_collector-chosen factory
            (disable_default_collectors (mark_forced_collectors path (started parsed))) [] out h e
          ∙ opted_in-chosen parsed path h,
    )
