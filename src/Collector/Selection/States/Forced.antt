-- ===== src/Collector/Selection/States/Forced.antt =====
-- Which collectors collector/collector.go leaves enabled without its defaults, and what a restored
-- snapshot comes to.
use mathlib.Core.Option
use kasa_exporter.Base.{
  inl, inr, not, ◌++◌, ◌==◌, ◌≡◌, refl, sym, ap, ◌∙◌, ◌≢◌, inl, inr, Bool, false, ◌&&◌, ◌||◌,
  Option, none, some, List, [], ◌∷◌, arith, if◌then◌else◌, Bool-cases, All, is_some,
}
use kasa_exporter.Base.Text.{codes, Text, ◌==ₜ◌, ==ₜ_iff, contains}
use kasa_exporter.Base.Dict.{Dict, lookup, insert, lookup-insert, keys, Distinct}
use kasa_exporter.Collector.Selection.{Selection, disable_default_collectors}
use kasa_exporter.Collector.Selection.Chosen.{disable_default_collectors_lem}
use kasa_exporter.Collector.Selection.States.{
  snapshot_collector_states, restored, restore_states, mark_forced_collectors, mark_forced, given,
  marked, force, PathElement, cut_prefix, collector_of,
}

-- v == some(h)
infix 50 ◌==ₒ◌
abbrev ◌==ₒ◌ : Option Text → Text → Bool
none ==ₒ h = false
some name ==ₒ h = name ==ₜ h

-- The flag is --collector.h or its negation.
abbrev pub is_flag_of : Text → Option Text → Bool
is_flag_of h none = false
is_flag_of h (some flag) = flag ==ₜ (codes "collector." ++ h)

-- The collector's own flag was given on the command line, either way, and not taken from elsewhere.
abbrev pub set_by : Text → List PathElement → Bool
set_by h [] = false
set_by h (p ∷ ps) = (not p.resolved && is_flag_of h p.flag) || set_by h ps

cut_prefix-==ₒ : (s prefix h : Text) → (cut_prefix s prefix ==ₒ h) ≡ (s ==ₜ (prefix ++ h))
unfolding cut_prefix ◌==ₜ◌
cut_prefix-==ₒ s [] h = refl
cut_prefix-==ₒ [] (p ∷ prefix) h = refl
cut_prefix-==ₒ (c ∷ s) (p ∷ prefix) h =
    let rest = cut_prefix-==ₒ s prefix h in
    elim (Bool-cases (c == p)) [ inl same ↦ rw same rest | inr other ↦ rw other refl ]

collector_of_lem : (h : Text) (flag : Option Text) → (collector_of flag ==ₒ h) ≡ is_flag_of h flag
collector_of_lem h none = refl
collector_of_lem h (some flag) = cut_prefix-==ₒ flag (codes "collector.") h

given_lem : (h : Text) (p : PathElement) → (given p ==ₒ h) ≡ (not p.resolved && is_flag_of h p.flag)
given_lem h p =
    let own = collector_of_lem h p.flag in
    elim (Bool-cases p.resolved) [ inl other ↦ rw other refl | inr line ↦ rw line own ]

contains-force :
    (name h : Text) (forced : List Text)
    → contains (force name forced) h ≡ (name ==ₜ h || contains forced h)
unfolding contains
contains-force name h forced = elim (Bool-cases (name ==ₜ h)) [
  | inl same ↦
      let equal = ap (contains forced) ((==ₜ_iff name h).0 same) in ground (arith, equal, same)
  | inr other ↦ ground (arith, other)
]

contains-marked :
    (states : Dict Bool) (name : Option Text) (forced : List Text) (h : Text)
    → contains (marked states name forced) h
      ≡ (contains forced h || (is_some (lookup h states) && name ==ₒ h))
contains-marked states none forced h = ground arith
contains-marked states (some name) forced h =
    let put = contains-force name h forced in
    elim (Bool-cases (name ==ₜ h)) [
      | inl same ↦
          let equal = ap (λ n. is_some (lookup n states)) ((==ₜ_iff name h).0 same) in
          ground (arith, put, equal, same)
      | inr other ↦ ground (arith, put, other)
    ]

pub contains-mark_forced :
    (states : Dict Bool) (path : List PathElement) (forced : List Text) (h : Text)
    → contains (mark_forced states path forced) h
      ≡ (contains forced h || (is_some (lookup h states) && set_by h path))
unfolding mark_forced
contains-mark_forced states [] forced h = ground arith
contains-mark_forced states (p ∷ ps) forced h =
    let later = contains-mark_forced states ps (marked states (given p) forced) h in
    let first = contains-marked states (given p) forced h in
    let own = given_lem h p in ground (arith, later, first, own)

-- With the defaults disabled after the command line was read, a collector is enabled exactly if its state
-- says so and its own flag was given on the command line, then or at an earlier reading.
pub mark_forced_collectors_lem :
    {C : Type 0} (s : Selection C) (path : List PathElement) (h : Text)
    → lookup h (disable_default_collectors (mark_forced_collectors path s)).enabled
      ≡ Option.map (λ e. (contains s.forced h || set_by h path) && e) (lookup h s.enabled)
unfolding mark_forced_collectors
mark_forced_collectors_lem s path h =
    let marks = contains-mark_forced s.enabled path s.forced h in
    let disabled = disable_default_collectors_lem (mark_forced_collectors path s) h in
    ground (arith, marks, disabled)

-- What one restored name comes to.
abbrev pub get_saved : Option Bool → Bool → Bool
get_saved none now = now
get_saved (some saved) now = saved

abbrev pub back : Option Bool → Option Bool → Option Bool
back saved none = none
back saved (some now) = some (get_saved saved now)

lookup_fresh :
    (name : Text) (saved : Dict Bool) → All (λ j. j ≢ name) (keys saved) → lookup name saved ≡ none
unfolding lookup
lookup_fresh name [] fresh = refl
lookup_fresh name ((other, enabled) ∷ saved) (ne, fresh) =
    let later = lookup_fresh name saved fresh in ground (arith, later, ne, ==ₜ_iff other name)

lookup-restore_states :
    (saved states : Dict Bool) (h : Text)
    → Distinct (keys saved)
    → lookup h (restore_states saved states) ≡ back (lookup h saved) (lookup h states)
unfolding restore_states lookup
lookup-restore_states [] states h distinct = ground arith
lookup-restore_states ((name, enabled) ∷ saved) states h (fresh, distinct) =
    let more = if is_some (lookup name states) then insert name enabled states else states in
    let later = lookup-restore_states saved more h distinct in
    let put = lookup-insert name h enabled states in
    elim (Bool-cases (name ==ₜ h)) [
      | inl same ↦
          let equal = (==ₜ_iff name h).0 same in
          let there = ap (λ n. is_some (lookup n states)) equal in
          let once_only = ap (λ n. lookup n saved) (sym equal) ∙ lookup_fresh name saved fresh in
          ground (arith, later, put, there, once_only, same)
      | inr other ↦ ground (arith, later, put, other)
    ]

-- Restoring a snapshot gives every collector the state that it had then, whatever was changed since; a
-- collector that was registered later keeps its own, and the forced ones are those of the snapshot.
pub restored-snapshot_collector_states :
    {C : Type 0} (s s' : Selection C) (h : Text)
    → Distinct (keys s.enabled)
    → (lookup h (restored (snapshot_collector_states s) s').enabled
        ≡ back (lookup h s.enabled) (lookup h s'.enabled))
      × ((restored (snapshot_collector_states s) s').forced ≡ s.forced)
unfolding restored snapshot_collector_states
restored-snapshot_collector_states s s' h distinct =
    (lookup-restore_states s.enabled s'.enabled h distinct, refl)
