-- ===== src/Collector/Selection/States.antt =====
-- The states of the collectors in collector/collector.go: how they are registered, which of them the
-- command line set, and how they are saved and restored. kong's parsed path is the argument.
pub mod Forced
use kasa_exporter.Base.{
  ℕ, zero, suc, ◌+◌, ◌-◌, ◌*◌, ◌/◌, ◌%◌, ◌^◌, ◌≤◌, ◌<◌, String, ◌≡◌, refl, sym, ap, ◌∙◌, subst, ◌≢◌,
  ◌↔◌, ◌⊎◌, inl, inr, Bool, true, false, not, ◌&&◌, ◌||◌, Option, none, some, List, [], ◌∷◌, ◌++◌,
  map, arith, ltb, leb, ◌==◌, if◌then◌else◌, ltb→lt, lt→ltb, leb→le, ==_iff, Bool-cases,
  Option-cases, length, get_elem?, set, get_or, take, drop, replicate, length-append,
  take-append-drop, length-take, length-drop, length-replicate, length-map, All, Any, take_all,
  drop_all, take-append, drop-append, is_some, All-append, All-take, All-drop,
}
use kasa_exporter.Base.Text.{
  Text, codes, ◌==ₜ◌, ==ₜ_iff, ==ₜ_refl, contains, upper_byte, to_upper, has_prefix, has_infix,
}
use kasa_exporter.Base.Dict.{Dict, lookup, insert}
use kasa_exporter.Collector.Selection.{Selection}

-- `kong.Path`, as far as it is read: the name of its flag, if it is one, and whether its value came from
-- elsewhere than the command line.
pub record PathElement : Type 0 where
  pub flag : Option Text
  pub resolved : Bool

-- strings.CutPrefix(s, prefix)
unfoldable pub cut_prefix : (s prefix : Text) → Option Text
cut_prefix s [] = some s
cut_prefix [] (p ∷ ps) = none
cut_prefix (c ∷ s) (p ∷ ps) = let rest = cut_prefix s ps in if c == p then rest else none

-- forcedCollectors[name] = true
abbrev pub force : Text → List Text → List Text
force name forced = if contains forced name then forced else name ∷ forced

-- The collector of a flag that was given on the command line.
abbrev pub collector_of : Option Text → Option Text
collector_of none = none
collector_of (some flag) = cut_prefix flag (codes "collector.")

abbrev pub given : PathElement → Option Text
given p = if p.resolved then none else collector_of p.flag

abbrev pub marked : Dict Bool → Option Text → List Text → List Text
marked states none forced = forced
marked states (some name) forced =
    if is_some (lookup name states) then force name forced else forced

-- The loop of `MarkForcedCollectors`.
pub mark_forced : Dict Bool → List PathElement → List Text → List Text
unfolding cut_prefix
mark_forced states [] forced = forced
mark_forced states (p ∷ ps) forced = mark_forced states ps (marked states (given p) forced)

-- The loop of the function that `SnapshotCollectorStates` returns: only what is registered is set.
pub restore_states : (saved states : Dict Bool) → Dict Bool
restore_states [] states = states
restore_states ((name, enabled) ∷ saved) states =
    restore_states saved
      (if is_some (lookup name states) then insert name enabled states else states)

-- What `SnapshotCollectorStates` keeps.
pub record SavedStates : Type 0 where
  pub enabled : Dict Bool
  pub forced : List Text

module _ {C : Type 0} where
  -- `registerCollector`; the defaults are only shown by the help, and the factories are a parameter of
  -- the selection.
  unfoldable pub register_collector :
      (collector : Text) (is_default_enabled : Bool) → Selection C → Selection C
  register_collector collector is_default_enabled s = record s {
    enabled = insert collector is_default_enabled s.enabled;
  }

  -- `MarkForcedCollectors`
  unfoldable pub mark_forced_collectors : List PathElement → Selection C → Selection C
  unfolding mark_forced
  mark_forced_collectors path s = record s { forced = mark_forced s.enabled path s.forced }

  -- `SnapshotCollectorStates`, and the function that it returns.
  pub snapshot_collector_states : Selection C → SavedStates
  snapshot_collector_states s = record { enabled = s.enabled; forced = s.forced }

  pub restored : SavedStates → Selection C → Selection C
  unfolding restore_states
  restored saved s = record s {
    enabled = restore_states saved.enabled s.enabled;
    forced = saved.forced;
  }
