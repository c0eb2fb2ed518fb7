-- ===== src/Collector/Selection.antt =====
-- collector/collector.go: which collectors are enabled, and the set that a scrape runs. The factories
-- are a parameter; the lock makes `NewKasaCollector` one step.
pub mod Chosen
pub mod States
pub mod Toggles
pub mod Registered
pub mod Tests
use kasa_exporter.Base.{
  Bool, true, false, not, ◌&&◌, Option, none, some, List, [], ◌∷◌, if◌then◌else◌,
}
use kasa_exporter.Base.Text.{Text, contains}
use kasa_exporter.Base.Dict.{Dict, lookup, insert}
use kasa_exporter.Errors.{
  ◌>>=◌, ◌>>◌, Result, ok, err, reject_if, or_error, missing_collector, disabled_collector,
}

-- `collectorState`, `forcedCollectors` and `initiatedCollectors`.
pub record Selection (C : Type 0) : Type 0 where
  pub enabled : Dict Bool
  pub forced : List Text
  pub initiated : Dict C

-- The loop of `DisableDefaultCollectors`.
pub disable_unforced : (forced : List Text) (states : Dict Bool) → Dict Bool
disable_unforced forced [] = []
disable_unforced forced ((name, enabled) ∷ states) =
    (name, if contains forced name then enabled else false) ∷ disable_unforced forced states

-- The loop over the filters of `NewKasaCollector`.
unfoldable pub check_filters : Dict Bool → List Text → Result (Unit {0})
check_filters states [] = ok tt
check_filters states (filter ∷ filters) = do
  enabled ← or_error (lookup filter states) (missing_collector filter)
  reject_if (not enabled) (disabled_collector filter)
  check_filters states filters

-- `len(f) > 0 && !f[key]` says that a collector is left out.
abbrev pub within : List Text → Text → Bool
within [] name = true
within (filter ∷ filters) name = contains (filter ∷ filters) name

module _ {C : Type 0} where
  -- `DisableDefaultCollectors`
  pub disable_default_collectors : Selection C → Selection C
  unfolding disable_unforced
  disable_default_collectors s = record s { enabled = disable_unforced s.forced s.enabled }

module _ {C : Type 0} (factory : Text → Result C) where
  -- The collector that is cached, or a new one, which is then cached.
  abbrev pub initiate : Text → Dict C → Option C → Result C × Dict C
  initiate name initiated (some collector) = (ok collector, initiated)
  initiate name initiated none = elim (factory name) [
    | ok collector ↦ (ok collector, insert name collector initiated)
    | err e ↦ (err e, initiated)
  ]

  -- The rest of the loop, unless the factory failed.
  abbrev pub with_collector :
      Text
      → Dict C
      → Result C × Dict C
      → (Dict C → Dict C → Result (Dict C) × Dict C)
      → Result (Dict C) × Dict C
  with_collector name collectors (err e, initiated) rest = (err e, initiated)
  with_collector name collectors (ok collector, initiated) rest =
      rest (insert name collector collectors) initiated

  -- The loop over the states of `NewKasaCollector`.
  unfoldable pub build_collectors :
      List Text → Dict Bool → (collectors initiated : Dict C) → Result (Dict C) × Dict C
  build_collectors filters [] collectors initiated = (ok collectors, initiated)
  build_collectors filters ((name, enabled) ∷ states) collectors initiated =
      let skipped = build_collectors filters states collectors initiated in
      if enabled && within filters name
      then with_collector name collectors (initiate name initiated (lookup name initiated))
          (λ more cached. build_collectors filters states more cached)
      else skipped

  abbrev pub after_check :
      Selection C → List Text → Result (Unit {0}) → Result (Dict C) × Selection C
  after_check s filters (err e) = (err e, s)
  after_check s filters (ok _) =
      let (r, initiated) = build_collectors filters s.enabled [] s.initiated in
      (r, record s { initiated = initiated })

  -- `NewKasaCollector`
  unfoldable pub new_kasa_collector : Selection C → List Text → Result (Dict C) × Selection C
  unfolding check_filters build_collectors
  new_kasa_collector s filters = after_check s filters (check_filters s.enabled filters)
