-- ===== src/Collector/Selection/Chosen.antt =====
-- Which collectors NewKasaCollector of collector/collector.go builds, and which are left enabled.
use mathlib.Core.Option
use kasa_exporter.Base.{
  ◌≡◌, refl, ap, inl, inr, Bool, true, false, not, ◌&&◌, ◌||◌, some, List, [], ◌∷◌, arith,
  Bool-cases, All, is_some,
}
use kasa_exporter.Base.Text.{Text, ◌==ₜ◌, ==ₜ_iff, contains}
use kasa_exporter.Base.Dict.{Dict, lookup, insert, lookup-insert}
use kasa_exporter.Errors.{
  >>=-eq-ok, or_error, reject_if, missing_collector, disabled_collector, Result, ok, err,
  ok-injective,
}
use kasa_exporter.Collector.Selection.{
  Selection, within, disable_unforced, disable_default_collectors, initiate, with_collector,
  build_collectors, check_filters, after_check, new_kasa_collector,
}

disable_unforced-lookup :
    (forced : List Text) (states : Dict Bool) (h : Text)
    → lookup h (disable_unforced forced states)
      ≡ Option.map (λ e. contains forced h && e) (lookup h states)
unfolding disable_unforced lookup
disable_unforced-lookup forced [] h = refl
disable_unforced-lookup forced ((name, enabled) ∷ states) h =
    let later = disable_unforced-lookup forced states h in let same = ==ₜ_iff name h in ground arith

-- After the defaults are disabled a collector is enabled exactly if it was and is forced, and the same
-- names are known as before.
pub disable_default_collectors_lem :
    {C : Type 0} (s : Selection C) (h : Text)
    → lookup h (disable_default_collectors s).enabled
      ≡ Option.map (λ e. contains s.forced h && e) (lookup h s.enabled)
unfolding disable_default_collectors
disable_default_collectors_lem s h = disable_unforced-lookup s.forced s.enabled h

-- Some enabled collector has the name, and the filters let it pass.
abbrev pub chosen : List Text → Dict Bool → Text → Bool
chosen filters [] h = false
chosen filters ((name, enabled) ∷ states) h =
    (name ==ₜ h && (enabled && within filters name)) || chosen filters states h

-- The filters take nothing else away, and add nothing.
pub chosen-within :
    (filters : List Text) (states : Dict Bool) (h : Text)
    → chosen filters states h ≡ (chosen [] states h && within filters h)
chosen-within filters [] h = refl
chosen-within filters ((name, enabled) ∷ states) h =
    let later = chosen-within filters states h in
    elim (Bool-cases (name ==ₜ h)) [
      | inl same ↦
          let equal = ap (within filters) ((==ₜ_iff name h).0 same) in
          ground (arith, later, equal, same)
      | inr other ↦ ground (arith, later, other)
    ]

module _ {C : Type 0} (factory : Text → Result C) where
  after_check-enabled :
      (s : Selection C) (filters : List Text) (r : Result (Unit {0}))
      → (after_check factory s filters r).1.enabled ≡ s.enabled
  after_check-enabled s filters (err e) = refl
  after_check-enabled s filters (ok _) = refl

  -- Building a set of collectors leaves enabled what was.
  pub new_kasa_collector-enabled :
      (s : Selection C) (filters : List Text)
      → (new_kasa_collector factory s filters).1.enabled ≡ s.enabled
  unfolding new_kasa_collector
  new_kasa_collector-enabled s filters =
      after_check-enabled s filters (check_filters s.enabled filters)

  -- One collector more: its name is there, and so are those that were before and that are added later.
  with_collector-chosen :
      (name : Text) (collectors out : Dict C) (h : Text) (later : Bool) (x : Result C × Dict C)
      (rest : Dict C → Dict C → Result (Dict C) × Dict C)
      → (with_collector factory name collectors x rest).0 ≡ ok out
      → ((more cached : Dict C)
          → (rest more cached).0 ≡ ok out
          → is_some (lookup h out) ≡ (is_some (lookup h more) || later))
      → is_some (lookup h out) ≡ (is_some (lookup h collectors) || (name ==ₜ h || later))
  with_collector-chosen name collectors out h later (err failure, cached) rest e after = cc e
  with_collector-chosen name collectors out h later (ok collector, cached) rest e after =
      let all = after (insert name collector collectors) cached e in
      let added = lookup-insert name h collector collectors in ground arith

  build-chosen :
      (filters : List Text) (states : Dict Bool) (collectors initiated out : Dict C) (h : Text)
      → (build_collectors factory filters states collectors initiated).0 ≡ ok out
      → is_some (lookup h out) ≡ (is_some (lookup h collectors) || chosen filters states h)
  unfolding build_collectors
  build-chosen filters [] collectors initiated out h e =
      let same = ok-injective e in ground (arith, same)
  build-chosen filters ((name, enabled) ∷ states) collectors initiated out h e =
      elim (Bool-cases (enabled && within filters name)) [
        | inl kept ↦
            let all =
              with_collector-chosen name collectors out h (chosen filters states h)
                (initiate factory name initiated (lookup name initiated))
                (λ more cached. build_collectors factory filters states more cached) (rw kept at e)
                (λ more cached e'. build-chosen filters states more cached out h e') in
            ground (arith, all, kept)
        | inr left ↦
            let all = build-chosen filters states collectors initiated out h (rw left at e) in
            ground (arith, all, left)
      ]

  after_check-chosen :
      (s : Selection C) (filters : List Text) (out : Dict C) (h : Text) (r : Result (Unit {0}))
      → (after_check factory s filters r).0 ≡ ok out
      → is_some (lookup h out) ≡ chosen filters s.enabled h
  unfolding lookup
  after_check-chosen s filters out h (err failure) e = cc e
  after_check-chosen s filters out h (ok _) e =
      build-chosen filters s.enabled [] s.initiated out h e

  -- Where a set of collectors is built, a name is in it exactly if a collector of that name is enabled
  -- and the filters, if there are any, have it.
  pub new_kasa_collector-chosen :
      (s : Selection C) (filters : List Text) (out : Dict C) (h : Text)
      → (new_kasa_collector factory s filters).0 ≡ ok out
      → is_some (lookup h out) ≡ chosen filters s.enabled h
  unfolding new_kasa_collector
  new_kasa_collector-chosen s filters out h e =
      after_check-chosen s filters out h (check_filters s.enabled filters) e

  check_filters-All :
      (states : Dict Bool) (filters : List Text)
      → check_filters states filters ≡ ok tt
      → All (λ f. lookup f states ≡ some true) filters
  unfolding check_filters
  check_filters-All states [] e = tt
  check_filters-All states (filter ∷ filters) e =
      let (enabled, known, e1) =
        >>=-eq-ok (or_error (lookup filter states) (missing_collector filter)) _ e in
      let (passed, on, e2) = >>=-eq-ok (reject_if (not enabled) (disabled_collector filter)) _ e1 in
      (ground (arith, known, on), check_filters-All states filters e2)

  after_check-All :
      (s : Selection C) (filters : List Text) (out : Dict C) (r : Result (Unit {0}))
      → (after_check factory s filters r).0 ≡ ok out
      → r ≡ ok tt
  after_check-All s filters out (err failure) e = cc e
  after_check-All s filters out (ok tt) e = refl

  -- A filter that names no collector, or one that is not enabled, is refused: where a set of collectors
  -- is built, every filter names an enabled collector.
  pub filters_enabled :
      (s : Selection C) (filters : List Text) (out : Dict C)
      → (new_kasa_collector factory s filters).0 ≡ ok out
      → All (λ f. lookup f s.enabled ≡ some true) filters
  unfolding new_kasa_collector
  filters_enabled s filters out e =
      check_filters-All s.enabled filters
        (after_check-All s filters out (check_filters s.enabled filters) e)
