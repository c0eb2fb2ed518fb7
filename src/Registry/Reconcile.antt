-- ===== src/Registry/Reconcile.antt =====
-- `reconcile` of kasa/registry.go: which devices there are after a sweep, and which connections they
-- have.
use kasa_exporter.Base.{
  or_else, ◌≡◌, refl, ap, ◌∙◌, inl, inr, Bool, true, false, ◌||◌, Option, none, some, List, [], ◌∷◌,
  arith, if◌then◌else◌, Bool-cases, is_some,
}
use kasa_exporter.Base.Text.{Text, ◌==ₜ◌, ==ₜ_iff}
use kasa_exporter.Base.Dict.{Dict, lookup, insert, lookup-insert}
use kasa_exporter.Connect.{Queriers}
use kasa_exporter.Device.{Device, close_device}
use kasa_exporter.Registry.{Registry, add_found, hosts_of, stays, drop_missing, prune, reconcile}

module _ {Q : Type 0} where
  -- The first device that a sweep found at an address.
  abbrev pub first_found : Text → List (Device Q) → Option (Device Q)
  first_found h [] = none
  first_found h (d ∷ ds) = if d.host ==ₜ h then some d else first_found h ds

  lookup-add_found :
      (h : Text) (devices : Dict (Device Q)) (found : List (Device Q))
      → lookup h (add_found devices found) ≡ or_else (lookup h devices) (first_found h found)
  unfolding add_found
  lookup-add_found h devices [] = ground arith
  lookup-add_found h devices (d ∷ found) = elim (Bool-cases (is_some (lookup d.host devices))) [
    | inl known ↦ rw known (lookup-add_found h devices found ∙ ground (arith, ==ₜ_iff d.host h))
    | inr fresh ↦ rw fresh (
        lookup-add_found h (insert d.host d devices) found
        ∙ ground (arith, lookup-insert d.host h d devices, ==ₜ_iff d.host h))
  ]

module _ {W Q F : Type 0} (net : Queriers W Q F) where
  lookup-drop_missing :
      (keep : Text → Bool) (h : Text) (w : W) (devices : Dict (Device Q))
      → lookup h (drop_missing net keep w devices).0 ≡ (if keep h then lookup h devices else none)
  unfolding drop_missing lookup
  lookup-drop_missing keep h w [] = ground arith
  lookup-drop_missing keep h w ((k, d) ∷ devices) = ground (
    arith,
    ==ₜ_iff k h,
    lookup-drop_missing keep h w devices,
    lookup-drop_missing keep h (close_device net w d).1 devices,
  )

  lookup-prune :
      (keep : Bool) (seen : List Text) (w : W) (r : Registry Q F) (devices : Dict (Device Q))
      (h : Text)
      → lookup h (prune net keep seen w r devices).0.devices
        ≡ (if keep || stays seen r.manual h then lookup h devices else none)
  lookup-prune true seen w r devices h = refl
  lookup-prune false seen w r devices h = lookup-drop_missing (stays seen r.manual) h w devices

  -- After a sweep an address has the device that it had before, with its connection; else the first
  -- one that the sweep found there. It has none if neither is so, or if missing devices are not kept
  -- and the address is neither among those that answered nor configured.
  pub lookup-reconcile :
      (w : W) (r : Registry Q F) (found : List (Device Q)) (h : Text)
      → lookup h (reconcile net w r found).0.devices ≡ (
          if r.opts.keep_missing || stays (hosts_of found) r.manual h
          then or_else (lookup h r.devices) (first_found h found)
          else none)
  unfolding reconcile
  lookup-reconcile w r found h =
      lookup-prune r.opts.keep_missing (hosts_of found) w r (add_found r.devices found) h
      ∙ ap (λ o. if r.opts.keep_missing || stays (hosts_of found) r.manual h then o else none)
          (lookup-add_found h r.devices found)
