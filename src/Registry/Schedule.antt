-- ===== src/Registry/Schedule.antt =====
-- The scheduling of kasa/registry.go: what the cache serves, and when a sweep may start.
use kasa_exporter.Base.{
  ℕ, ◌-◌, ◌≡◌, refl, ap, ◌∙◌, Bool, true, false, not, ◌&&◌, some, List, map, arith,
}
use kasa_exporter.Base.Text.{Text}
use kasa_exporter.Base.Int.{pos, ltb_ℤ}
use kasa_exporter.Base.Dict.{Dict}
use kasa_exporter.Errors.{Result, ok, err}
use kasa_exporter.Discovery.{DiscoveryResult}
use kasa_exporter.Connect.{Queriers}
use kasa_exporter.Device.{Device, discovered_device}
use kasa_exporter.Registry.{
  Registry, Launch, no_sweep, blocking, background, Moment, reconcile, run_discovery,
  refresh_devices, refresh, take_snapshot, is_fresh, add_found, elapsed, hosts_of, prune, launched,
}

module _ {W Q F : Type 0} (net : Queriers W Q F) where
  prune-rest :
      (keep : Bool) (seen : List Text) (w : W) (r : Registry Q F) (devices : Dict (Device Q))
      → (prune net keep seen w r devices).0
        ≡ record r { devices = (prune net keep seen w r devices).0.devices }
  prune-rest true seen w r devices = refl
  prune-rest false seen w r devices = refl

  -- A reconciliation changes the devices and nothing else.
  pub reconcile-rest :
      (w : W) (r : Registry Q F) (found : List (Device Q))
      → (reconcile net w r found).0 ≡ record r { devices = (reconcile net w r found).0.devices }
  unfolding reconcile
  reconcile-rest w r found =
      prune-rest r.opts.keep_missing (hosts_of found) w r (add_found r.devices found)

  -- What a sweep leaves of the registry.
  pub run_discovery-rest :
      (ended : ℕ) (w : W) (r : Registry Q F) (found : Result (List DiscoveryResult))
      → ((run_discovery net ended w r found).0.opts ≡ r.opts)
        × ((run_discovery net ended w r found).0.manual ≡ r.manual)
        × ((run_discovery net ended w r found).0.last_discovery ≡ some ended)
        × ((run_discovery net ended w r found).0.discovering ≡ false)
  unfolding run_discovery
  run_discovery-rest ended w r (err e) = (refl, refl, refl, refl)
  run_discovery-rest ended w r (ok results) =
      let same =
        reconcile-rest w r (map (discovered_device r.opts.credentials r.opts.timeout) results) in
      (ap (λ x. x.opts) same, ap (λ x. x.manual) same, refl, refl)

  -- After a sweep, failed or not, none starts until the interval has passed since its end.
  pub sweep_waits :
      (w : W) (r : Registry Q F) (found : Result (List DiscoveryResult)) (ended now : ℕ)
      → ltb_ℤ (pos (now - ended)) r.opts.discovery_interval ≡ true
      → (refresh_devices now (run_discovery net ended w r found).0).0 ≡ no_sweep
  unfolding refresh_devices
  sweep_waits w r found ended now soon =
      let (opts, _, last, _) = run_discovery-rest ended w r found in
      let early : elapsed now (run_discovery net ended w r found).0.last_discovery
            (run_discovery net ended w r found).0.opts.discovery_interval
          ≡ false =
        (λ i. elapsed now (last i) (opts i).discovery_interval) ∙ ap not soon in
      ground (arith, early)

  launched-opts :
      (m : Moment) (w : W) (l : Launch) (r : Registry Q F) → (launched net m w l r).0.opts ≡ r.opts
  launched-opts m w no_sweep r = refl
  launched-opts m w background r = refl
  launched-opts m w blocking r = (run_discovery-rest m.sweep_end w r m.sweep).0

  refresh_devices-opts : (now : ℕ) (r : Registry Q F) → (refresh_devices now r).1.opts ≡ r.opts
  unfolding refresh_devices
  refresh_devices-opts now r = ground arith

  refresh-opts : (m : Moment) (w : W) (r : Registry Q F) → (refresh net m w r).1.opts ≡ r.opts
  unfolding refresh
  refresh-opts m w r =
      let (launch, r1) = refresh_devices m.start r in
      launched-opts m w launch r1 ∙ refresh_devices-opts m.start r

  refresh_fresh :
      (m m' : Moment) (w : W) (r : Registry Q F)
      → ltb_ℤ (pos (m'.start - m.round_end)) r.opts.cache_ttl ≡ true
      → is_fresh m'.start (refresh net m w r).1 ≡ true
  unfolding refresh
  refresh_fresh m m' w r soon =
      (λ i.
        not (not (ltb_ℤ (pos (m'.start - m.round_end)) (refresh-opts m w r i).cache_ttl)) && true)
      ∙ ap (λ b. not (not b) && true) soon

  -- A scrape that starts within the cache's time after a round gets that round's outcomes; it asks no
  -- device and changes nothing.
  pub snapshot_shared :
      (m m' : Moment) (w w' : W) (r : Registry Q F)
      → ltb_ℤ (pos (m'.start - m.round_end)) r.opts.cache_ttl ≡ true
      → is_fresh m.start r ≡ false
      → take_snapshot net m' w' (take_snapshot net m w r).1
        ≡ ((take_snapshot net m w r).0, (take_snapshot net m w r).1, w')
  unfolding take_snapshot refresh
  snapshot_shared m m' w w' r soon stale = rw stale (rw (refresh_fresh m m' w r soon))
