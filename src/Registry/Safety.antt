-- ===== src/Registry/Safety.antt =====
-- The configured addresses of kasa/registry.go, through each of its operations.
use kasa_exporter.Base.{
  ℕ, ◌≡◌, refl, sym, ◌∙◌, subst, inl, inr, true, List, [], ◌∷◌, map, arith, Bool-cases, is_some,
}
use kasa_exporter.Base.Text.{Text, ◌==ₜ◌, contains}
use kasa_exporter.Base.Dict.{Dict, lookup, insert, lookup-insert}
use kasa_exporter.Errors.{Result, ok, err}
use kasa_exporter.Discovery.{DiscoveryResult}
use kasa_exporter.Connect.{Queriers}
use kasa_exporter.Device.{Device, new_device, discovered_device, read_device}
use kasa_exporter.Registry.{
  Options, Registry, Launch, no_sweep, blocking, background, Moment, add_hosts, new_registry,
  reconcile, run_discovery, refresh_devices, read_each, refresh, take_snapshot, is_fresh, launched,
}
use kasa_exporter.Registry.Reconcile.{lookup-reconcile}
use kasa_exporter.Registry.Schedule.{reconcile-rest}

module _ {Q : Type 0} where
  add_hosts-keeps :
      (opts : Options) (hosts : List Text) (m : Dict (Device Q)) (h : Text)
      → is_some (lookup h m) ≡ true
      → is_some (lookup h (add_hosts opts hosts m)) ≡ true
  add_hosts-keeps opts [] m h k = k
  add_hosts-keeps opts (x ∷ hosts) m h k =
      add_hosts-keeps opts hosts (insert x (new_device x opts.credentials opts.timeout) m) h
        (ground (arith, lookup-insert x h (new_device x opts.credentials opts.timeout) m))

  add_hosts-adds :
      (opts : Options) (hosts : List Text) (m : Dict (Device Q)) (h : Text)
      → contains hosts h ≡ true
      → is_some (lookup h (add_hosts opts hosts m)) ≡ true
  unfolding contains
  add_hosts-adds opts [] m h k = cc k
  add_hosts-adds opts (x ∷ hosts) m h k = elim (Bool-cases (x ==ₜ h)) [
    | inl same ↦
        add_hosts-keeps opts hosts (insert x (new_device x opts.credentials opts.timeout) m) h
          (ground (arith, lookup-insert x h (new_device x opts.credentials opts.timeout) m))
    | inr other ↦
        add_hosts-adds opts hosts (insert x (new_device x opts.credentials opts.timeout) m) h
          (rw other at k)
  ]

module _ {Q F : Type 0} where
  -- Every configured address has a device.
  abbrev pub IsConfigured : Registry Q F → Type 0
  IsConfigured r = (h : Text) → contains r.manual h ≡ true → is_some (lookup h r.devices) ≡ true

  refresh_devices-rest :
      (now : ℕ) (r : Registry Q F)
      → ((refresh_devices now r).1.devices ≡ r.devices)
        × ((refresh_devices now r).1.manual ≡ r.manual)
  unfolding refresh_devices
  refresh_devices-rest now r = ground arith

pub new_registry-IsConfigured :
    {Q F : Type 0} (opts : Options) (r : Registry Q F) → r ≡ new_registry opts → IsConfigured r
unfolding new_registry
new_registry-IsConfigured opts r e =
    subst IsConfigured (sym e) (λ h k. add_hosts-adds opts opts.hosts [] h k)

module _ {W Q F : Type 0} (net : Queriers W Q F) where
  reconcile-IsConfigured :
      (w : W) (r : Registry Q F) (found : List (Device Q))
      → IsConfigured r
      → IsConfigured (reconcile net w r found).0
  reconcile-IsConfigured w r found c h k =
      let listed : contains r.manual h ≡ true =
        subst (λ x. contains x.manual h ≡ true) (reconcile-rest net w r found) k in
      ground (arith, lookup-reconcile net w r found h, listed, c h listed)

  pub run_discovery-IsConfigured :
      (now : ℕ) (w : W) (r : Registry Q F) (found : Result (List DiscoveryResult))
      → IsConfigured r
      → IsConfigured (run_discovery net now w r found).0
  unfolding run_discovery
  run_discovery-IsConfigured now w r (err e) c = c
  run_discovery-IsConfigured now w r (ok results) c =
      reconcile-IsConfigured w r (map (discovered_device r.opts.credentials r.opts.timeout) results)
        c

  read_each-known :
      (w : W) (devices : Dict (Device Q)) (h : Text)
      → is_some (lookup h (read_each net w devices).1) ≡ is_some (lookup h devices)
  unfolding read_each lookup
  read_each-known w [] h = refl
  read_each-known w ((host, d) ∷ devices) h =
      let ih = read_each-known (read_device net w d).2 devices h in ground (arith, ih)

  launched-IsConfigured :
      (m : Moment) (w : W) (l : Launch) (r : Registry Q F)
      → IsConfigured r
      → IsConfigured (launched net m w l r).0
  launched-IsConfigured m w no_sweep r c = c
  launched-IsConfigured m w background r c = c
  launched-IsConfigured m w blocking r c = run_discovery-IsConfigured m.sweep_end w r m.sweep c

  refresh-IsConfigured :
      (m : Moment) (w : W) (r : Registry Q F) → IsConfigured r → IsConfigured (refresh net m w r).1
  unfolding refresh
  refresh-IsConfigured m w r c h k =
      let (launch, r1) = refresh_devices m.start r in
      let (r2, w2) = launched net m w launch r1 in
      let (devices, manual) = refresh_devices-rest m.start r in
      let c1 : IsConfigured r1 = λ j l.
        (λ i. is_some (lookup j (devices i))) ∙ c j (subst (λ ks. contains ks j ≡ true) manual l) in
      read_each-known w2 r2.devices h ∙ launched-IsConfigured m w launch r1 c1 h k

  pub take_snapshot-IsConfigured :
      (m : Moment) (w : W) (r : Registry Q F)
      → IsConfigured r
      → IsConfigured (take_snapshot net m w r).1
  unfolding take_snapshot
  take_snapshot-IsConfigured m w r c = elim (Bool-cases (is_fresh m.start r)) [
    | inl fresh ↦ rw fresh c
    | inr stale ↦ rw stale (refresh-IsConfigured m w r c)
  ]
