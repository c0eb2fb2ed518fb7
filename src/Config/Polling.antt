-- ===== src/Config/Polling.antt =====
-- What an accepted configuration of config/kasa.go comes to in the registry.
use kasa_exporter.Base.{
  ◌≡◌, refl, sym, subst, true, false, not, ◌&&◌, ◌||◌, arith, ◌==◌, length, All, is_some,
}
use kasa_exporter.Base.Int.{pos, ltb_ℤ}
use kasa_exporter.Base.Dict.{lookup}
use kasa_exporter.Errors.{
  reject_if-eq-ok, bad_concurrency, bad_packets, bad_timeout, ok, >>=-eq-ok, ok-injective,
  no_devices,
}
use kasa_exporter.Registry.{Registry, Options, new_registry}
use kasa_exporter.Registry.Safety.{new_registry-IsConfigured}
use kasa_exporter.Registry.Steps.{each_listed}
use kasa_exporter.Config.{DeviceFlags, parse_hosts, build_options, build_registry, options_of}

build_options_ok :
    (f : DeviceFlags) (opts : Options)
    → build_options f ≡ ok opts
    → (opts ≡ options_of f (parse_hosts f.hosts))
      × ((f.discovery || not (length (parse_hosts f.hosts) == 0)) ≡ true)
      × (ltb_ℤ f.concurrency (pos 1) ≡ false)
      × (ltb_ℤ f.discovery_packets (pos 1) ≡ false)
      × (ltb_ℤ (pos 0) f.timeout ≡ true)
unfolding build_options
build_options_ok f opts e =
    let (polls, e1) =
      reject_if-eq-ok (not f.discovery && length (parse_hosts f.hosts) == 0) no_devices _ e in
    let (many, e2) = reject_if-eq-ok (ltb_ℤ f.concurrency (pos 1)) bad_concurrency _ e1 in
    let (probes, e3) = reject_if-eq-ok (ltb_ℤ f.discovery_packets (pos 1)) bad_packets _ e2 in
    let (waits, e4) = reject_if-eq-ok (not (ltb_ℤ (pos 0) f.timeout)) bad_timeout _ e3 in
    (sym (ok-injective e4), ground (arith, polls), many, probes, ground (arith, waits))

module _ {Q F : Type 0} where
  abbrev pub Polls : DeviceFlags → Registry Q F → Type 0
  Polls f r =
      ((r.opts.discovery || not (length r.manual == 0)) ≡ true)
      × All (λ h. is_some (lookup h r.devices) ≡ true) (parse_hosts f.hosts)
      × (r.opts.concurrency ≡ f.concurrency)
      × (ltb_ℤ r.opts.concurrency (pos 1) ≡ false)
      × (ltb_ℤ (pos 0) r.opts.timeout ≡ true)
      × (r.opts.timeout ≡ f.timeout)
      × (r.opts.discovery_packets ≡ f.discovery_packets)
      × (ltb_ℤ r.opts.discovery_packets (pos 1) ≡ false)
      × (r.opts.hosts ≡ parse_hosts f.hosts)

  new_registry-Polls :
      (f : DeviceFlags) (r : Registry Q F)
      → r ≡ new_registry (options_of f (parse_hosts f.hosts))
      → ((f.discovery || not (length (parse_hosts f.hosts) == 0)) ≡ true)
      → ltb_ℤ f.concurrency (pos 1) ≡ false
      → ltb_ℤ f.discovery_packets (pos 1) ≡ false
      → ltb_ℤ (pos 0) f.timeout ≡ true
      → Polls f r
  unfolding new_registry
  new_registry-Polls f r e polls many probes waits =
      let opts = options_of f (parse_hosts f.hosts) in
      let manual : r.manual ≡ parse_hosts f.hosts = rw e refl in
      let configured =
        each_listed (λ h. is_some (lookup h r.devices) ≡ true) r.manual
          (new_registry-IsConfigured opts r e) in
      let kept : r.opts.concurrency ≡ f.concurrency = rw (e, many) refl in
      let own : r.opts.discovery ≡ f.discovery = rw e refl in
      let same : r.opts.timeout ≡ f.timeout = rw e refl in
      let packets : r.opts.discovery_packets ≡ f.discovery_packets = rw e refl in
      (
        rw (own, manual) polls,
        subst (λ hs. All (λ h. is_some (lookup h r.devices) ≡ true) hs) manual configured,
        kept,
        rw kept many,
        rw same waits,
        same,
        packets,
        rw packets probes,
        rw e refl,
      )

  -- Where a registry is built, discovery is on or some address was given; every address that was given
  -- has a device; and the number of readers, the number of probes and the timeout are the flags' own and
  -- are positive, so that the registry does not have to correct them.
  pub build_registry-Polls :
      (f : DeviceFlags) (r : Registry Q F) → build_registry f ≡ ok r → Polls f r
  unfolding build_registry
  build_registry-Polls f r e =
      let (opts, built, made) = >>=-eq-ok (build_options f) _ e in
      let (same, polls, many, probes, waits) = build_options_ok f opts built in
      new_registry-Polls f r (rw (← same) (sym (ok-injective made))) polls many probes waits
