-- ===== src/Registry.antt =====
-- kasa/registry.go: the fleet of devices, its discovery schedule and the snapshot that the collectors
-- share. Each operation is one step, since it runs under a mutex; the reads of one round are taken
-- one after the other here, and as goroutines in Registry/Pool.
pub mod Reconcile
pub mod Schedule
pub mod Round
pub mod Pool
pub mod Safety
pub mod Steps
pub mod Tests
use kasa_exporter.Base.{
  ℕ, ◌-◌, Bool, true, false, not, ◌&&◌, ◌||◌, Option, none, some, List, [], ◌∷◌, map, if◌then◌else◌,
  is_some,
}
use kasa_exporter.Base.Text.{Text, contains}
use kasa_exporter.Base.Int.{ℤ, pos, ltb_ℤ}
use kasa_exporter.Base.Dict.{Dict, lookup, insert}
use kasa_exporter.Base.Order.{sort_by}
use kasa_exporter.Errors.{Error, Result, ok, err}
use kasa_exporter.Reading.{DeviceType, Reading}
use kasa_exporter.Discovery.{DiscoveryResult}
use kasa_exporter.Connect.{Credentials, Queriers}
use kasa_exporter.Device.{
  Device, alias_of, type_of, new_device, discovered_device, read_device, close_device,
}

-- Durations are in nanoseconds, as time.Duration is.
pub record Options : Type 0 where
  pub hosts : List Text
  pub credentials : Credentials
  pub discovery : Bool
  pub discovery_target : Text
  pub discovery_interval : ℤ
  pub discovery_timeout : ℤ
  pub discovery_packets : ℤ
  pub timeout : ℤ
  pub cache_ttl : ℤ
  pub concurrency : ℤ
  pub keep_missing : Bool

-- `Result` of the source, one device's outcome: `reading` and `failure` are never both present.
pub record Outcome (F : Type 0) : Type 0 where
  pub host : Text
  pub alias : Text
  pub device_type : DeviceType
  pub reading : Option (Reading F)
  pub failure : Option Error

-- Times are nanoseconds on a clock that does not run backwards; `none` is the zero time.
pub record Registry (Q F : Type 0) : Type 0 where
  pub opts : Options
  pub devices : Dict (Device Q)
  pub manual : List Text
  pub last_discovery : Option ℕ
  pub discovering : Bool
  pub snapshot : Option (List (Outcome F))
  pub snapshot_time : Option ℕ

module _ {Q : Type 0} where
  abbrev pub add_hosts : Options → List Text → Dict (Device Q) → Dict (Device Q)
  add_hosts opts [] devices = devices
  add_hosts opts (host ∷ hosts) devices =
      add_hosts opts hosts (insert host (new_device host opts.credentials opts.timeout) devices)

  -- `NewRegistry`
  unfoldable pub new_registry : {F : Type 0} → Options → Registry Q F
  new_registry opts =
      let clamped = if ltb_ℤ opts.concurrency (pos 1) then pos 1 else opts.concurrency in
      record {
        opts = record opts { concurrency = clamped };
        devices = add_hosts opts opts.hosts [];
        manual = opts.hosts;
        last_discovery = none;
        discovering = false;
        snapshot = none;
        snapshot_time = none;
      }

  -- The first loop of `reconcile`: a device that is known keeps the connection that it has.
  unfoldable pub add_found : Dict (Device Q) → List (Device Q) → Dict (Device Q)
  add_found devices [] = devices
  add_found devices (d ∷ found) =
      add_found (if is_some (lookup d.host devices) then devices else insert d.host d devices) found

  -- `seen` of `reconcile`
  abbrev pub hosts_of : List (Device Q) → List Text
  hosts_of = map (λ d. d.host)

abbrev pub stays : List Text → List Text → Text → Bool
stays seen manual host = contains seen host || contains manual host

-- time.Since(t) >= d and time.Since(t) < d: since the zero time every interval has passed.
abbrev pub elapsed : ℕ → Option ℕ → ℤ → Bool
elapsed now none d = true
elapsed now (some t) d = not (ltb_ℤ (pos (now - t)) d)

module _ {W Q F : Type 0} (net : Queriers W Q F) where
  -- The second loop of `reconcile`: what is dropped is closed first.
  pub drop_missing : (Text → Bool) → W → Dict (Device Q) → Dict (Device Q) × W
  drop_missing keep w [] = ([], w)
  drop_missing keep w ((host, d) ∷ devices) =
      if keep host
      then (let (rest, w') = drop_missing keep w devices in ((host, d) ∷ rest, w'))
      else drop_missing keep (close_device net w d).1 devices

  -- `if !r.opts.KeepMissing`, given `KeepMissing`.
  abbrev pub prune : Bool → List Text → W → Registry Q F → Dict (Device Q) → Registry Q F × W
  prune true seen w r devices = (record r { devices = devices }, w)
  prune false seen w r devices =
      let (rest, w') = drop_missing (stays seen r.manual) w devices in
      (record r { devices = rest }, w')

  -- `reconcile`
  unfoldable pub reconcile : W → Registry Q F → List (Device Q) → Registry Q F × W
  unfolding drop_missing
  reconcile w r found = prune r.opts.keep_missing (hosts_of found) w r (add_found r.devices found)

  -- The deferred function of `runDiscovery`, at the time `now`.
  abbrev pub swept : ℕ → Registry Q F → Registry Q F
  swept now r = record r { discovering = false; last_discovery = some now }

  -- `runDiscovery`, given what the sweep came to and the time at its end.
  unfoldable pub run_discovery :
      ℕ → W → Registry Q F → Result (List DiscoveryResult) → Registry Q F × W
  run_discovery now w r (err e) = (swept now r, w)
  run_discovery now w r (ok results) =
      let (r', w') =
        reconcile w r (map (discovered_device r.opts.credentials r.opts.timeout) results) in
      (swept now r', w')

-- The clock and the network in one call of `Snapshot`: the times at which it starts, at which a
-- blocking sweep ends and at which the round of reads ends, and what such a sweep comes to.
pub record Moment : Type 0 where
  pub start : ℕ
  pub sweep_end : ℕ
  pub round_end : ℕ
  pub sweep : Result (List DiscoveryResult)

-- What `refreshDevices` does about a sweep: nothing, one that it waits for, or one in the background.
pub data Launch : Type 0 where
  no_sweep blocking background : Launch

module _ {Q F : Type 0} where
  unfoldable pub refresh_devices : ℕ → Registry Q F → Launch × Registry Q F
  refresh_devices now r =
      if not r.opts.discovery
      then (no_sweep, r)
      else if elapsed now r.last_discovery r.opts.discovery_interval && not r.discovering
      then (
        if is_some r.last_discovery then background else blocking,
        record r { discovering = true },
      )
      else (no_sweep, r)

  -- Whether the outcomes of the last round are still served.
  abbrev pub is_fresh : ℕ → Registry Q F → Bool
  is_fresh now r = not (elapsed now r.snapshot_time r.opts.cache_ttl) && is_some r.snapshot

module _ {W Q F : Type 0} (net : Queriers W Q F) where
  abbrev pub outcome : Device Q → Result (Reading F) → Outcome F
  outcome d (ok reading) = record {
    host = d.host;
    alias = alias_of d;
    device_type = type_of d;
    reading = some reading;
    failure = none;
  }
  outcome d (err e) = record {
    host = d.host;
    alias = alias_of d;
    device_type = type_of d;
    reading = none;
    failure = some e;
  }

  -- The round of reads of `readAll`: the outcomes, and the devices with what they remember.
  unfoldable pub read_each : W → Dict (Device Q) → List (Outcome F) × Dict (Device Q) × W
  read_each w [] = ([], [], w)
  read_each w ((host, d) ∷ devices) =
      let (r, d', w') = read_device net w d in
      let (outs, rest, w'') = read_each w' devices in (outcome d' r ∷ outs, (host, d') ∷ rest, w'')

  -- `readAll`: the outcomes in the order of the addresses.
  unfoldable pub read_all : W → Registry Q F → List (Outcome F) × Registry Q F × W
  unfolding read_each
  read_all w r =
      let (outs, devices, w') = read_each w r.devices in
      (sort_by (λ o. o.host) outs, record r { devices = devices }, w')

  abbrev pub launched : Moment → W → Launch → Registry Q F → Registry Q F × W
  launched m w blocking r = run_discovery net m.sweep_end w r m.sweep
  launched m w _ r = (r, w)

  abbrev pub taken : ℕ → List (Outcome F) × Registry Q F × W → List (Outcome F) × Registry Q F × W
  taken now (outs, r, w) = (outs, record r { snapshot = some outs; snapshot_time = some now }, w)

  abbrev cached : Option (List (Outcome F)) → List (Outcome F)
  cached none = []
  cached (some outs) = outs

  -- A round of its own: the sweep that is due, the reads, and the new snapshot.
  unfoldable pub refresh : Moment → W → Registry Q F → List (Outcome F) × Registry Q F × W
  unfolding read_all refresh_devices
  refresh m w r =
      let (launch, r1) = refresh_devices m.start r in
      let (r2, w2) = launched m w launch r1 in taken m.round_end (read_all w2 r2)

  -- `Snapshot`
  unfoldable pub take_snapshot : Moment → W → Registry Q F → List (Outcome F) × Registry Q F × W
  take_snapshot m w r = if is_fresh m.start r then (cached r.snapshot, r, w) else refresh m w r

  -- `Close`, over the devices.
  pub close_all : W → Dict (Device Q) → Dict (Device Q) × W
  close_all w [] = ([], w)
  close_all w ((host, d) ∷ devices) =
      let (d', w') = close_device net w d in
      let (rest, w'') = close_all w' devices in ((host, d') ∷ rest, w'')
