-- ===== src/Registry/Steps.antt =====
-- kasa/registry.go as a transition system: scrapes, and background sweeps that end at some later time.
use kasa_exporter.Base.Text.{Text, ==ₜ_refl, contains}
use kasa_exporter.Base.Dict.{lookup}
use kasa_exporter.Base.{
  ℕ, ◌+◌, ◌-◌, ◌<◌, ◌≡◌, refl, ap, ◌∙◌, subst, inl, inr, Bool, true, false, List, [], ◌∷◌, arith,
  if◌then◌else◌, Bool-cases, All, is_some,
}
use kasa_exporter.Errors.{Result}
use kasa_exporter.Discovery.{DiscoveryResult}
use kasa_exporter.Connect.{Queriers}
use kasa_exporter.Registry.{
  Options, Registry, Launch, no_sweep, blocking, background, Moment, new_registry, run_discovery,
  refresh_devices, refresh, take_snapshot, is_fresh, launched,
}
use kasa_exporter.Registry.Schedule.{run_discovery-rest}
use kasa_exporter.Registry.Safety.{
  IsConfigured, new_registry-IsConfigured, run_discovery-IsConfigured, take_snapshot-IsConfigured,
}

-- The registry, the network, and the number of background sweeps that have not ended.
pub record System (W Q F : Type 0) : Type 0 where
  pub world : W
  pub registry : Registry Q F
  pub in_flight : ℕ

abbrev pub flagged : Bool → ℕ
flagged true = 1
flagged false = 0

abbrev pub sweeps : Launch → ℕ
sweeps background = 1
sweeps _ = 0

-- What a call of `Snapshot` launches.
abbrev pub launch_of : {Q F : Type 0} → Moment → Registry Q F → Launch
launch_of m r = if is_fresh m.start r then no_sweep else (refresh_devices m.start r).0

pub each_listed :
    (P : Text → Type 0) (hs : List Text) → ((h : Text) → contains hs h ≡ true → P h) → All P hs
unfolding contains
each_listed P [] all = tt
each_listed P (h ∷ hs) all =
    let own = ==ₜ_refl h in
    (all h (ground arith), each_listed P hs (λ k listed. all k (ground arith)))

module _ {W Q F : Type 0} (net : Queriers W Q F) where
  abbrev pub scraped : Moment → System W Q F → System W Q F
  scraped m s = record {
    world = (take_snapshot net m s.world s.registry).2;
    registry = (take_snapshot net m s.world s.registry).1;
    in_flight = s.in_flight + sweeps (launch_of m s.registry);
  }

  abbrev pub sweep_ended : ℕ → Result (List DiscoveryResult) → System W Q F → System W Q F
  sweep_ended now found s = record {
    world = (run_discovery net now s.world s.registry found).1;
    registry = (run_discovery net now s.world s.registry found).0;
    in_flight = s.in_flight - 1;
  }

  pub data Step : System W Q F → System W Q F → Type 0 where
    scrape : (s : System W Q F) (m : Moment) → Step s (scraped m s)
    end_sweep :
        (s : System W Q F) (now : ℕ) (found : Result (List DiscoveryResult))
        → 0 < s.in_flight
        → Step s (sweep_ended now found s)

  pub data Reach (s : System W Q F) : System W Q F → Type 0 where
    here : Reach s s
    next : {t u : System W Q F} → Reach s t → Step t u → Reach s u

  pub record IsSafe (opts : Options) (s : System W Q F) : Type 0 where
    pub configured : All (λ h. is_some (lookup h s.registry.devices) ≡ true) opts.hosts
    pub one_sweep : s.in_flight ≡ flagged s.registry.discovering

  -- What the induction goes by: `IsSafe`, with the addresses by their test.
  record IsSteady (opts : Options) (s : System W Q F) : Type 0 where
    manual : s.registry.manual ≡ opts.hosts
    configured : IsConfigured s.registry
    one_sweep : s.in_flight ≡ flagged s.registry.discovering

  -- The flag after the launch was carried out: a blocking sweep has ended by then.
  abbrev flag_after : Launch → Bool → ℕ
  flag_after blocking b = 0
  flag_after _ b = flagged b

  refresh_devices_flag :
      (now : ℕ) (r : Registry Q F)
      → flag_after (refresh_devices now r).0 (refresh_devices now r).1.discovering
        ≡ flagged r.discovering + sweeps (refresh_devices now r).0
  unfolding refresh_devices
  refresh_devices_flag now r = ground arith

  launched_flag :
      (m : Moment) (w : W) (l : Launch) (r : Registry Q F)
      → flagged (launched net m w l r).0.discovering ≡ flag_after l r.discovering
  launched_flag m w no_sweep r = refl
  launched_flag m w background r = refl
  launched_flag m w blocking r = ap flagged (run_discovery-rest net m.sweep_end w r m.sweep).3

  refresh_flag :
      (m : Moment) (w : W) (r : Registry Q F)
      → flagged (refresh net m w r).1.discovering
        ≡ flagged r.discovering + sweeps (refresh_devices m.start r).0
  unfolding refresh
  refresh_flag m w r =
      let (launch, r1) = refresh_devices m.start r in
      launched_flag m w launch r1 ∙ refresh_devices_flag m.start r

  take_snapshot_flag :
      (m : Moment) (w : W) (r : Registry Q F)
      → flagged (take_snapshot net m w r).1.discovering
        ≡ flagged r.discovering + sweeps (launch_of m r)
  unfolding take_snapshot
  take_snapshot_flag m w r = elim (Bool-cases (is_fresh m.start r)) [
    | inl fresh ↦ rw fresh (omega arith)
    | inr stale ↦ rw stale (refresh_flag m w r)
  ]

  launched_manual :
      (m : Moment) (w : W) (l : Launch) (r : Registry Q F)
      → (launched net m w l r).0.manual ≡ r.manual
  launched_manual m w no_sweep r = refl
  launched_manual m w background r = refl
  launched_manual m w blocking r = (run_discovery-rest net m.sweep_end w r m.sweep).1

  refresh_devices_manual :
      (now : ℕ) (r : Registry Q F) → (refresh_devices now r).1.manual ≡ r.manual
  unfolding refresh_devices
  refresh_devices_manual now r = ground arith

  take_snapshot_manual :
      (m : Moment) (w : W) (r : Registry Q F) → (take_snapshot net m w r).1.manual ≡ r.manual
  unfolding take_snapshot refresh
  take_snapshot_manual m w r = elim (Bool-cases (is_fresh m.start r)) [
    | inl fresh ↦ rw fresh refl
    | inr stale ↦
        let (launch, r1) = refresh_devices m.start r in
        rw stale (launched_manual m w launch r1 ∙ refresh_devices_manual m.start r)
  ]

  Step-IsSteady :
      (opts : Options) {s t : System W Q F} → Step s t → IsSteady opts s → IsSteady opts t
  Step-IsSteady opts (scrape s m) h = record {
    manual = take_snapshot_manual m s.world s.registry ∙ h.manual;
    configured = take_snapshot-IsConfigured net m s.world s.registry h.configured;
    one_sweep = omega (arith, h.one_sweep, take_snapshot_flag m s.world s.registry);
  }
  Step-IsSteady opts (end_sweep s now found running) h = record {
    manual = (run_discovery-rest net now s.world s.registry found).1 ∙ h.manual;
    configured = run_discovery-IsConfigured net now s.world s.registry found h.configured;
    one_sweep =
        ground (arith, h.one_sweep, (run_discovery-rest net now s.world s.registry found).3);
  }

  Reach-IsSteady :
      (opts : Options) {s t : System W Q F} → IsSteady opts s → Reach s t → IsSteady opts t
  Reach-IsSteady opts h here = h
  Reach-IsSteady opts h (next r step) = Step-IsSteady opts step (Reach-IsSteady opts h r)

  abbrev pub started : Options → W → System W Q F
  started opts w = record { world = w; registry = new_registry opts; in_flight = 0 }

  -- From a new registry, whatever scrapes and sweeps follow and whatever the network answers, every
  -- address of the options keeps a device, and at most one background sweep is in flight, namely one
  -- exactly while the registry says that it is discovering.
  pub registry-IsSafe :
      (opts : Options) (w : W) {s : System W Q F} → Reach (started opts w) s → IsSafe opts s
  registry-IsSafe opts w {s = s} reached =
      let steady =
        Reach-IsSteady opts {s = started opts w}
          (record {
            manual = unfold new_registry in refl;
            configured = new_registry-IsConfigured opts (new_registry opts) refl;
            one_sweep = unfold new_registry in refl;
          })
          reached in
      record {
        configured =
            subst (λ hs. All (λ h. is_some (lookup h s.registry.devices) ≡ true) hs) steady.manual
              (each_listed _ s.registry.manual steady.configured);
        one_sweep = steady.one_sweep;
      }
