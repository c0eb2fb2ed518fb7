-- ===== src/Web/Run/Serves.antt =====
-- What a start of kasa_exporter.go comes to.
use kasa_exporter.Base.{◌≡◌, refl, subst, Bool, not, Option, none, some}
use kasa_exporter.Base.Text.{Text}
use kasa_exporter.Base.Int.{ℤ}
use kasa_exporter.Base.Dict.{Dict, lookup}
use kasa_exporter.Errors.{Result, ok, err}
use kasa_exporter.Collector.Selection.{Selection}
use kasa_exporter.Web.{Handler, new_handler}
use kasa_exporter.Web.Requests.{Serving, started}
use kasa_exporter.Base.{true}
use kasa_exporter.Web.Mux.{ComparesLiterals, is_literal, Route, LandingConfig, metrics, build_mux}
use kasa_exporter.Web.Mux.Routes.{build_mux-Routes}
use kasa_exporter.Web.Run.{selection_of, run, with_handler, listened}

module _ {C L T : Type 0} (factory : Text → Result C) (register : Dict C → Result (Unit {0}))
    (new_landing_page : LandingConfig → Result L)
    (listen_and_serve : Dict (Route (Handler C) L) → T → Result (Unit {0})) where
  -- Some listener was started, for routes that have a metrics handler that was built from these collectors.
  abbrev pub Listens : Selection C → (path : Text) → T → Type 0
  Listens start path toolkit =
      (mux : Dict (Route (Handler C) L)) × (h : Handler C) × (s : Selection C) × (listen_and_serve
          mux toolkit
        ≡ ok tt)
      × (lookup path mux ≡ some (metrics h))
      × Serving factory register start h s

  -- A run that ends, well or not, did not panic.
  abbrev pub Ends : Selection C → (path : Text) → T → Option (Result (Unit {0})) → Type 0
  Ends start path toolkit none = ⊥
  Ends start path toolkit (some (err e)) = Unit
  Ends start path toolkit (some (ok _)) = Listens start path toolkit

  served_by :
      (start : Selection C) (path : Text) (toolkit : T) (mux : Dict (Route (Handler C) L))
      (h : Handler C) (s : Selection C)
      → Serving factory register start h s
      → lookup path mux ≡ some (metrics h)
      → (r : Result (Unit {0})) → listen_and_serve mux toolkit ≡ r
      → Ends start path toolkit (some r)
  served_by start path toolkit mux h s serving mounted (err e) result = tt
  served_by start path toolkit mux h s serving mounted (ok _) result =
      (mux, h, s, result, mounted, serving)

module _ {C L T : Type 0} (factory : Text → Result C) (register : Dict C → Result (Unit {0}))
    (conflicts : Text → Text → Bool) (literals : ComparesLiterals conflicts)
    (new_landing_page : LandingConfig → Result L)
    (listen_and_serve : Dict (Route (Handler C) L) → T → Result (Unit {0})) where
  listened-Ends :
      (start : Selection C) (path : Text) (toolkit : T) (pprof : Bool) (h : Handler C)
      (s : Selection C) (m : Result (Option (Dict (Route (Handler C) L))))
      → is_literal path ≡ true
      → Serving factory register start h s
      → build_mux conflicts new_landing_page path h pprof ≡ m
      → Ends factory register new_landing_page listen_and_serve start path toolkit
          (listened factory register conflicts new_landing_page listen_and_serve toolkit m)
  listened-Ends start path toolkit pprof h s (err e) plain serving built = tt
  listened-Ends start path toolkit pprof h s (ok none) plain serving built =
      let (mux, e, mounted, profiling, rest) =
        build_mux-Routes conflicts literals new_landing_page path h pprof none plain built in
      cc e
  listened-Ends start path toolkit pprof h s (ok (some mux)) plain serving built =
      let (same, e, mounted, profiling, rest) =
        build_mux-Routes conflicts literals new_landing_page path h pprof (some mux) plain built in
      let there : lookup path mux ≡ some (metrics h) =
        subst (λ x. lookup path x ≡ some (metrics h)) (cc e) mounted in
      served_by factory register new_landing_page listen_and_serve start path toolkit mux h s
        serving there (listen_and_serve mux toolkit) refl

  with_handler-Ends :
      (self_metrics : Bool) (limit : ℤ) (start : Selection C) (path : Text) (toolkit : T)
      (pprof : Bool) (x : Result (Handler C) × Selection C)
      → is_literal path ≡ true
      → new_handler factory register self_metrics limit start ≡ x
      → Ends factory register new_landing_page listen_and_serve start path toolkit
          (with_handler factory register conflicts new_landing_page listen_and_serve path pprof
            toolkit x).0
  with_handler-Ends self_metrics limit start path toolkit pprof (err e, s) plain made = tt
  with_handler-Ends self_metrics limit start path toolkit pprof (ok h, s) plain made =
      listened-Ends start path toolkit pprof h s (build_mux conflicts new_landing_page path h pprof)
        plain (started self_metrics limit h s made) refl

  -- With the flags of the web toolkit there and a metrics path without a percent sign, a run never panics,
  -- whatever the other flags are; and where it ends without an error, it listened with routes that serve, under the metrics path, a handler that was
  -- built from the collectors that the flags leave to choose from.
  pub run-Ends :
      (path : Text) (disable_exporter_metrics : Bool) (max_requests : ℤ)
      (disable_defaults pprof : Bool) (toolkit : T) (s : Selection C)
      → is_literal path ≡ true
      → Ends factory register new_landing_page listen_and_serve
          (selection_of disable_defaults s)
          path
          toolkit
          (run factory register conflicts new_landing_page listen_and_serve path
            disable_exporter_metrics max_requests disable_defaults pprof
            (some toolkit)
            s).0
  unfolding run
  run-Ends path disable_exporter_metrics max_requests disable_defaults pprof toolkit s plain =
      with_handler-Ends (not disable_exporter_metrics) max_requests
        (selection_of disable_defaults s) path toolkit pprof _ plain refl
