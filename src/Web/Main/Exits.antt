-- ===== src/Web/Main/Exits.antt =====
-- How `main` of kasa_exporter.go ends.
use kasa_exporter.Base.Text.{Text}
use kasa_exporter.Base.{Bool, zero, suc, ◌≡◌, refl, Option, none, some, List}
use kasa_exporter.Errors.{Result, ok, err}
use kasa_exporter.Web.Main.{
  Flags, FlagConfig, Exit, exited, panicked, web_flags, log_config, with_flags, with_logger,
  status_of, LogConfig, main,
}
use kasa_exporter.Base.Dict.{Dict}
use kasa_exporter.Web.Mux.{Route, LandingConfig}
use kasa_exporter.Web.{Handler}
use kasa_exporter.Collector.Selection.{Selection}
use kasa_exporter.Collector.Selection.States.{PathElement}
use kasa_exporter.Web.Run.{selection_of}
use kasa_exporter.Base.{◌⊎◌, inl, inr, true}
use kasa_exporter.Web.Mux.{ComparesLiterals, is_literal}
use kasa_exporter.Web.Flags.{Parsing, usage_error, informed, parsed, parse_flags, unset_empty}
use kasa_exporter.Web.Run.Serves.{Listens, Ends, run-Ends}

module _ {C L Lv Fm : Type 0} (factory : Text → Result C) (register : Dict C → Result (Unit {0}))
    (conflicts : Text → Text → Bool) (literals : ComparesLiterals conflicts)
    (new_landing_page : LandingConfig → Result L)
    (listen_and_serve : Dict (Route (Handler C) L) → FlagConfig → Result (Unit {0}))
    (set_level : Text → Result Lv) (set_format : Text → Result Fm) where
  -- What is left of the start once the command line was parsed: the collectors, and a configuration of
  -- the log.
  abbrev pub Started : Flags → Parsing (Selection C) → Type 0
  Started f parsing =
      (s : Selection C) × (config : LogConfig Lv Fm) × (parsing ≡ parsed s)
      × (log_config set_level set_format f ≡ ok config)
      × Listens factory register new_landing_page listen_and_serve
          (selection_of f.disable_default_collectors s) f.metrics_path (web_flags f)

  -- Status 0 for help, the version and a start that listened, status 1 for any other, and no panic.
  abbrev pub Exits : Flags → Parsing (Selection C) → Exit → Type 0
  Exits f parsing panicked = ⊥
  Exits f parsing (exited zero) = (parsing ≡ informed) ⊎ Started f parsing
  Exits f parsing (exited (suc n)) = n ≡ 0

  status-Exits :
      (f : Flags) (parsing : Parsing (Selection C)) (s : Selection C) (config : LogConfig Lv Fm)
      (r : Option (Result (Unit {0})))
      → parsing ≡ parsed s
      → log_config set_level set_format f ≡ ok config
      → Ends factory register new_landing_page listen_and_serve
          (selection_of f.disable_default_collectors s)
          f.metrics_path
          (web_flags f)
          r
      → Exits f parsing (
          status_of factory register conflicts new_landing_page listen_and_serve set_level
            set_format r)
  status-Exits f parsing s config none p l h = h
  status-Exits f parsing s config (some (err e)) p l h = refl
  status-Exits f parsing s config (some (ok _)) p l h = inr (s, config, p, l, h)

  logger-Exits :
      (f : Flags) (parsing : Parsing (Selection C)) (s : Selection C) (c : Result (LogConfig Lv Fm))
      → is_literal f.metrics_path ≡ true
      → parsing ≡ parsed s
      → log_config set_level set_format f ≡ c
      → Exits f parsing (
          with_logger factory register conflicts new_landing_page listen_and_serve set_level
            set_format f s c)
  logger-Exits f parsing s (err e) plain p l = refl
  logger-Exits f parsing s (ok config) plain p l = status-Exits f parsing s config _ p l (
      run-Ends factory register conflicts literals new_landing_page listen_and_serve f.metrics_path
        f.disable_exporter_metrics f.max_requests f.disable_default_collectors f.enable_pprof
        (web_flags f) s plain)

  flags-Exits :
      (f : Flags) (parsing r : Parsing (Selection C))
      → is_literal f.metrics_path ≡ true
      → parsing ≡ r
      → Exits f parsing (
          with_flags factory register conflicts new_landing_page listen_and_serve set_level
            set_format f r)
  flags-Exits f parsing (usage_error e) plain p = refl
  flags-Exits f parsing informed plain p = inl p
  flags-Exits f parsing (parsed s) plain p = logger-Exits f parsing s _ plain p refl

  -- With a metrics path that has no percent sign, the exporter never panics on its command line or
  -- environment, whatever they are. It ends with status 0 only after --help or --version, or after the
  -- flags were parsed, the log was configured, and a listener ended without an error that served, under
  -- the metrics path, a handler of the collectors that the flags leave; it ends with status 1 in every
  -- other case.
  pub main-Exits :
      (parse : Dict Text → List Text → Parsing (List PathElement))
      (fill : Dict Text → List Text → Flags) (names : List Text) (env : Dict Text)
      (args : List Text) (s : Selection C)
      → is_literal (fill (unset_empty names env) args).metrics_path ≡ true
      → Exits (fill (unset_empty names env) args) (parse_flags parse names env args s) (
          main factory register conflicts new_landing_page listen_and_serve set_level set_format
            parse fill names env args s)
  unfolding main
  main-Exits parse fill names env args s plain =
      flags-Exits (fill (unset_empty names env) args) (parse_flags parse names env args s) _ plain
        refl
