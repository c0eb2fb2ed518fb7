-- ===== src/Web/Main.antt =====
-- `main` of kasa_exporter.go: from the command line to the exit status. kong's parser, the level and the
-- format of promslog and the parts that `run` takes are parameters; what is logged is left out.
pub mod Exits
use kasa_exporter.Base.{
  ℕ, zero, suc, ◌+◌, ◌-◌, ◌*◌, ◌/◌, ◌%◌, ◌^◌, ◌≤◌, ◌<◌, String, ◌≡◌, refl, sym, ap, ◌∙◌, subst, ◌≢◌,
  ◌↔◌, ◌⊎◌, inl, inr, Bool, true, false, not, ◌&&◌, ◌||◌, Option, none, some, List, [], ◌∷◌, ◌++◌,
  map, arith, ltb, leb, ◌==◌, if◌then◌else◌, ltb→lt, lt→ltb, leb→le, ==_iff, Bool-cases,
  Option-cases, length, get_elem?, set, get_or, take, drop, replicate, length-append,
  take-append-drop, length-take, length-drop, length-replicate, length-map, All, Any, take_all,
  drop_all, take-append, drop-append, is_some, All-append, All-take, All-drop,
}
use kasa_exporter.Base.Text.{Text, codes}
use kasa_exporter.Base.Int.{ℤ}
use kasa_exporter.Web.Run.{run, git_tag}
use kasa_exporter.Base.Dict.{Dict}
use kasa_exporter.Web.Mux.{Route, LandingConfig}
use kasa_exporter.Web.{Handler}
use kasa_exporter.Collector.Selection.{Selection}
use kasa_exporter.Collector.Selection.States.{PathElement}
use kasa_exporter.Web.Flags.{Parsing, usage_error, informed, parsed, parse_flags, unset_empty}
use kasa_exporter.Errors.{◌>>=◌, Result, ok, err}

-- `systemdFlags`
pub record SystemdFlags : Type 0 where
  pub web_systemd_socket : Bool

-- `flags`; kong prints the version and exits where it parses the flag of that name.
pub record Flags : Type 0 where
  pub metrics_path : Text
  pub disable_exporter_metrics : Bool
  pub max_requests : ℤ
  pub disable_default_collectors : Bool
  pub max_procs : ℤ
  pub enable_pprof : Bool
  pub web_listen_addresses : List Text
  pub web_config_file : Text
  pub log_level : Text
  pub log_format : Text
  pub version : Bool
  pub systemd : SystemdFlags

-- `web.FlagConfig` of exporter-toolkit.
pub record FlagConfig : Type 0 where
  pub web_listen_addresses : List Text
  pub web_systemd_socket : Bool
  pub web_config_file : Text

-- `webFlags`
abbrev pub web_flags : Flags → FlagConfig
web_flags f = record {
  web_listen_addresses = f.web_listen_addresses;
  web_systemd_socket = f.systemd.web_systemd_socket;
  web_config_file = f.web_config_file;
}

-- `promslog.Config`
pub record LogConfig (L M : Type 0) : Type 0 where
  pub level : L
  pub format : M

-- What package version was stamped with.
pub record BuildInfo : Type 0 where
  pub version : Text
  pub branch : Text
  pub revision : Text
  pub build_user : Text
  pub build_date : Text
  pub go_version : Text
  pub go_os : Text
  pub go_arch : Text
  pub tags : Text

abbrev line : Text → Text
line s = 10 ∷ (codes "  " ++ s)

-- `versionString`
unfoldable pub version_string : (program : Text) → BuildInfo → Text
version_string program b =
    let head =
      program
      ++ (codes ", version "
          ++ (b.version
              ++ (codes " (branch: "
                  ++ (b.branch ++ (codes ", revision: " ++ (b.revision ++ codes ")")))))) in
    head
    ++ (line (codes "build user:       " ++ b.build_user)
        ++ (line (codes "build date:       " ++ b.build_date)
            ++ (line (codes "go version:       " ++ b.go_version)
                ++ (line (codes "platform:         " ++ (b.go_os ++ (codes "/" ++ b.go_arch)))
                    ++ line (
                        codes "tags:             git="
                        ++ (git_tag b.version ++ (codes ", go=" ++ b.tags)))))))

module _ {Lv Fm : Type 0} (set_level : Text → Result Lv) (set_format : Text → Result Fm) where
  -- `logConfig`
  abbrev pub log_config : Flags → Result (LogConfig Lv Fm)
  log_config f = do
    level ← set_level f.log_level
    format ← set_format f.log_format
    ok (record { level = level; format = format })

-- How a start ends: with an exit status, 0 where main returns, or with a panic.
pub data Exit : Type 0 where
  exited : (status : ℕ) → Exit
  panicked : Exit

module _ {C L Lv Fm : Type 0} (factory : Text → Result C) (register : Dict C → Result (Unit {0}))
    (conflicts : Text → Text → Bool) (new_landing_page : LandingConfig → Result L)
    (listen_and_serve : Dict (Route (Handler C) L) → FlagConfig → Result (Unit {0}))
    (set_level : Text → Result Lv) (set_format : Text → Result Fm) where
  abbrev pub status_of : Option (Result (Unit {0})) → Exit
  status_of none = panicked
  status_of (some (err e)) = exited 1
  status_of (some (ok _)) = exited 0

  -- The call of `run`.
  abbrev pub run_with : Flags → Selection C → Option (Result (Unit {0})) × Selection C
  run_with f s =
      run factory register conflicts new_landing_page listen_and_serve f.metrics_path
        f.disable_exporter_metrics f.max_requests f.disable_default_collectors f.enable_pprof
        (some (web_flags f)) s

  -- parser.FatalIfErrorf exits with 1 on an error.
  abbrev pub with_logger : Flags → Selection C → Result (LogConfig Lv Fm) → Exit
  with_logger f s (err e) = exited 1
  with_logger f s (ok config) = status_of (run_with f s).0

  abbrev pub with_flags : Flags → Parsing (Selection C) → Exit
  with_flags f (usage_error e) = exited 1
  with_flags f informed = exited 0
  with_flags f (parsed s) = with_logger f s (log_config set_level set_format f)

  -- `main`; kong gives the path, and fills the flags.
  unfoldable pub main :
      (parse : Dict Text → (args : List Text) → Parsing (List PathElement))
      (fill : Dict Text → (args : List Text) → Flags) (names : List Text)
      → Dict Text
      → (args : List Text) → Selection C
      → Exit
  main parse fill names env args s =
      with_flags (fill (unset_empty names env) args) (parse_flags parse names env args s)
