-- ===== src/Web/Tests.antt =====
-- Two collectors, of which one is enabled, and a server that runs until it is told to stop.
use kasa_exporter.Web.Main.{Flags, FlagConfig, BuildInfo, main, version_string}
use kasa_exporter.Web.Main.Exits.{Exits, main-Exits}
use kasa_exporter.Web.Flags.{Parsing, parsed, unset_empty, parse_flags}
use kasa_exporter.Collector.Selection.States.{PathElement}
use kasa_exporter.Base.{
  Bool, List, take, ℕ, ◌≡◌, refl, true, false, ◌&&◌, Option, some, [], ◌∷◌, is_some,
}
use kasa_exporter.Base.Text.{Text, codes, ◌==ₜ◌, contains, has_prefix}
use kasa_exporter.Base.Int.{pos}
use kasa_exporter.Base.Dict.{Dict, lookup, insert}
use kasa_exporter.Base.Order.{leb_text, sort_by}
use kasa_exporter.Errors.{Result, ok}
use kasa_exporter.Collector.Selection.{
  Selection, new_kasa_collector, check_filters, build_collectors,
}
use kasa_exporter.Collector.Selection.Chosen.{chosen}
use kasa_exporter.Web.{
  Endpoint, Handler, served, new_handler, serve_http, inner_handler, not_excluded,
}
use kasa_exporter.Web.Requests.{Serving, started, requested, serve_http-requested}
use kasa_exporter.Web.Mux.{
  ComparesLiterals, is_literal, Route, metrics, landing, LandingConfig, build_mux,
  validate_metrics_path, contains_any, handle_all,
}
use kasa_exporter.Web.Mux.Routes.{Routes, build_mux-Routes}
use kasa_exporter.Web.Run.{run, selection_of, git_tag}
use kasa_exporter.Config.{trim_right, trim_left, trim_space}
use kasa_exporter.Web.Run.Serves.{Ends, run-Ends}

abbrev names : Text → Result Text
names name = ok name

abbrev accept : Dict Text → Result (Unit {0})
accept collectors = ok tt

abbrev plug : Text
plug = codes "plug"

abbrev at_start : Selection Text
at_start = record {
  enabled = (codes "plug", true) ∷ (codes "hub", false) ∷ (codes "bulb", true) ∷ [];
  forced = plug ∷ [];
  initiated = [];
}

abbrev both : Dict Text
both = (plug, plug) ∷ (codes "bulb", codes "bulb") ∷ []

abbrev handler : Handler Text
handler = record {
  unfiltered = some (record { collectors = both; self_metrics = true; max_requests = pos 40 });
  enabled_collectors = some (codes "bulb" ∷ plug ∷ []);
  include_exporter_metrics = true;
  max_requests = pos 40;
}

abbrev running : Selection Text
running = record at_start { initiated = both }

starts : new_handler names accept true (pos 40) at_start ≡ (ok handler, running)
unfolding new_handler inner_handler new_kasa_collector check_filters build_collectors lookup insert
    contains sort_by leb_text ◌==ₜ◌
starts = refl

serving : Serving names accept at_start handler running
serving = started true (pos 40) handler running starts

abbrev plug_only : Endpoint Text
plug_only = record { collectors = (plug, plug) ∷ []; self_metrics = true; max_requests = pos 40 }

without_bulb : (serve_http names accept handler running [] (codes "bulb" ∷ [])).0 ≡ served plug_only
unfolding serve_http not_excluded inner_handler new_kasa_collector check_filters build_collectors
    lookup insert contains ◌==ₜ◌
without_bulb = refl

serve_http-requested_example :
    is_some (lookup plug plug_only.collectors)
    ≡ (chosen [] at_start.enabled plug && requested [] (codes "bulb" ∷ []) plug)
serve_http-requested_example =
    serve_http-requested names accept at_start handler running [] (codes "bulb" ∷ []) plug_only plug
      serving without_bulb

abbrev page : LandingConfig → Result Text
page config = ok config.address

-- Patterns without escapes are compared as they are.
abbrev compared : Text → Text → Bool
compared p q = p ==ₜ q

literals : ComparesLiterals compared
literals p q own other = refl

literal_path : is_literal (codes "/metrics") ≡ true
unfolding contains_any contains ◌==ₜ◌
literal_path = refl

abbrev mounted : Option (Dict (Route ℕ Text))
mounted = some ((codes "/", landing (codes "/metrics")) ∷ (codes "/metrics", metrics 7) ∷ [])

mounts : build_mux compared page (codes "/metrics") 7 false ≡ ok mounted
unfolding build_mux handle_all validate_metrics_path contains_any has_prefix contains lookup ◌==ₜ◌
mounts = refl

build_mux-Routes_example : Routes (codes "/metrics") 7 false mounted
build_mux-Routes_example =
    build_mux-Routes compared literals page (codes "/metrics") 7 false mounted literal_path mounts

abbrev listen : Dict (Route (Handler Text) Text) → ℕ → Result (Unit {0})
listen mux toolkit = ok tt

run-Ends_example :
    Ends names accept page listen
      (selection_of true at_start)
      (codes "/metrics")
      0
      (run names accept compared page listen
        (codes "/metrics")
        false
        (pos 40)
        true
        true
        (some 0)
        at_start).0
run-Ends_example =
    run-Ends names accept compared literals page listen (codes "/metrics") false (pos 40) true true
      0 at_start literal_path

tagged : git_tag (codes " 1.4.0 ") ≡ codes "v1.4.0"
unfolding git_tag trim_space trim_left trim_right has_prefix ◌==ₜ◌
tagged = refl

-- --collector.plug --web.max-requests=40, with an empty KASA_DISCOVERY in the environment.
abbrev plug_path : (env : Dict Text) (args : List Text) → Parsing (List PathElement)
plug_path env args = parsed (record { flag = some (codes "collector.plug"); resolved = false } ∷ [])

abbrev plain_flags : (env : Dict Text) (args : List Text) → Flags
plain_flags env args = record {
  metrics_path = codes "/metrics";
  disable_exporter_metrics = false;
  max_requests = pos 40;
  disable_default_collectors = true;
  max_procs = pos 1;
  enable_pprof = false;
  web_listen_addresses = codes ":9498" ∷ [];
  web_config_file = [];
  log_level = codes "info";
  log_format = codes "logfmt";
  version = false;
  systemd = record { web_systemd_socket = false };
}

abbrev flag_names : List Text
flag_names = codes "KASA_DISCOVERY" ∷ []

abbrev environment : Dict Text
environment = (codes "KASA_DISCOVERY", []) ∷ (codes "GOMAXPROCS", codes "2") ∷ []

abbrev accept_text : Text → Result Text
accept_text s = ok s

abbrev listen_at : Dict (Route (Handler Text) Text) → FlagConfig → Result (Unit {0})
listen_at mux toolkit = ok tt

main-Exits_example :
    Exits names accept compared literals page listen_at accept_text accept_text
      (plain_flags (unset_empty flag_names environment) [])
      (parse_flags plug_path flag_names environment [] at_start)
      (main names accept compared page listen_at accept_text accept_text plug_path plain_flags
        flag_names environment [] at_start)
main-Exits_example =
    main-Exits names accept compared literals page listen_at accept_text accept_text plug_path
      plain_flags flag_names environment [] at_start literal_path

abbrev build_info : BuildInfo
build_info = record {
  version = codes "1.4.0";
  branch = codes "main";
  revision = codes "abc";
  build_user = codes "ci";
  build_date = codes "today";
  go_version = codes "go1.24";
  go_os = codes "linux";
  go_arch = codes "arm64";
  tags = codes "unknown";
}

version_named :
    take 46 (version_string (codes "kasa_exporter") build_info)
    ≡ codes "kasa_exporter, version 1.4.0 (branch: main, re"
unfolding version_string
version_named = refl
