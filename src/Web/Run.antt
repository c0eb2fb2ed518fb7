-- ===== src/Web/Run.antt =====
-- The start of kasa_exporter.go: `run`, from the parsed flags to the listener, which is a parameter. Its
-- logging and its runtime setting are left out.
pub mod Serves
use kasa_exporter.Base.{
  ℕ, zero, suc, ◌+◌, ◌-◌, ◌*◌, ◌/◌, ◌%◌, ◌^◌, ◌≤◌, ◌<◌, String, ◌≡◌, refl, sym, ap, ◌∙◌, subst, ◌≢◌,
  ◌↔◌, ◌⊎◌, inl, inr, Bool, true, false, not, ◌&&◌, ◌||◌, Option, none, some, List, [], ◌∷◌, ◌++◌,
  map, arith, ltb, leb, ◌==◌, if◌then◌else◌, ltb→lt, lt→ltb, leb→le, ==_iff, Bool-cases,
  Option-cases, length, get_elem?, set, get_or, take, drop, replicate, length-append,
  take-append-drop, length-take, length-drop, length-replicate, length-map, All, Any, take_all,
  drop_all, take-append, drop-append, is_some, All-append, All-take, All-drop,
}
use kasa_exporter.Base.Text.{
  Text, codes, ◌==ₜ◌, ==ₜ_iff, ==ₜ_refl, contains, upper_byte, to_upper, has_prefix, has_infix,
}
use kasa_exporter.Base.Int.{
  ℤ, pos, negsuc, pos_part, neg_part, sub_ℕ, ◌+ℤ◌, ◌-ℤ◌, ◌*ℤ◌, ◌≤ℤ◌, ltb_ℤ,
}
use kasa_exporter.Base.Dict.{Dict, lookup}
use kasa_exporter.Errors.{Error, Result, ok, err, missing_web_flags}
use kasa_exporter.Config.{trim_space}
use kasa_exporter.Collector.Selection.{Selection, disable_default_collectors}
use kasa_exporter.Web.{Handler, new_handler}
use kasa_exporter.Web.Mux.{Route, LandingConfig, build_mux}

-- `gitTag` of a build version.
unfoldable pub git_tag : (version : Text) → Text
git_tag version =
    let v = trim_space version in
    if length v == 0 || v ==ₜ codes "unknown"
    then codes "unknown"
    else if has_prefix v (codes "v")
    then v
    else codes "v" ++ v

-- The collectors that are left to choose from.
abbrev pub selection_of : {C : Type 0} → (disable_defaults : Bool) → Selection C → Selection C
selection_of true s = disable_default_collectors s
selection_of false s = s

module _ {C L T : Type 0} (factory : Text → Result C) (register : Dict C → Result (Unit {0}))
    (conflicts : Text → Text → Bool) (new_landing_page : LandingConfig → Result L)
    (listen_and_serve : Dict (Route (Handler C) L) → T → Result (Unit {0})) where
  abbrev pub listened :
      T → Result (Option (Dict (Route (Handler C) L))) → Option (Result (Unit {0}))
  listened toolkit (err e) = some (err e)
  listened toolkit (ok none) = none
  listened toolkit (ok (some mux)) = some (listen_and_serve mux toolkit)

  abbrev pub with_handler :
      (metrics_path : Text) (enable_pprof : Bool)
      → T
      → Result (Handler C) × Selection C
      → Option (Result (Unit {0})) × Selection C
  with_handler metrics_path enable_pprof toolkit (err e, s) = (some (err e), s)
  with_handler metrics_path enable_pprof toolkit (ok h, s) =
      (listened toolkit (build_mux conflicts new_landing_page metrics_path h enable_pprof), s)

  -- `run`; `none` is a panic.
  unfoldable pub run :
      (metrics_path : Text) (disable_exporter_metrics : Bool) (max_requests : ℤ)
      (disable_defaults enable_pprof : Bool)
      → Option T
      → Selection C
      → Option (Result (Unit {0})) × Selection C
  run metrics_path disable_exporter_metrics max_requests disable_defaults enable_pprof none s =
      (some (err missing_web_flags), s)
  run metrics_path disable_exporter_metrics max_requests disable_defaults enable_pprof
        (some toolkit) s =
      with_handler metrics_path enable_pprof toolkit (
        new_handler factory register (not disable_exporter_metrics) max_requests
          (selection_of disable_defaults s))
