-- ===== src/Web/Mux.antt =====
-- The routes of kasa_exporter.go. The landing page, the handlers that are mounted, and which patterns
-- http.ServeMux takes to be in conflict, are parameters.
pub mod Routes
use kasa_exporter.Base.{
  ℕ, zero, suc, ◌+◌, ◌-◌, ◌*◌, ◌/◌, ◌%◌, ◌^◌, ◌≤◌, ◌<◌, String, ◌≡◌, refl, sym, ap, ◌∙◌, subst, ◌≢◌,
  ◌↔◌, ◌⊎◌, inl, inr, Bool, true, false, not, ◌&&◌, ◌||◌, Option, none, some, List, [], ◌∷◌, ◌++◌,
  map, arith, ltb, leb, ◌==◌, if◌then◌else◌, ltb→lt, lt→ltb, leb→le, ==_iff, Bool-cases,
  Option-cases, length, get_elem?, set, get_or, take, drop, replicate, length-append,
  take-append-drop, length-take, length-drop, length-replicate, length-map, All, Any, take_all,
  drop_all, take-append, drop-append, is_some, All-append, All-take, All-drop,
}
use kasa_exporter.Base.Text.{
  Text, codes, ◌==ₜ◌, ==ₜ_iff, ==ₜ_refl, contains, upper_byte, to_upper, has_prefix, has_infix,
}
use kasa_exporter.Base.Dict.{Dict, lookup}
use kasa_exporter.Errors.{
  Error, Result, ok, err, ◌>>◌, ◌>>=◌, reject_if, empty_path, relative_path, path_whitespace,
  path_wildcard, path_pprof,
}

-- `pprofPrefix`
abbrev pub pprof_prefix : Text
pprof_prefix = codes "/debug/pprof/"

-- strings.ContainsAny(s, chars)
unfoldable pub contains_any : (s chars : Text) → Bool
contains_any [] chars = false
contains_any (c ∷ s) chars = contains (map (λ d. d ∷ []) chars) (c ∷ []) || contains_any s chars

-- `validateMetricsPath`
unfoldable pub validate_metrics_path :
    (metrics_path : Text) (enable_pprof : Bool) → Result (Unit {0})
unfolding contains_any
validate_metrics_path metrics_path enable_pprof = do
  reject_if (length metrics_path == 0) empty_path
  reject_if (not (has_prefix metrics_path (codes "/"))) relative_path
  reject_if (contains_any metrics_path (32 ∷ 9 ∷ 13 ∷ 10 ∷ [])) path_whitespace
  reject_if (contains_any metrics_path (codes "{}")) path_wildcard
  reject_if (enable_pprof && has_prefix metrics_path pprof_prefix) path_pprof

-- The fields of `web.LandingConfig` that are not constants.
pub record LandingConfig : Type 0 where
  pub profiling : Bool
  pub address : Text

-- What a path is handled by.
pub data Route (H L : Type 0) : Type 0 where
  metrics : H → Route H L
  pprof_index pprof_cmdline pprof_profile pprof_symbol pprof_trace : Route H L
  landing : L → Route H L

-- A plain absolute path; http.ServeMux panics on a path that does not start with a slash, has white
-- space before it or wildcards in it.
abbrev pub is_plain : Text → Bool
is_plain p =
    has_prefix p (codes "/")
    && (not (contains_any p (32 ∷ 9 ∷ 13 ∷ 10 ∷ [])) && not (contains_any p (codes "{}")))

-- A path without an escape.
abbrev pub is_literal : Text → Bool
is_literal p = not (contains_any p (codes "%"))

-- http.ServeMux unescapes the segments of a pattern before it compares it with the others, and panics where
-- two are then the same; patterns without escapes are compared as they are.
abbrev pub ComparesLiterals : (conflicts : Text → Text → Bool) → Type 0
ComparesLiterals conflicts =
    (p q : Text) → is_literal p ≡ true → is_literal q ≡ true → conflicts p q ≡ (p ==ₜ q)

module _ {H L : Type 0} (conflicts : Text → Text → Bool) where
  -- Some pattern that is mounted is in conflict with `p`.
  abbrev pub taken : Text → Dict (Route H L) → Bool
  taken p [] = false
  taken p ((q, r) ∷ mux) = conflicts q p || taken p mux

  -- mux.Handle(p, r)
  abbrev pub handle : Text → Route H L → Dict (Route H L) → Option (Dict (Route H L))
  handle p r mux = if is_plain p && not (taken p mux) then some ((p, r) ∷ mux) else none

  -- Several calls, in order.
  abbrev pub handle_rest :
      Option (Dict (Route H L))
      → (Dict (Route H L) → Option (Dict (Route H L)))
      → Option (Dict (Route H L))
  handle_rest none rest = none
  handle_rest (some mux) rest = rest mux

  unfoldable pub handle_all : List (Text × Route H L) → Dict (Route H L) → Option (Dict (Route H L))
  handle_all [] mux = some mux
  handle_all ((p, r) ∷ routes) mux = handle_rest (handle p r mux) (λ more. handle_all routes more)

module _ {H L : Type 0} where
  abbrev pub pprof_routes : Bool → List (Text × Route H L)
  pprof_routes false = []
  pprof_routes true =
      (pprof_prefix, pprof_index)
      ∷ (codes "/debug/pprof/cmdline", pprof_cmdline)
      ∷ (codes "/debug/pprof/profile", pprof_profile)
      ∷ (codes "/debug/pprof/symbol", pprof_symbol)
      ∷ (codes "/debug/pprof/trace", pprof_trace)
      ∷ []

module _ {H L : Type 0} (conflicts : Text → Text → Bool)
    (new_landing_page : LandingConfig → Result L) where
  -- The landing page, unless the metrics are served there.
  abbrev pub with_landing :
      (metrics_path : Text) (enable_pprof : Bool)
      → Option (Dict (Route H L))
      → Result (Option (Dict (Route H L)))
  with_landing metrics_path enable_pprof none = ok none
  with_landing metrics_path enable_pprof (some mux) =
      if metrics_path ==ₜ codes "/"
      then ok (some mux)
      else new_landing_page (record { profiling = enable_pprof; address = metrics_path })
        >>= λ page. ok (handle conflicts (codes "/") (landing page) mux)

  -- `buildMux`; `ok none` is a panic.
  unfoldable pub build_mux :
      (metrics_path : Text) → H → (enable_pprof : Bool) → Result (Option (Dict (Route H L)))
  unfolding handle_all validate_metrics_path
  build_mux metrics_path handler enable_pprof = do
    validate_metrics_path metrics_path enable_pprof
    with_landing metrics_path enable_pprof
        (handle_all conflicts ((metrics_path, metrics handler) ∷ pprof_routes enable_pprof) [])
