-- ===== src/Web.antt =====
-- kasa_exporter.go: the metrics handler, which serves every enabled collector or the ones that a request
-- asks for. The factories of the collectors and the registration with Prometheus are parameters.
pub mod Flags
pub mod Main
pub mod Mux
pub mod Requests
pub mod Run
pub mod Tests
use kasa_exporter.Base.{
  ℕ, zero, suc, ◌+◌, ◌-◌, ◌*◌, ◌/◌, ◌%◌, ◌^◌, ◌≤◌, ◌<◌, String, ◌≡◌, refl, sym, ap, ◌∙◌, subst, ◌≢◌,
  ◌↔◌, ◌⊎◌, inl, inr, Bool, true, false, not, ◌&&◌, ◌||◌, Option, none, some, List, [], ◌∷◌, ◌++◌,
  map, arith, ltb, leb, ◌==◌, if◌then◌else◌, ltb→lt, lt→ltb, leb→le, ==_iff, Bool-cases,
  Option-cases, length, get_elem?, set, get_or, take, drop, replicate, length-append,
  take-append-drop, length-take, length-drop, length-replicate, length-map, All, Any, take_all,
  drop_all, take-append, drop-append, is_some, All-append, All-take, All-drop,
}
use kasa_exporter.Base.Text.{
  Text, codes, ◌==ₜ◌, ==ₜ_iff, ==ₜ_refl, contains, upper_byte, to_upper, has_prefix, has_infix,
}
use kasa_exporter.Base.Int.{
  ℤ, pos, negsuc, pos_part, neg_part, sub_ℕ, ◌+ℤ◌, ◌-ℤ◌, ◌*ℤ◌, ◌≤ℤ◌, ltb_ℤ,
}
use kasa_exporter.Base.Dict.{Dict, keys}
use kasa_exporter.Base.Order.{sort_by}
use kasa_exporter.Errors.{Error, Result, ok, err, ◌>>◌, ◌>>=◌}
use kasa_exporter.Collector.Selection.{Selection, new_kasa_collector}

-- What an http.Handler of `innerHandler` gathers: these collectors, and the exporter's own metrics.
pub record Endpoint (C : Type 0) : Type 0 where
  pub collectors : Dict C
  pub self_metrics : Bool
  pub max_requests : ℤ

-- `handler`; `enabled_collectors` is there once `enabledCollectorsOnce` is done.
pub record Handler (C : Type 0) : Type 0 where
  pub unfiltered : Option (Endpoint C)
  pub enabled_collectors : Option (List Text)
  pub include_exporter_metrics : Bool
  pub max_requests : ℤ

-- What a 400 reports.
pub data Refusal : Type 0 where
  combined_queries all_excluded : Refusal
  not_created : Error → Refusal

-- What is answered: the metrics of an endpoint, a 400, or nothing, for a handler that is nil.
pub data Response (C : Type 0) : Type 0 where
  served : Endpoint C → Response C
  bad_request : Refusal → Response C
  panicked : Response C

-- The enabled collectors that an exclusion leaves.
unfoldable pub not_excluded : (excludes enabled : List Text) → List Text
not_excluded excludes [] = []
not_excluded excludes (c ∷ enabled) =
    let rest = not_excluded excludes enabled in if contains excludes c then rest else c ∷ rest

-- What h.enabledCollectors is: nil before it is set.
abbrev pub names_of : Option (List Text) → List Text
names_of none = []
names_of (some names) = names

module _ {C : Type 0} where
  -- `enabledCollectorsOnce.Do`
  abbrev pub once : Handler C → Dict C → Option (List Text) → Handler C
  once h collectors (some names) = h
  once h collectors none = record h {
    enabled_collectors = some (sort_by (λ n. n) (keys collectors));
  }

  abbrev pub noted : Handler C → (filters : List Text) → Dict C → Handler C
  noted h [] collectors = once h collectors h.enabled_collectors
  noted h (filter ∷ filters) collectors = h

  abbrev pub endpoint : Handler C → Dict C → Endpoint C
  endpoint h collectors = record {
    collectors = collectors;
    self_metrics = h.include_exporter_metrics;
    max_requests = h.max_requests;
  }

module _ {C : Type 0} (factory : Text → Result C) (register : Dict C → Result (Unit {0})) where
  abbrev pub with_set :
      Handler C
      → (filters : List Text) → Result (Dict C) × Selection C
      → Result (Endpoint C) × Handler C × Selection C
  with_set h filters (err e, s) = (err e, h, s)
  with_set h filters (ok collectors, s) =
      (register collectors >> ok (endpoint h collectors), noted h filters collectors, s)

  -- `innerHandler`
  unfoldable pub inner_handler :
      Handler C
      → Selection C
      → (filters : List Text) → Result (Endpoint C) × Handler C × Selection C
  inner_handler h s filters = with_set h filters (new_kasa_collector factory s filters)

  abbrev pub with_unfiltered :
      Result (Endpoint C) × Handler C × Selection C → Result (Handler C) × Selection C
  with_unfiltered (err e, h, s) = (err e, s)
  with_unfiltered (ok e, h, s) = (ok (record h { unfiltered = some e }), s)

  -- `newHandler`
  unfoldable pub new_handler :
      (include_exporter_metrics : Bool) (max_requests : ℤ)
      → Selection C
      → Result (Handler C) × Selection C
  unfolding inner_handler
  new_handler include_exporter_metrics max_requests s = with_unfiltered (
      inner_handler
        (record {
          unfiltered = none;
          enabled_collectors = none;
          include_exporter_metrics = include_exporter_metrics;
          max_requests = max_requests;
        })
        s [])

  abbrev pub answered :
      Result (Endpoint C) × Handler C × Selection C → Response C × Handler C × Selection C
  answered (err e, h, s) = (bad_request (not_created e), h, s)
  answered (ok e, h, s) = (served e, h, s)

  abbrev pub serve_unfiltered : Option (Endpoint C) → Response C
  serve_unfiltered none = panicked
  serve_unfiltered (some e) = served e

  -- The filters that an exclusion comes to.
  abbrev pub serve_left : Handler C → Selection C → List Text → Response C × Handler C × Selection C
  serve_left h s [] = (bad_request all_excluded, h, s)
  serve_left h s (filter ∷ filters) = answered (inner_handler h s (filter ∷ filters))

  -- `ServeHTTP`
  unfoldable pub serve_http :
      Handler C
      → Selection C
      → (collects excludes : List Text) → Response C × Handler C × Selection C
  unfolding inner_handler not_excluded
  serve_http h s [] [] = (serve_unfiltered h.unfiltered, h, s)
  serve_http h s (c ∷ cs) (e ∷ es) = (bad_request combined_queries, h, s)
  serve_http h s (c ∷ cs) [] = answered (inner_handler h s (c ∷ cs))
  serve_http h s [] (e ∷ es) =
      serve_left h s (not_excluded (e ∷ es) (names_of h.enabled_collectors))
