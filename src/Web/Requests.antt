-- ===== src/Web/Requests.antt =====
-- What kasa_exporter.go serves, from its start on and over any sequence of requests.
use kasa_exporter.Base.{
  ◌≡◌, refl, sym, ap, ◌∙◌, subst, ◌≢◌, inl, inr, Bool, not, ◌&&◌, ◌||◌, none, some, List, [], ◌∷◌,
  arith, ◌==◌, Bool-cases, length, is_some,
}
use kasa_exporter.Base.Text.{Text, ◌==ₜ◌, ==ₜ_iff, contains}
use kasa_exporter.Base.Int.{ℤ}
use kasa_exporter.Base.Dict.{contains-keys, Dict, keys, lookup}
use kasa_exporter.Errors.{Result, ok, err, ◌>>◌, ok-injective}
use kasa_exporter.Collector.Selection.{Selection, within, new_kasa_collector}
use kasa_exporter.Collector.Selection.Chosen.{
  chosen, chosen-within, new_kasa_collector-chosen, new_kasa_collector-enabled,
}
use kasa_exporter.Base.Order.{sort_by, contains-sort_by}
use kasa_exporter.Web.{
  served, panicked, serve_unfiltered, served, endpoint, noted, with_unfiltered, answered, names_of,
  serve_left, with_set, serve_http, Endpoint, new_handler, inner_handler, Handler, not_excluded,
}

contains-not_excluded :
    (excludes enabled : List Text) (n : Text)
    → contains (not_excluded excludes enabled) n ≡ (contains enabled n && not (contains excludes n))
unfolding contains not_excluded
contains-not_excluded excludes [] n = refl
contains-not_excluded excludes (c ∷ enabled) n =
    let later = contains-not_excluded excludes enabled n in
    elim (Bool-cases (c ==ₜ n)) [
      | inl same ↦
          let equal = ap (contains excludes) ((==ₜ_iff c n).0 same) in
          ground (arith, later, equal, same)
      | inr other ↦ ground (arith, later, other)
    ]

-- What a request asks for.
abbrev pub requested : (collects excludes : List Text) → Text → Bool
requested collects excludes n =
    (length collects == 0 || contains collects n) && not (contains excludes n)

module _ {C : Type 0} (factory : Text → Result C) (register : Dict C → Result (Unit {0})) where
  -- The handlers and collectors that requests may meet after the start.
  pub data Serving (start : Selection C) : Handler C → Selection C → Type 0 where
    started :
        (include_exporter_metrics : Bool) (max_requests : ℤ) (h : Handler C) (s : Selection C)
        → new_handler factory register include_exporter_metrics max_requests start ≡ (ok h, s)
        → Serving start h s
    requested_of :
        {h : Handler C} {s : Selection C} (collects excludes : List Text)
        → Serving start h s
        → Serving start
            (serve_http factory register h s collects excludes).1
            (serve_http factory register h s collects excludes).2

  -- The states of the collectors have not changed, all of the enabled ones are served unless a request
  -- says otherwise, and their names are known.
  record IsStarted (start : Selection C) (h : Handler C) (s : Selection C) : Type 0 where
    unfiltered : Endpoint C
    names : List Text
    enabled : s.enabled ≡ start.enabled
    ready : h.unfiltered ≡ some unfiltered
    known : h.enabled_collectors ≡ some names
    all : (n : Text) → is_some (lookup n unfiltered.collectors) ≡ chosen [] start.enabled n
    listed : (n : Text) → contains names n ≡ chosen [] start.enabled n

  with_set_ok :
      (h : Handler C) (filters : List Text) (x : Result (Dict C) × Selection C) (e : Endpoint C)
      → (with_set factory register h filters x).0 ≡ ok e
      → x.0 ≡ ok e.collectors
  with_set_ok h filters (err failure, s) e p = cc p
  with_set_ok h filters (ok collectors, s) e p = ground (arith, p)

  -- An endpoint has what is enabled and passes the filters.
  inner_handler_ok :
      (h : Handler C) (s : Selection C) (filters : List Text) (e : Endpoint C) (n : Text)
      → (inner_handler factory register h s filters).0 ≡ ok e
      → is_some (lookup n e.collectors) ≡ (chosen [] s.enabled n && within filters n)
  unfolding inner_handler
  inner_handler_ok h s filters e n p =
      new_kasa_collector-chosen factory s filters e.collectors n
        (with_set_ok h filters (new_kasa_collector factory s filters) e p)
      ∙ chosen-within filters s.enabled n

  moved-IsStarted :
      (start : Selection C) (h : Handler C) (s s' : Selection C)
      → s'.enabled ≡ s.enabled
      → IsStarted start h s
      → IsStarted start h s'
  moved-IsStarted start h s s' same i = record {
    unfiltered = i.unfiltered;
    names = i.names;
    enabled = same ∙ i.enabled;
    ready = i.ready;
    known = i.known;
    all = i.all;
    listed = i.listed;
  }

  with_set-IsStarted :
      (start : Selection C) (filter : Text) (filters : List Text) (h : Handler C)
      (x : Result (Dict C) × Selection C)
      → IsStarted start h x.1
      → IsStarted start
          (with_set factory register h (filter ∷ filters) x).1
          (with_set factory register h (filter ∷ filters) x).2
  with_set-IsStarted start filter filters h (err e, s) i = i
  with_set-IsStarted start filter filters h (ok collectors, s) i = i

  answered-state :
      (x : Result (Endpoint C) × Handler C × Selection C)
      → ((answered factory register x).1 ≡ x.1) × ((answered factory register x).2 ≡ x.2)
  answered-state (err e, h, s) = (refl, refl)
  answered-state (ok e, h, s) = (refl, refl)

  filtered-IsStarted :
      (start : Selection C) (filter : Text) (filters : List Text) (h : Handler C) (s : Selection C)
      → IsStarted start h s
      → IsStarted start
          (answered factory register (inner_handler factory register h s (filter ∷ filters))).1
          (answered factory register (inner_handler factory register h s (filter ∷ filters))).2
  unfolding inner_handler
  filtered-IsStarted start filter filters h s i =
      let (same_h, same_s) =
        answered-state (inner_handler factory register h s (filter ∷ filters)) in
      let kept = new_kasa_collector-enabled factory s (filter ∷ filters) in
      let x = new_kasa_collector factory s (filter ∷ filters) in
      rw (same_h, same_s)
        (with_set-IsStarted start filter filters h x (moved-IsStarted start h s x.1 kept i))

  left-IsStarted :
      (start : Selection C) (filters : List Text) (h : Handler C) (s : Selection C)
      → IsStarted start h s
      → IsStarted start
          (serve_left factory register h s filters).1
          (serve_left factory register h s filters).2
  left-IsStarted start [] h s i = i
  left-IsStarted start (filter ∷ filters) h s i = filtered-IsStarted start filter filters h s i

  serve_http-IsStarted :
      (start : Selection C) (h : Handler C) (s : Selection C) (collects excludes : List Text)
      → IsStarted start h s
      → IsStarted start
          (serve_http factory register h s collects excludes).1
          (serve_http factory register h s collects excludes).2
  unfolding serve_http
  serve_http-IsStarted start h s [] [] i = i
  serve_http-IsStarted start h s (c ∷ cs) (e ∷ es) i = i
  serve_http-IsStarted start h s (c ∷ cs) [] i = filtered-IsStarted start c cs h s i
  serve_http-IsStarted start h s [] (e ∷ es) i =
      left-IsStarted start (not_excluded (e ∷ es) (names_of h.enabled_collectors)) h s i

  -- A handler before its first set of collectors.
  abbrev blank : Bool → ℤ → Handler C
  blank self_metrics limit = record {
    unfiltered = none;
    enabled_collectors = none;
    include_exporter_metrics = self_metrics;
    max_requests = limit;
  }

  registered-IsStarted :
      (self_metrics : Bool) (limit : ℤ) (start s s' : Selection C) (h : Handler C)
      (collectors : Dict C) (r : Result (Unit {0}))
      → ((n : Text) → is_some (lookup n collectors) ≡ chosen [] start.enabled n)
      → s.enabled ≡ start.enabled
      → with_unfiltered factory register (
        (r >> ok (endpoint (blank self_metrics limit) collectors)),
        noted (blank self_metrics limit) [] collectors,
        s,
      )
        ≡ (ok h, s')
      → IsStarted start h s'
  registered-IsStarted self_metrics limit start s s' h collectors (err e) all kept p = absurd (cc p)
  registered-IsStarted self_metrics limit start s s' h collectors (ok _) all kept p =
      subst (λ x. IsStarted start x s') (ok-injective (ap (λ x. x.0) p))
        (moved-IsStarted start _ s s' (ap (λ x. x.1.enabled) (sym p)) (record {
          unfiltered = endpoint (blank self_metrics limit) collectors;
          names = sort_by (λ n. n) (keys collectors);
          enabled = kept;
          ready = refl;
          known = refl;
          all = all;
          listed = λ n. contains-sort_by (keys collectors) n ∙ contains-keys collectors n ∙ all n;
        }))

  with_set-starts :
      (self_metrics : Bool) (limit : ℤ) (start s' : Selection C) (h : Handler C)
      (x : Result (Dict C) × Selection C)
      → ((n : Text) (out : Dict C)
          → x.0 ≡ ok out
          → is_some (lookup n out) ≡ chosen [] start.enabled n)
      → x.1.enabled ≡ start.enabled
      → with_unfiltered factory register (with_set factory register (blank self_metrics limit) [] x)
        ≡ (ok h, s')
      → IsStarted start h s'
  with_set-starts self_metrics limit start s' h (err e, s) all kept p = absurd (cc p)
  with_set-starts self_metrics limit start s' h (ok collectors, s) all kept p =
      registered-IsStarted self_metrics limit start s s' h collectors (register collectors)
        (λ n. all n collectors refl) kept p

  new_handler-IsStarted :
      (self_metrics : Bool) (limit : ℤ) (start s' : Selection C) (h : Handler C)
      → new_handler factory register self_metrics limit start ≡ (ok h, s')
      → IsStarted start h s'
  unfolding new_handler inner_handler
  new_handler-IsStarted self_metrics limit start s' h p =
      with_set-starts self_metrics limit start s' h (new_kasa_collector factory start [])
        (λ n out e. new_kasa_collector-chosen factory start [] out n e)
        (new_kasa_collector-enabled factory start []) p

  Serving-IsStarted :
      (start : Selection C) (h : Handler C) (s : Selection C)
      → Serving start h s
      → IsStarted start h s
  Serving-IsStarted start h s (started self_metrics limit h' s' p) =
      new_handler-IsStarted self_metrics limit start s h p
  Serving-IsStarted start h s (requested_of {h = before} {s = earlier} collects excludes reached) =
      serve_http-IsStarted start before earlier collects excludes
        (Serving-IsStarted start before earlier reached)

  answered_served :
      (x : Result (Endpoint C) × Handler C × Selection C) (e : Endpoint C)
      → (answered factory register x).0 ≡ served e
      → x.0 ≡ ok e
  answered_served (err failure, h, s) e p = cc p
  answered_served (ok other, h, s) e p = cc p

  filtered_served :
      (start : Selection C) (h : Handler C) (s : Selection C) (filter : Text) (filters : List Text)
      (e : Endpoint C) (n : Text)
      → IsStarted start h s
      → (answered factory register (inner_handler factory register h s (filter ∷ filters))).0
        ≡ served e
      → is_some (lookup n e.collectors)
        ≡ (chosen [] start.enabled n && contains (filter ∷ filters) n)
  filtered_served start h s filter filters e n i p =
      inner_handler_ok h s (filter ∷ filters) e n
        (answered_served (inner_handler factory register h s (filter ∷ filters)) e p)
      ∙ ap (λ states. chosen [] states n && contains (filter ∷ filters) n) i.enabled

  left_served :
      (start : Selection C) (h : Handler C) (s : Selection C) (filters : List Text) (e : Endpoint C)
      (n : Text)
      → IsStarted start h s
      → (serve_left factory register h s filters).0 ≡ served e
      → is_some (lookup n e.collectors) ≡ (chosen [] start.enabled n && contains filters n)
  left_served start h s [] e n i p = absurd (cc p)
  left_served start h s (filter ∷ filters) e n i p =
      filtered_served start h s filter filters e n i p

  all_served : (u e : Endpoint C) → serve_unfiltered factory register (some u) ≡ served e → u ≡ e
  all_served u e p = cc p

  -- Whatever was asked for before, the metrics that a request is answered with are those of the collectors
  -- that are enabled at the start and that it asks for: a request without a query is answered from all of
  -- them, `collect[]` names the ones to take, and `exclude[]` the ones to leave out.
  pub serve_http-requested :
      (start : Selection C) (h : Handler C) (s : Selection C) (collects excludes : List Text)
      (e : Endpoint C) (n : Text)
      → Serving start h s
      → (serve_http factory register h s collects excludes).0 ≡ served e
      → is_some (lookup n e.collectors)
        ≡ (chosen [] start.enabled n && requested collects excludes n)
  unfolding serve_http contains
  serve_http-requested start h s [] [] e n reached p =
      let i = Serving-IsStarted start h s reached in
      let same : i.unfiltered ≡ e =
        all_served i.unfiltered e
          (subst (λ u. serve_unfiltered factory register u ≡ served e) i.ready p) in
      let all = ap (λ x. is_some (lookup n x.collectors)) (sym same) ∙ i.all n in
      ground (arith, all)
  serve_http-requested start h s (c ∷ cs) (x ∷ xs) e n reached p = absurd (cc p)
  serve_http-requested start h s (c ∷ cs) [] e n reached p =
      let kept = filtered_served start h s c cs e n (Serving-IsStarted start h s reached) p in
      ground (arith, kept)
  serve_http-requested start h s [] (x ∷ xs) e n reached p =
      let i = Serving-IsStarted start h s reached in
      let names = names_of h.enabled_collectors in
      let kept = left_served start h s (not_excluded (x ∷ xs) names) e n i p in
      let left = contains-not_excluded (x ∷ xs) names n in
      let listed = ap (λ ns. contains (names_of ns) n) i.known ∙ i.listed n in
      ground (arith, kept, left, listed)

  answered_once :
      (x : Result (Endpoint C) × Handler C × Selection C)
      → (answered factory register x).0 ≢ panicked
  answered_once (err e, h, s) p = cc p
  answered_once (ok e, h, s) p = cc p

  left_answered :
      (h : Handler C) (s : Selection C) (filters : List Text)
      → (serve_left factory register h s filters).0 ≢ panicked
  left_answered h s [] p = cc p
  left_answered h s (filter ∷ filters) p =
      answered_once (inner_handler factory register h s (filter ∷ filters)) p

  -- After the start every request is answered, with metrics or with a 400; the handler that is built
  -- at the start is always there.
  pub serve_http-answers :
      (start : Selection C) (h : Handler C) (s : Selection C) (collects excludes : List Text)
      → Serving start h s
      → (serve_http factory register h s collects excludes).0 ≢ panicked
  unfolding serve_http
  serve_http-answers start h s [] [] reached p =
      let i = Serving-IsStarted start h s reached in
      absurd (cc (subst (λ u. serve_unfiltered factory register u ≡ panicked) i.ready p))
  serve_http-answers start h s (c ∷ cs) (x ∷ xs) reached p = cc p
  serve_http-answers start h s (c ∷ cs) [] reached p =
      answered_once (inner_handler factory register h s (c ∷ cs)) p
  serve_http-answers start h s [] (x ∷ xs) reached p =
      left_answered h s (not_excluded (x ∷ xs) (names_of h.enabled_collectors)) p
