-- ===== src/Web/Mux/Routes.antt =====
-- Which paths the mux of kasa_exporter.go serves, and that mounting them does not panic.
use kasa_exporter.Base.{
  none, subst, ◌||◌, or_else, or_else-none, ◌≡◌, refl, sym, ap, ◌∙◌, ◌≢◌, inl, inr, Bool, true,
  false, not, ◌&&◌, Option, some, List, [], ◌∷◌, arith, ◌==◌, if◌then◌else◌, Bool-cases, length,
  All, is_some,
}
use kasa_exporter.Base.Text.{==ₜ_refl, contains, Text, codes, ◌==ₜ◌, ==ₜ_iff, has_prefix}
use kasa_exporter.Base.Dict.{Dict, lookup, keys, Distinct}
use kasa_exporter.Errors.{
  ok-injective, >>=-eq-ok, Result, ok, reject_if-eq-ok, empty_path, relative_path, path_whitespace,
  path_wildcard,
}
use kasa_exporter.Web.Mux.{
  ComparesLiterals, is_literal, taken, handle_rest, pprof_index, pprof_cmdline, pprof_profile,
  pprof_symbol, pprof_trace, landing, handle, build_mux, with_landing, LandingConfig, metrics,
  pprof_routes, contains_any, pprof_prefix, handle_all, Route, validate_metrics_path, is_plain,
}

ne_of : (s t : Text) → (s ==ₜ t) ≡ false → s ≢ t
ne_of s t h e = let same = (==ₜ_iff s t).1 e in ground arith

same_as_root : (path : Text) → (codes "/" ==ₜ path) ≡ true → (path ==ₜ codes "/") ≡ true
same_as_root path h = rw (← (==ₜ_iff (codes "/") path).0 h) (==ₜ_refl (codes "/"))

-- What the validation checked.
record IsAccepted (path : Text) (pprof : Bool) : Type 0 where
  plain : is_plain path ≡ true
  elsewhere : (pprof && has_prefix path pprof_prefix) ≡ false

accepted :
    (path : Text) (pprof : Bool) → validate_metrics_path path pprof ≡ ok tt → IsAccepted path pprof
unfolding validate_metrics_path
accepted path pprof h =
    let (full, h1) = reject_if-eq-ok (length path == 0) empty_path _ h in
    let (absolute, h2) = reject_if-eq-ok (not (has_prefix path (codes "/"))) relative_path _ h1 in
    let (spaceless, h3) =
      reject_if-eq-ok (contains_any path (32 ∷ 9 ∷ 13 ∷ 10 ∷ [])) path_whitespace _ h2 in
    let (literal, h4) = reject_if-eq-ok (contains_any path (codes "{}")) path_wildcard _ h3 in
    record { plain = ground arith; elsewhere = ground arith }

not_pprof :
    (path q : Text)
    → has_prefix path pprof_prefix ≡ false
    → has_prefix q pprof_prefix ≡ true
    → q ≢ path
not_pprof path q h k e = let same = ap (λ p. has_prefix p pprof_prefix) e in cc

abbrev IsLiteral : Text → Type 0
IsLiteral p = is_literal p ≡ true

module _ {H L : Type 0} (conflicts : Text → Text → Bool)
    (literals : ComparesLiterals conflicts) where
  taken_lem :
      (p : Text) (mux : Dict (Route H L))
      → IsLiteral p
      → All IsLiteral (keys mux)
      → taken conflicts p mux ≡ is_some (lookup p mux)
  unfolding lookup
  taken_lem p [] own all = refl
  taken_lem p ((q, r) ∷ mux) own (first, all) =
      let later = taken_lem p mux own all in
      let same = literals q p first own in ground (arith, later, same)

  -- A route that may be mounted yet.
  abbrev IsFree : Dict (Route H L) → Text → Type 0
  IsFree mux q = (is_plain q ≡ true) × (is_some (lookup q mux) ≡ false) × IsLiteral q

  still-IsFree :
      (p : Text) (r : Route H L) (mux : Dict (Route H L)) (qs : List Text)
      → All (IsFree mux) qs
      → All (λ q. q ≢ p) qs
      → All (IsFree ((p, r) ∷ mux)) qs
  unfolding lookup
  still-IsFree p r mux [] free other = tt
  still-IsFree p r mux (q ∷ qs) ((plain, unused, own), free) (ne, other) =
      ((plain, ground (arith, ==ₜ_iff p q), own), still-IsFree p r mux qs free other)

  or_else_first :
      (p q : Text) (r : Route H L) (mux : Dict (Route H L)) (later : Option (Route H L))
      → is_some (lookup p mux) ≡ false
      → or_else (lookup q ((p, r) ∷ mux)) later
        ≡ or_else (lookup q mux) (if p ==ₜ q then some r else later)
  unfolding lookup
  or_else_first p q r mux later unused = elim (Bool-cases (p ==ₜ q)) [
    | inl same ↦
        let none_yet = ap (λ x. is_some (lookup x mux)) ((==ₜ_iff p q).0 same) in
        ground (arith, same, none_yet)
    | inr other ↦ ground (arith, other)
  ]

  handle_free :
      (p : Text) (r : Route H L) (mux : Dict (Route H L))
      → IsFree mux p
      → All IsLiteral (keys mux)
      → handle conflicts p r mux ≡ some ((p, r) ∷ mux)
  handle_free p r mux (plain, unused, own) all =
      let free = taken_lem p mux own all ∙ unused in rw (plain, free) refl

  -- The routes are mounted, and nothing else.
  abbrev Mounts : List (Text × Route H L) → Dict (Route H L) → Type 0
  Mounts routes mux =
      (out : Dict (Route H L)) × (handle_all conflicts routes mux ≡ some out)
      × ((q : Text) → lookup q out ≡ or_else (lookup q mux) (lookup q routes))
      × All IsLiteral (keys out)

  handle_all_free :
      (routes : List (Text × Route H L)) (mux : Dict (Route H L))
      → All (IsFree mux) (keys routes)
      → Distinct (keys routes)
      → All IsLiteral (keys mux)
      → Mounts routes mux
  unfolding handle_all lookup
  handle_all_free [] mux free distinct lits =
      (mux, refl, λ q. sym (or_else-none (lookup q mux)), lits)
  handle_all_free ((p, r) ∷ routes) mux ((plain, unused, own), free) (other, distinct) lits =
      let (out, e, all, lits') =
        handle_all_free routes ((p, r) ∷ mux) (still-IsFree p r mux (keys routes) free other)
          distinct (own, lits) in
      (
        out,
        ap (λ m. handle_rest conflicts m (λ more. handle_all conflicts routes more))
              (handle_free p r mux (plain, unused, own) lits)
            ∙ e,
        λ q. all q ∙ or_else_first p q r mux (lookup q routes) unused,
        lits',
      )

  mounted :
      (path : Text) (handler : H) (pprof : Bool)
      → IsLiteral path
      → IsAccepted path pprof
      → Mounts ((path, metrics handler) ∷ pprof_routes pprof) []
  unfolding has_prefix contains_any lookup contains ◌==ₜ◌
  mounted path handler false own a =
      handle_all_free ((path, metrics handler) ∷ []) [] ((a.plain, refl, own), tt) (tt, tt) tt
  mounted path handler true own a =
      let ne : (q : Text) → has_prefix q pprof_prefix ≡ true → q ≢ path =
        λ q. not_pprof path q a.elsewhere in
      handle_all_free ((path, metrics handler) ∷ pprof_routes true) []
        (
          (a.plain, refl, own),
          (
            (refl, refl, refl),
            (
              (refl, refl, refl),
              ((refl, refl, refl), ((refl, refl, refl), ((refl, refl, refl), tt))),
            ),
          ),
        )
        (
          (ne _ refl, (ne _ refl, (ne _ refl, (ne _ refl, (ne _ refl, tt))))),
          (
            (ne_of _ _ refl, (ne_of _ _ refl, (ne_of _ _ refl, (ne_of _ _ refl, tt)))),
            (
              (ne_of _ _ refl, (ne_of _ _ refl, (ne_of _ _ refl, tt))),
              ((ne_of _ _ refl, (ne_of _ _ refl, tt)), ((ne_of _ _ refl, tt), (tt, tt))),
            ),
          ),
        )
        tt

-- The routes that net/http/pprof installs, where profiling is enabled.
abbrev pub profiled : {H L : Type 0} → Bool → List (Text × Route H L)
profiled false = []
profiled true =
    (codes "/debug/pprof/", pprof_index)
    ∷ (codes "/debug/pprof/cmdline", pprof_cmdline)
    ∷ (codes "/debug/pprof/profile", pprof_profile)
    ∷ (codes "/debug/pprof/symbol", pprof_symbol)
    ∷ (codes "/debug/pprof/trace", pprof_trace)
    ∷ []

-- What a mux that was built serves: the metrics, profiling where that is enabled, and the root.
abbrev pub Routes : {H L : Type 0} → Text → H → Bool → Option (Dict (Route H L)) → Type 0
Routes {H = H} {L = L} path handler pprof m =
    (mux : Dict (Route H L)) × (m ≡ some mux)
    × (lookup path mux ≡ some (metrics handler))
    × ((q : Text)
        → is_some (lookup q (profiled {H = H} {L = L} pprof)) ≡ true
        → lookup q mux ≡ lookup q (profiled pprof))
    × ((q : Text)
        → is_some (lookup q mux) ≡ (
            path ==ₜ q || (is_some (lookup q (profiled {H = H} {L = L} pprof)) || codes "/" ==ₜ q)))

profiled_lem : {H L : Type 0} (pprof : Bool) → pprof_routes {H = H} {L = L} pprof ≡ profiled pprof
profiled_lem false = refl
profiled_lem true = refl

other_than :
    (path p : Text)
    → has_prefix path pprof_prefix ≡ false
    → has_prefix p pprof_prefix ≡ true
    → (p ==ₜ path) ≡ false
other_than path p h k = elim (Bool-cases (p ==ₜ path)) [
  | inl same ↦ absurd (not_pprof path p h k ((==ₜ_iff p path).0 same))
  | inr other ↦ other
]

not_profiled :
    {H L : Type 0} (path : Text) (pprof : Bool)
    → IsAccepted path pprof
    → lookup path (profiled {H = H} {L = L} pprof) ≡ none
unfolding lookup has_prefix
not_profiled path false a = refl
not_profiled path true a =
    let ne : (q : Text) → has_prefix q pprof_prefix ≡ true → (q ==ₜ path) ≡ false =
      λ q. other_than path q a.elsewhere in
    rw
      (
        ne (codes "/debug/pprof/") refl,
        ne (codes "/debug/pprof/cmdline") refl,
        ne (codes "/debug/pprof/profile") refl,
        ne (codes "/debug/pprof/symbol") refl,
        ne (codes "/debug/pprof/trace") refl,
      )
      refl

no_root : {H L : Type 0} (pprof : Bool) → lookup (codes "/") (profiled {H = H} {L = L} pprof) ≡ none
unfolding lookup ◌==ₜ◌
no_root false = refl
no_root true = refl

module _ {H L : Type 0} (conflicts : Text → Text → Bool) (literals : ComparesLiterals conflicts)
    (new_landing_page : LandingConfig → Result L) where
  -- What is known of the mux before the landing page.
  record HasRoutes (path : Text) (handler : H) (pprof : Bool) (mux : Dict (Route H L))
      : Type 0 where
    looked_up : (q : Text) → lookup q mux ≡ lookup q ((path, metrics handler) ∷ profiled pprof)
    unprofiled : lookup path (profiled {H = H} {L = L} pprof) ≡ none
    literal : All (λ p. is_literal p ≡ true) (keys mux)

  keeps_profiled :
      (path q : Text) (handler : H) (pprof : Bool) (mux : Dict (Route H L))
      → HasRoutes path handler pprof mux
      → is_some (lookup q (profiled {H = H} {L = L} pprof)) ≡ true
      → lookup q mux ≡ lookup q (profiled pprof)
  unfolding lookup
  keeps_profiled path q handler pprof mux has there = elim (Bool-cases (path ==ₜ q)) [
    | inl same ↦
        let equal = ap (λ p. lookup p (profiled {H = H} {L = L} pprof)) ((==ₜ_iff path q).0 same) in
        ground (arith, equal, has.unprofiled, there)
    | inr other ↦ ground (arith, has.looked_up q, other)
  ]

  -- The landing page is in the way of no route of pprof.
  with_root :
      (q : Text) (pprof : Bool) (mux : Dict (Route H L)) (page : L)
      → lookup q mux ≡ lookup q (profiled pprof)
      → is_some (lookup q (profiled {H = H} {L = L} pprof)) ≡ true
      → lookup q ((codes "/", landing page) ∷ mux) ≡ lookup q (profiled pprof)
  unfolding lookup
  with_root q pprof mux page kept there = elim (Bool-cases (codes "/" ==ₜ q)) [
    | inl root ↦
        let equal =
          ap (λ p. lookup p (profiled {H = H} {L = L} pprof)) ((==ₜ_iff (codes "/") q).0 root) in
        let missing = no_root {H = H} {L = L} pprof in
        absurd (ground (arith, equal, missing, there))
    | inr other ↦ rw other kept
  ]

  with_page :
      (path : Text) (handler : H) (pprof : Bool) (mux : Dict (Route H L)) (page : L)
      (m : Option (Dict (Route H L)))
      → HasRoutes path handler pprof mux
      → (path ==ₜ codes "/") ≡ false
      → handle conflicts (codes "/") (landing page) mux ≡ m
      → Routes path handler pprof m
  unfolding has_prefix contains_any contains lookup ◌==ₜ◌
  with_page path handler pprof mux page m has other h =
      let free : is_some (lookup (codes "/") mux) ≡ false =
        ground (arith, has.looked_up (codes "/"), other, no_root {H = H} {L = L} pprof) in
      let mounts =
        handle_free conflicts literals (codes "/") (landing page) mux (refl, free, refl)
          has.literal in
      (
        (codes "/", landing page) ∷ mux,
        sym h ∙ mounts,
        ground (arith, has.looked_up path, ==ₜ_refl path, same_as_root path),
        λ q there.
            let kept = keeps_profiled path q handler pprof mux has there in
            with_root q pprof mux page kept there,
        λ q. ground (arith, has.looked_up q),
      )

  landed :
      (path : Text) (handler : H) (pprof : Bool) (mux : Dict (Route H L))
      (m : Option (Dict (Route H L)))
      → HasRoutes path handler pprof mux
      → with_landing conflicts new_landing_page path pprof (some mux) ≡ ok m
      → Routes path handler pprof m
  unfolding lookup
  landed path handler pprof mux m has h = elim (Bool-cases (path ==ₜ codes "/")) [
    | inl root ↦
        let equal = (==ₜ_iff path (codes "/")).0 root in
        (
          mux,
          sym (ok-injective (rw root at h)),
          ground (arith, has.looked_up path, ==ₜ_refl path),
          λ q there. keeps_profiled path q handler pprof mux has there,
          λ q. let same = ap (λ p. p ==ₜ q) equal in ground (arith, has.looked_up q, same),
        )
    | inr other ↦
        let (page, got, h') =
          >>=-eq-ok (new_landing_page (record { profiling = pprof; address = path })) _
            (rw other at h) in
        with_page path handler pprof mux page m has other (ok-injective h')
  ]

  -- Where a mux is built for a path without a percent sign, mounting its routes did not panic, and it
  -- serves the metrics under that path, the five routes of pprof with their handlers exactly if profiling
  -- is enabled, and the root path; and nothing else.
  pub build_mux-Routes :
      (path : Text) (handler : H) (pprof : Bool) (m : Option (Dict (Route H L)))
      → is_literal path ≡ true
      → build_mux conflicts new_landing_page path handler pprof ≡ ok m
      → Routes path handler pprof m
  unfolding build_mux lookup
  build_mux-Routes path handler pprof m own h =
      let (checked, valid, h') = >>=-eq-ok (validate_metrics_path path pprof) _ h in
      let checks = accepted path pprof valid in
      let (mux, made, all, literal) = mounted conflicts literals path handler pprof own checks in
      landed path handler pprof mux m
        (record {
          looked_up =
              λ q. all q ∙ ap (λ rs. lookup q ((path, metrics handler) ∷ rs)) (profiled_lem pprof);
          unprofiled = not_profiled path pprof checks;
          literal = literal;
        })
        (subst (λ x. with_landing conflicts new_landing_page path pprof x ≡ ok m) made h')
