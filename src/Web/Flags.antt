-- ===== src/Web/Flags.antt =====
-- `parseFlags` of kasa_exporter.go, up to the parser of kong, which is a parameter: an environment variable
-- that is set but empty counts as unset. os.Unsetenv fails only on a name that no flag has.
use kasa_exporter.Base.{
  ◌≡◌, refl, ap, inl, inr, Bool, false, Option, none, some, List, [], ◌∷◌, arith, ◌==◌,
  if◌then◌else◌, Bool-cases, length,
}
use kasa_exporter.Base.Text.{Text, ◌==ₜ◌, ==ₜ_iff, contains}
use kasa_exporter.Base.Dict.{Dict, lookup}
use kasa_exporter.Errors.{Error}
use kasa_exporter.Collector.Selection.{Selection}
use kasa_exporter.Collector.Selection.States.{PathElement, mark_forced_collectors}

-- os.Unsetenv
unfoldable pub unset : Text → Dict Text → Dict Text
unset name [] = []
unset name ((own, value) ∷ env) =
    let rest = unset name env in if own ==ₜ name then rest else (own, value) ∷ rest

abbrev pub is_empty : Option Text → Bool
is_empty none = false
is_empty (some value) = length value == 0

-- The loops over the flags and the names of their variables.
pub unset_empty : (names : List Text) (env : Dict Text) → Dict Text
unfolding unset
unset_empty [] env = env
unset_empty (name ∷ names) env =
    unset_empty names (if is_empty (lookup name env) then unset name env else env)

-- What kong makes of a command line: an error, its own exit with status 0 after --help or --version, or
-- what it has parsed.
pub data Parsing (A : Type 0) : Type 0 where
  usage_error : Error → Parsing A
  informed : Parsing A
  parsed : A → Parsing A

module _ {C : Type 0} (parse : Dict Text → (args : List Text) → Parsing (List PathElement)) where
  abbrev pub marked_by : Parsing (List PathElement) → Selection C → Parsing (Selection C)
  marked_by (usage_error e) s = usage_error e
  marked_by informed s = informed
  marked_by (parsed path) s = parsed (mark_forced_collectors path s)

  -- `parseFlags`
  pub parse_flags :
      (names : List Text) → Dict Text → (args : List Text) → Selection C → Parsing (Selection C)
  unfolding unset_empty
  parse_flags names env args s = marked_by (parse (unset_empty names env) args) s

lookup-unset :
    (name sought : Text) (env : Dict Text)
    → lookup sought (unset name env) ≡ (if name ==ₜ sought then none else lookup sought env)
unfolding unset lookup
lookup-unset name sought [] = ground arith
lookup-unset name sought ((own, value) ∷ env) =
    let later = lookup-unset name sought env in
    ground (arith, later, ==ₜ_iff own name, ==ₜ_iff own sought, ==ₜ_iff name sought)

abbrev pub unless_empty : Option Text → Option Text
unless_empty v = if is_empty v then none else v

-- The parser sees of a flag's variable its value, unless that is empty, and every other variable as it is.
pub lookup-unset_empty :
    (names : List Text) (env : Dict Text) (sought : Text)
    → lookup sought (unset_empty names env)
      ≡ (if contains names sought then unless_empty (lookup sought env) else lookup sought env)
unfolding unset_empty contains
lookup-unset_empty [] env sought = refl
lookup-unset_empty (name ∷ names) env sought =
    let more = if is_empty (lookup name env) then unset name env else env in
    let later = lookup-unset_empty names more sought in
    let gone = lookup-unset name sought env in
    elim (Bool-cases (name ==ₜ sought)) [
      | inl same ↦
          let equal = ap (λ n. lookup n env) ((==ₜ_iff name sought).0 same) in
          ground (arith, later, gone, equal, same)
      | inr other ↦ ground (arith, later, gone, other)
    ]
