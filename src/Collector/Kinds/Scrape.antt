-- ===== src/Collector/Kinds/Scrape.antt =====
-- `Collect` of collector/collector.go: every collector of a set is run. What a collector's Update gives
-- and how long it takes are parameters.
use kasa_exporter.Base.{ap, none, some, ◌∙◌, ◌≡◌, refl, false, Option, List, [], ◌∷◌, ◌++◌}
use kasa_exporter.Base.Text.{Text}
use kasa_exporter.Base.Dict.{Dict}
use kasa_exporter.Errors.{Error}
use kasa_exporter.Floats.{Arithmetic}
use kasa_exporter.Collector.{Desc, emit_gauge, Sample}
use kasa_exporter.Collector.Kinds.{duration_desc, success, success_desc, execute}

-- `Describe`
abbrev pub describe : {F : Type 0} → Arithmetic F → List Desc
describe ops = duration_desc ops ∷ success_desc ops ∷ []

module _ {C F : Type 0} (ops : Arithmetic F) (update : C → List (Sample F) × Option Error)
    (duration : Text → F) where
  -- `Collect`, in the order in which the collectors end.
  unfoldable pub collect : Dict C → List (Sample F)
  collect [] = []
  collect ((name, c) ∷ collectors) =
      execute ops name (duration name) (update c) ++ collect collectors

  -- 1 where an `Update` ended without an error, and 0 where it ended with one.
  abbrev pub one_or_zero : Option Error → F
  one_or_zero none = ops.of_ℕ 1
  one_or_zero (some e) = ops.of_ℕ 0

  abbrev pub gauge_of : Desc → F → Text → Sample F
  gauge_of desc value name = record {
    desc = desc;
    is_counter = false;
    value = value;
    labels = name ∷ [];
  }

  -- All that a scrape sends: of every collector its samples, the seconds that it took, and whether it
  -- succeeded.
  abbrev pub sent_samples : Dict C → List (Sample F)
  sent_samples [] = []
  sent_samples ((name, c) ∷ collectors) =
      (update c).0
      ++ (gauge_of (duration_desc ops) (duration name) name
          ∷ gauge_of (success_desc ops) (one_or_zero (update c).1) name
          ∷ sent_samples collectors)

  success_lem : (e : Option Error) → success ops e ≡ one_or_zero e
  success_lem none = refl
  success_lem (some e) = refl

  append_two :
      (xs : List (Sample F)) (a b : Sample F) (rest : List (Sample F))
      → (xs ++ (a ∷ b ∷ [])) ++ rest ≡ xs ++ (a ∷ b ∷ rest)
  append_two [] a b rest = refl
  append_two (x ∷ xs) a b rest = ap (λ l. x ∷ l) (append_two xs a b rest)

  -- A scrape sends, for every collector of the set and whatever the others do, the collector's own samples
  -- followed by exactly one duration and exactly one success under its name, which is 1 where its `Update`
  -- ended without an error and 0 where it ended with one; and it sends nothing else.
  pub collect_reports : (collectors : Dict C) → collect collectors ≡ sent_samples collectors
  unfolding collect execute emit_gauge
  collect_reports [] = refl
  collect_reports ((name, c) ∷ collectors) =
      let took = gauge_of (duration_desc ops) (duration name) name in
      append_two (update c).0 took (gauge_of (success_desc ops) (success ops (update c).1) name)
        (collect collectors)
      ∙ ap (λ v. (update c).0 ++ (took ∷ gauge_of (success_desc ops) v name ∷ collect collectors))
          (success_lem (update c).1)
      ∙ ap
          (λ l.
            (update c).0
            ++ (took ∷ gauge_of (success_desc ops) (one_or_zero (update c).1) name ∷ l))
          (collect_reports collectors)
