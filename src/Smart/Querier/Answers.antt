-- ===== src/Smart/Querier/Answers.antt =====
-- What the answers of a SMART batch come to: the results by method.
use kasa_exporter.Base.{
  or_else, or_else-none, ◌≡◌, refl, ◌∙◌, not, ◌&&◌, Option, none, some, List, [], ◌∷◌, arith, ◌==◌,
  if◌then◌else◌, length,
}
use kasa_exporter.Base.Text.{Text, ◌==ₜ◌}
use kasa_exporter.Base.Dict.{Dict, lookup, insert, lookup-insert}
use kasa_exporter.Iot.{is_zero}
use kasa_exporter.Smart.Querier.{SmartBatchResponse, answered_methods}

-- The last usable response to a method among those of a batch.
abbrev pub last_answer : Text → List SmartBatchResponse → Option Text
last_answer m [] = none
last_answer m (r ∷ rs) = or_else (last_answer m rs) (
    if r.method ==ₜ m && (is_zero r.error_code && not (length r.result == 0))
    then some r.result
    else none)

answered_from :
    (out : Dict Text) (responses : List SmartBatchResponse) (m : Text)
    → lookup m (answered_methods out responses) ≡ or_else (last_answer m responses) (lookup m out)
unfolding answered_methods
answered_from out [] m = refl
answered_from out (r ∷ rs) m =
    let more =
      if is_zero r.error_code && not (length r.result == 0)
      then insert r.method r.result out
      else out in
    let later = answered_from more rs m in
    let put = lookup-insert r.method m r.result out in ground arith

-- Of each method a batch yields the last response that carries no error code and a result, wherever it
-- stands among the responses; a method whose responses all failed is left out.
pub answered_methods-lookup :
    (responses : List SmartBatchResponse) (m : Text)
    → lookup m (answered_methods [] responses) ≡ last_answer m responses
unfolding lookup
answered_methods-lookup responses m =
    answered_from [] responses m ∙ or_else-none (last_answer m responses)
