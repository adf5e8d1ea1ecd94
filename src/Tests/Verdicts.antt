-- ===== src/Tests/Verdicts.antt =====
-- The theorem on the auditor's answers, applied to an answer whose body is no JSON.
use binance_momentu.Prelude.{◌≡◌, ◌↔◌, refl, false, some, [], String, Result, Error, ok, raise}
use binance_momentu.Float.Fixed.{Fixed, fixed_float}
use binance_momentu.Exchanges.Payload.{Json}
use binance_momentu.Ai.Auditor.{
  ClaudeContextAuditor, ClaudeDecisionResult, approved, rejected_judgment, lacks_key,
}
use binance_momentu.Ai.Answers.{evaluate_post}
use binance_momentu.Ai.Answers.Reading.{Answers}
use binance_momentu.Ai.Answers.Verdicts.{IsLost, evaluate_post_lem}
use binance_momentu.Tests.Samples.{decimal}

-- No text here is JSON.
abbrev loads : String → Result (Json Fixed)
loads s = raise Error.value_error

abbrev strip : String → String
strip s = s

abbrev worded : Json Fixed → String
worded v = ""

abbrev described : Error → String
described e = "unreachable"

abbrev auditor : ClaudeContextAuditor Fixed
auditor = record { api_key = some "key"; cooldown_seconds = decimal 300 0; last_call_at = [] }

abbrev page : Result (Json Fixed)
page = raise Error.value_error

abbrev outcome : Result (ClaudeDecisionResult Fixed)
outcome =
    (evaluate_post loads strip worded described "binance" "SOLUSDT" (decimal 7 0) page (decimal 5 0)
      auditor).1

-- The exception leaves `evaluate`.
outcome_lost : outcome ≡ raise Error.value_error
unfolding evaluate_post
outcome_lost = refl

evaluate_post_lem_example :
    let asked = (lacks_key auditor.api_key ≡ false) in
    (((d : ClaudeDecisionResult Fixed) × (outcome ≡ ok d) × (d.decision ≡ approved)) ↔ (
      asked
      × ((response : Json Fixed) × (page ≡ ok response)
          × Answers loads strip worded described "APPROVED" response)))
    × (((d : ClaudeDecisionResult Fixed) × (outcome ≡ ok d) × (d.decision ≡ rejected_judgment)) ↔ (
        asked
        × ((response : Json Fixed) × (page ≡ ok response)
            × Answers loads strip worded described "REJECTED" response)))
    × ((e : Error) → (outcome ≡ raise e) ↔ (asked × IsLost loads strip worded described page e))
evaluate_post_lem_example =
    evaluate_post_lem loads strip worded described "binance" "SOLUSDT" (decimal 7 0) (decimal 5 0)
      page auditor
