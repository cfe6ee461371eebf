-- ===== src/Examples/Debates.antt =====
-- A session with an agent that fails.
use maestro_orchestrator.Prelude.{
  ℕ, String, ◌≡◌, refl, Bool, true, false, Option, none, some, List, [], ◌∷◌, ◌==◌, text_keys,
  if◌then◌else◌,
}
use maestro_orchestrator.Prelude.Lists.{All, Any, contains}
use maestro_orchestrator.Prelude.Dict.{Dict, get, set}
use maestro_orchestrator.Prelude.Float.{Fixed, fixed_float}
use maestro_orchestrator.Drift.{NcgOutput}
use maestro_orchestrator.Aggregator.{analyze_agreement}
use maestro_orchestrator.Aggregator.Result.{aggregate_responses}
use maestro_orchestrator.Plugins.{Returned, nothing}
use maestro_orchestrator.Session.{Request, Options, SessionOutcome, failed_text, run_orchestration}
use maestro_orchestrator.Session.Deliberation.{DeliberationPrompt}
use maestro_orchestrator.Session.Answers.{run_orchestration_errors}

abbrev is_error : String → Bool
is_error text = if text == "[Prism] Failed" then true else text == "[Aria] Timeout"

-- Sol refines its answer, and Aria raises.
abbrev refine : String → DeliberationPrompt → Option String
refine name p = if name == "Sol" then some "yes, indeed" else none

abbrev initial : Dict String String
initial = ("Sol", "yes") ∷ ("Aria", "yes") ∷ ("Prism", "[Prism] Failed") ∷ []

abbrev http_code : String → Option ℕ
http_code text = none

abbrev mentions : String → String → Bool
mentions text part = false

abbrev fetch : String → String → Option String
fetch name prompt = if name == "Prism" then none else some "yes"

abbrev generate : String → Option (NcgOutput Fixed)
generate prompt = none

abbrev distance : String → String → Fixed
distance a b = if a == b then 0 else 8000

abbrev words : String → ℕ
words t = 3

abbrev on_request : String → Request → Returned Request
on_request callback r = nothing

abbrev on_responses : String → List String → Returned (List String)
on_responses callback r = nothing

abbrev options : Options
options = record {
  ncg_enabled = true;
  deliberation_enabled = true;
  deliberation_rounds = 1;
  mod_manager = none;
}

abbrev request : Request
request = record { prompt = "?"; agents = "Sol" ∷ "Prism" ∷ [] }

abbrev ran : Option (SessionOutcome Fixed)
ran =
    run_orchestration is_error http_code mentions fetch refine generate distance words on_request
      on_responses options request

ran_some : (s : SessionOutcome Fixed) × (ran ≡ some s)
unfolding run_orchestration aggregate_responses analyze_agreement get set
ran_some = (_, refl)

run_orchestration_errors_example :
    (Any (λ e. is_error e.1 ≡ false) ran_some.0.named_responses
      → All (λ r. is_error r ≡ false) ran_some.0.responses)
    × ((a : String)
        → contains request.agents a ≡ true
        → fetch a "?" ≡ none
        → is_error (failed_text a) ≡ true
        → get a ran_some.0.named_responses ≡ some (failed_text a))
run_orchestration_errors_example =
    run_orchestration_errors is_error http_code mentions fetch refine generate distance words
      on_request on_responses options request ran_some.0 ran_some.1
