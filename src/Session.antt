-- ===== src/Session.antt =====
-- One session: `run_orchestration_async` of maestro/orchestrator.py. Agents are their names. Parameters stand
-- for the patterns of error texts, for what agents and the headless generator answer, `none` where they
-- raise, and for what the callbacks of plugins do with the contexts of the hooks.
use Prim.Native.String.{◌++◌ as join_text}
use maestro_orchestrator.Prelude.{
  ℕ, suc, ◌+◌, String, Bool, true, false, not, ◌&&◌, ◌||◌, Option, none, some, List, [], ◌∷◌, ◌++◌,
  ◌==◌, text_keys, if◌then◌else◌, leb, ltb, nat_beq,
}
use maestro_orchestrator.Prelude.Lists.{keep, nonempty}
use maestro_orchestrator.Prelude.Dict.{Dict, get, set, values, keys}
use maestro_orchestrator.Prelude.Float.{Float}
use maestro_orchestrator.Dissent.{DissentReport, analyze}
use maestro_orchestrator.Drift.{NcgOutput, DriftReport, analyze_drift}
use maestro_orchestrator.Aggregator.{in_order}
use maestro_orchestrator.Aggregator.Result.{Aggregate, aggregate_responses}
use maestro_orchestrator.R2.{R2Score, ImprovementSignal, score_session, detect_signals}
use maestro_orchestrator.Plugins.{Manager, Returned, run_hooks}
use maestro_orchestrator.Session.Deliberation.{DeliberationPrompt, DeliberationReport, deliberate}
pub mod Deliberation
pub mod Rounds
pub mod Answers

pub data ErrorKind : Type 0 where
  auth not_found rate_limit server http timeout connection filtered unknown : ErrorKind

pub record AgentError : Type 0 where
  pub agent : String
  pub code : Option ℕ
  pub kind : ErrorKind

unfoldable pub http_error_kind : ℕ → ErrorKind
http_error_kind code =
    if nat_beq code 401 || nat_beq code 403
    then auth
    else if nat_beq code 404
    then not_found
    else if nat_beq code 429
    then rate_limit
    else if leb 500 code && ltb code 600
    then server
    else http

-- f"[{agent.name}] Failed"
unfoldable pub failed_text : String → String
failed_text name = join_text "[" (join_text name "] Failed")

-- The response that is recorded for an agent.
unfoldable pub recorded : String → Option String → String
unfolding failed_text
recorded name none = failed_text name
recorded name (some response) = response

-- `http_code` finds "HTTP" with a code, and `mentions text part` is `part in text`.
module _ (http_code : String → Option ℕ) (mentions : String → String → Bool)
    (is_error : String → Bool) where
  unfoldable pub text_kind : String → ErrorKind
  text_kind response =
      if mentions response "Timeout"
      then timeout
      else if mentions response "Connection failed"
      then connection
      else if mentions response "API Key Missing"
      then auth
      else if mentions response "Content filtered"
      then filtered
      else unknown

  unfoldable pub classify_agent_error : String → String → AgentError
  unfolding text_kind http_error_kind
  classify_agent_error name response = elim (http_code response) [
    | some code ↦ record { agent = name; code = some code; kind = http_error_kind code }
    | none ↦ record { agent = name; code = none; kind = text_kind response }
  ]

  -- An exception is an error whatever the pattern says.
  unfoldable pub error_of : String → Option String → List AgentError
  unfolding classify_agent_error failed_text
  error_of name none = classify_agent_error name (failed_text name) ∷ []
  error_of name (some response) =
      if is_error response then classify_agent_error name response ∷ [] else []

  unfoldable pub errors_of : (String → Option String) → List String → List AgentError
  unfolding error_of
  errors_of fetched [] = []
  errors_of fetched (name ∷ names) = error_of name (fetched name) ++ errors_of fetched names

-- named_responses, in the order of the agents.
unfoldable pub gather :
    (String → Option String) → List String → Dict String String → Dict String String
unfolding recorded
gather fetched [] d = d
gather fetched (name ∷ names) d = gather fetched names (set name (recorded name (fetched name)) d)

-- The responses that are no errors, or all where there is none.
unfoldable pub clean_responses : (String → Bool) → Dict String String → Dict String String
clean_responses is_error named =
    let clean = keep (λ e. not (is_error e.1)) named in if nonempty clean then clean else named

-- Without a plugin manager the context stays.
unfoldable pub hooked {ℓ} :
    {A : Type ℓ} → (String → A → Returned A) → String → Option Manager → A → A
unfolding run_hooks
hooked call point none context = context
hooked call point (some m) context = run_hooks call point context m

pub record Request : Type 0 where
  pub prompt : String
  pub agents : List String

pub record Options : Type 0 where
  pub ncg_enabled : Bool
  pub deliberation_enabled : Bool
  pub deliberation_rounds : ℕ
  pub mod_manager : Option Manager

pub record SessionOutcome (F : Type 0) : Type 0 where
  pub responses : List String
  pub named_responses : Dict String String
  pub agent_errors : List AgentError
  pub final_output : Aggregate F
  pub r2_score : R2Score F
  pub r2_signals : List ImprovementSignal
  pub deliberation : Option DeliberationReport

-- What the deliberation leaves of the responses.
unfoldable pub after_deliberation :
    Dict String String → Option DeliberationReport → Dict String String
after_deliberation named none = named
after_deliberation named (some report) = if report.skipped then named else report.final_responses

module _ {F : Type 0} ⦃f : Float F⦄ (is_error : String → Bool) (http_code : String → Option ℕ)
    (mentions : String → String → Bool) (fetch : String → String → Option String)
    (refine : String → DeliberationPrompt → Option String)
    (generate : String → Option (NcgOutput F)) (distance : String → String → F) (words : String → ℕ)
    (on_request : String → Request → Returned Request)
    (on_responses : String → List String → Returned (List String)) where
  -- The drift from the headless output; none where the generator raises.
  unfoldable pub ncg_drift : Bool → String → Dict String String → F → Option (DriftReport F)
  unfolding analyze_drift
  ncg_drift enabled prompt outputs agreement =
      if enabled
      then elim (generate prompt) [
        | none ↦ none
        | some o ↦ some (analyze_drift distance words prompt o outputs (some agreement))
      ]
      else none

  -- From the responses on: dissent, drift, aggregation and R2. `none` where the aggregation raises.
  unfoldable pub conclude :
      Options
      → String
      → Dict String String
      → List AgentError
      → Option DeliberationReport
      → Option (SessionOutcome F)
  unfolding clean_responses analyze ncg_drift hooked aggregate_responses score_session
      detect_signals
  conclude o prompt named errors deliberation =
      let input = clean_responses is_error named in
      let dissent : DissentReport F = analyze distance prompt input in
      let drift : Option (DriftReport F) =
        ncg_drift o.ncg_enabled prompt input dissent.internal_agreement in
      let responses = hooked on_responses "pre_aggregation" o.mod_manager (values input) in
      elim (aggregate_responses (in_order responses) drift (some dissent)) [
        | none ↦ none
        | some final ↦
            let score : R2Score F = score_session dissent drift final.confidence in
            some (record {
              responses = responses;
              named_responses = named;
              agent_errors = errors;
              final_output = final;
              r2_score = score;
              r2_signals = detect_signals score dissent;
              deliberation = deliberation;
            })
      ]

  unfoldable pub run_orchestration : Options → Request → Option (SessionOutcome F)
  unfolding conclude hooked gather errors_of deliberate after_deliberation
  run_orchestration o asked =
      let request = hooked on_request "pre_orchestration" o.mod_manager asked in
      let fetched = λ (name : String). fetch name request.prompt in
      let initial = gather fetched request.agents [] in
      let errors = errors_of http_code mentions is_error fetched request.agents in
      let deliberation : Option DeliberationReport =
        if o.deliberation_enabled
        then deliberate is_error refine o.deliberation_rounds request.prompt request.agents initial
        else none in
      conclude o request.prompt (after_deliberation initial deliberation) errors deliberation
