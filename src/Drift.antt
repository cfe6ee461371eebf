-- ===== src/Drift.antt =====
-- maestro/ncg/drift.py: the reports of `DriftDetector` on the distance between agents and the
-- headless baseline. The parameters are the distance of two texts, whose code is that
-- of maestro/dissent.py, and `words`, which is len(text.split()).
use maestro_orchestrator.Prelude.{
  ℕ, zero, suc, String, Bool, false, not, Option, none, some, List, [], ◌∷◌, map, ◌&&◌,
  if◌then◌else◌,
}
use maestro_orchestrator.Prelude.Lists.{length, keep, take}
use maestro_orchestrator.Prelude.Dict.{Dict}
use maestro_orchestrator.Prelude.Float.{Float, mean}

pub record Alternative (F : Type 0) : Type 0 where
  pub token : String
  pub logprob : F

pub record LogprobEntry (F : Type 0) : Type 0 where
  pub token : String
  pub logprob : F
  pub top_alternatives : List (Alternative F)

pub record ContestedToken (F : Type 0) : Type 0 where
  pub chosen : String
  pub alternative : String
  pub gap : F

pub record TokenDrift (F : Type 0) : Type 0 where
  pub mean_logprob : F
  pub total_tokens : ℕ
  pub uncertain_token_count : ℕ
  pub contested_token_count : ℕ
  pub contested_tokens : List (ContestedToken F)

pub data AnalysisTier : Type 0 where
  semantic token_level : AnalysisTier

pub record DriftSignal (F : Type 0) : Type 0 where
  pub agent_name : String
  pub semantic_distance : F
  pub compression_ratio : F
  pub ncg_model : String
  pub analysis_tier : AnalysisTier
  pub token_drift : Option (TokenDrift F)

pub record DriftReport (F : Type 0) : Type 0 where
  pub prompt : String
  pub ncg_content : String
  pub ncg_model : String
  pub agent_signals : List (DriftSignal F)
  pub mean_semantic_distance : F
  pub max_semantic_distance : F
  pub silent_collapse_detected : Bool
  pub compression_alert : Bool

-- The headless output: content, model, and the log probabilities where they are available.
pub record NcgOutput (F : Type 0) : Type 0 where
  pub content : String
  pub model : String
  pub logprobs_available : Bool
  pub logprobs : List (LogprobEntry F)

module _ {F : Type 0} ⦃f : Float F⦄ where
  contested : List (LogprobEntry F) → List (ContestedToken F)
  contested [] = []
  contested (e ∷ es) = elim e.top_alternatives [
    | [] ↦ contested es
    | alt ∷ _ ↦
        let gap = f.sub e.logprob alt.logprob in
        if f.lt gap (f.lit 5 1)
        then record { chosen = e.token; alternative = alt.token; gap = f.round4 gap } ∷ contested es
        else contested es
  ]

  -- `none` is the empty dict of `_analyze_token_drift`.
  unfoldable pub analyze_token_drift : NcgOutput F → Option (TokenDrift F)
  unfolding contested
  analyze_token_drift o = if not o.logprobs_available then none else elim o.logprobs [
    | [] ↦ none
    | e ∷ es ↦
        let all = e ∷ es in
        let probs = map (λ (x : LogprobEntry F). x.logprob) all in
        some (record {
          mean_logprob = f.round4 (mean probs);
          total_tokens = length probs;
          uncertain_token_count =
              length
                (keep (λ (x : LogprobEntry F). f.lt x.logprob (f.sub (f.lit 0 0) (f.lit 2 0))) all);
          contested_token_count = length (contested all);
          contested_tokens = take 10 (contested all);
        })
  ]

  -- max(xs), from the first item on.
  max_from : F → List F → F
  max_from m [] = m
  max_from m (x ∷ xs) = max_from (if f.lt m x then x else m) xs

  max_or_zero : List F → F
  max_or_zero [] = f.lit 0 0
  max_or_zero (x ∷ xs) = max_from x xs

  mean_or : F → List F → F
  mean_or d [] = d
  mean_or d (x ∷ xs) = mean (x ∷ xs)

  module _ (distance : String → String → F) (words : String → ℕ) where
    unfoldable pub compression_ratio_of : String → String → F
    compression_ratio_of conversational headless = elim (words headless) [
      | zero ↦ f.lit 1 0
      | suc n ↦ f.round4 (f.div (f.lit (words conversational) 0) (f.lit (suc n) 0))
    ]

    unfoldable pub signals_of : NcgOutput F → Dict String String → List (DriftSignal F)
    unfolding compression_ratio_of analyze_token_drift
    signals_of o outputs =
        map
          (λ e. record {
            agent_name = e.0;
            semantic_distance = distance o.content e.1;
            compression_ratio = compression_ratio_of e.1 o.content;
            ncg_model = o.model;
            analysis_tier = if o.logprobs_available then token_level else semantic;
            token_drift = if o.logprobs_available then analyze_token_drift o else none;
          })
          outputs

    unfoldable pub analyze_drift :
        String → NcgOutput F → Dict String String → Option F → DriftReport F
    unfolding signals_of mean_or max_or_zero max_from
    analyze_drift prompt o outputs internal_agreement =
        let signals = signals_of o outputs in
        let distances = map (λ (s : DriftSignal F). s.semantic_distance) signals in
        let mean_dist : F = elim distances [ [] ↦ f.lit 0 0 | d ∷ ds ↦ f.round4 (mean (d ∷ ds)) ] in
        let mean_compression =
          mean_or (f.lit 1 0) (map (λ (s : DriftSignal F). s.compression_ratio) signals) in
        let high_agreement : Bool = elim internal_agreement [
          | none ↦ false
          | some a ↦ f.lt (f.lit 8 1) a
        ] in
        record {
          prompt = prompt;
          ncg_content = o.content;
          ncg_model = o.model;
          agent_signals = signals;
          mean_semantic_distance = mean_dist;
          max_semantic_distance = max_or_zero distances;
          silent_collapse_detected = high_agreement && f.lt (f.lit 3 1) mean_dist;
          compression_alert = f.lt mean_compression (f.lit 5 1);
        }
