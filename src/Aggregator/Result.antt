-- ===== src/Aggregator/Result.antt =====
-- `ensemble_merge` and `aggregate_responses` of maestro/aggregator.py. The two extra sections of the
-- result are the reports themselves, of which the code copies the fields.
use Prim.Native.String.{◌++◌ as append_text}
use maestro_orchestrator.Prelude.{String, Bool, Option, none, some, List, [], ◌∷◌, if◌then◌else◌}
use maestro_orchestrator.Prelude.Float.{Float}
use maestro_orchestrator.Dissent.{DissentReport}
use maestro_orchestrator.Drift.{DriftReport}
use maestro_orchestrator.Aggregator.{
  Confidence, Responses, response_list, Agreement, analyze_agreement, quorum_threshold,
}

-- " | ".join(items)
joined : List String → String
joined [] = ""
joined (x ∷ xs) = elim xs [ [] ↦ x | _ ∷ _ ↦ append_text x (append_text " | " (joined xs)) ]

unfoldable pub ensemble_merge : Responses → String
unfolding joined response_list
ensemble_merge responses = append_text "Synthesized Answer: " (joined (response_list responses))

pub data Note : Type 0 where
  strives_for_synthesis silent_collapse_warning : Note

pub record Aggregate (F : Type 0) : Type 0 where
  pub consensus : String
  pub majority_view : Option String
  pub minority_view : Option (List String)
  pub confidence : Confidence
  pub agreement_ratio : F
  pub quorum_met : Bool
  pub note : Note
  pub dissent : Option (DissentReport F)
  pub ncg_benchmark : Option (DriftReport F)

module _ {F : Type 0} ⦃f : Float F⦄ where
  unfoldable pub aggregate_of :
      Responses → Option (DriftReport F) → Option (DissentReport F) → Agreement F → Aggregate F
  aggregate_of responses drift dissent a = record {
    consensus = ensemble_merge responses;
    majority_view = a.majority_view;
    minority_view = elim a.minority_views [ [] ↦ none | v ∷ vs ↦ some (v ∷ vs) ];
    confidence = a.confidence;
    agreement_ratio = f.round4 a.agreement_ratio;
    quorum_met = f.le quorum_threshold a.agreement_ratio;
    note = elim drift [
      | none ↦ strives_for_synthesis
      | some d ↦
          if d.silent_collapse_detected then silent_collapse_warning else strives_for_synthesis
    ];
    dissent = dissent;
    ncg_benchmark = drift;
  }

  -- `none` where `analyze_agreement` raises.
  unfoldable pub aggregate_responses :
      Responses → Option (DriftReport F) → Option (DissentReport F) → Option (Aggregate F)
  unfolding aggregate_of
  aggregate_responses responses drift dissent = elim (analyze_agreement responses dissent) [
    | none ↦ none
    | some a ↦ some (aggregate_of responses drift dissent a)
  ]
